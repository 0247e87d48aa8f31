-- ===== src/Net/Handover.antt =====
-- The number of a generation on its way from confd to net (src/confd/src/confd/dagger.c,
-- dagger_evolve; src/net/src/main.c, load_gen, save_gen and getpath).
use infix_lib.Prelude.{
  ℕ, ◌^◌, ◌<◌, ℤ, pos, String, ◌<>◌, Bool, some, ◌≡◌, refl, ap, ◌∙◌, arith, inr,
}
use infix_lib.Text.{show_int}
use infix_lib.Text.Decimal.{strtol_10-show_int}
use infix_lib.Machine.{Env, World, ◌>>=◌, pure, fopen, fputs, fgets, fclose, chomp}
use infix_lib.Machine.Saved.{Stdio, saved, unsaved, saved_view, closed_lem, rewritten_lem}
use infix_lib.Srx.Items.{to_int_lem}
use infix_lib.Dagger.{Dagger, finish_claim, next_dir}
use infix_lib.Net.Generation.{load_gen, load_from, load_line, save_gen, save_to, in_dir}
use infix_lib.Net.Deps.{go_on}
use infix_lib.Net.Command.Asks.{Keeps-getnet}
use infix_lib.Net.Command.{getnet, getpath, path_of, path_from}

module _ (e : Env) (spares : String → Bool) (stdio : Stdio e spares) (dir : String)
    (finds : (w : World) → (getnet e w).0 ≡ some dir) where
  -- What net reads of a file whose last line is known.
  load_lem :
      (gen : String) (n : ℤ) (w : World)
      → e.chomp (show_int n <> "\n") ≡ show_int n
      → saved e spares (in_dir dir gen) w.calls ≡ some (show_int n <> "\n")
      → (load_gen dir gen e w).0 ≡ inr (show_int n)
  unfolding load_gen load_from load_line fopen fgets fclose chomp ◌>>=◌ pure
  load_lem gen n w cut h =
      let file = in_dir dir gen in
      rw (stdio.finds w.calls file n h) (rw (stdio.reads w.calls file n h) (rw cut refl))

  -- The directory that the number in the file `gen` gives.
  path_lem :
      (n : ℕ) (w : World)
      → n < 2 ^ 31
      → saved e spares (dir <> "/gen") w.calls ≡ some (show_int (pos n) <> "\n")
      → (getpath e w).0 ≡ some (in_dir dir (show_int (pos n)))
  unfolding getpath path_of path_from go_on fopen fgets fclose ◌>>=◌ pure
  path_lem n w b h =
      let file = dir <> "/gen" in
      let v = (getnet e w).1 in
      let same = (Keeps-getnet (saved_view e spares file) λ r. refl).at e w ∙ h in
      let number = strtol_10-show_int n (omega (arith, b)) in
      rw (finds w) (
        rw (stdio.finds v.calls file (pos n) same) (
          rw (stdio.reads v.calls file (pos n) same) (
            rw number (
              ap (λ m. some (in_dir dir (show_int m)))
                ((to_int_lem (pos n)).1 (ground (arith, b)))))))

  saved_lem :
      (text : String) (w : World)
      → saved e spares (dir <> "/gen") (save_gen dir "gen" text e w).1.calls ≡ some (text <> "\n")
  unfolding save_gen save_to fopen fputs fclose ◌>>=◌ pure
  saved_lem text w =
      rw (stdio.opens w.calls (dir <> "/gen"))
        (rewritten_lem e spares stdio (dir <> "/gen") (text <> "\n") w.calls)

  written_lem :
      (d : Dagger) (w : World)
      → unsaved spares (dir <> "/next") w.calls ≡ some ""
      → saved e spares (dir <> "/next") (finish_claim d (some (dir <> "/next")) e w).1.calls
        ≡ some (show_int d.next <> "\n")
  unfolding finish_claim fputs fclose ◌>>=◌ pure
  written_lem d w fresh =
      closed_lem e spares stdio (dir <> "/next") (show_int d.next <> "\n") w.calls fresh

  -- Where files can be opened and closed, where a file whose whole content is a number on a line
  -- reads as that line once the stream that wrote it is closed, chomp removes its end, and NET_DIR
  -- leads net to the directory of confd: if confd opened `next` for its claim, nothing was
  -- written to it and nothing touched it since, and the number is not negative and of the type int,
  -- then net reads in `next` the generation that confd writes at the end of its claim, and once it
  -- has saved that as `gen`, it looks for the state of the interfaces in the directory that confd
  -- prepared for it.
  pub generation-handed_over :
      (d : Dagger) (n : ℕ) (w u : World)
      → d.path ≡ dir
      → d.next ≡ pos n
      → n < 2 ^ 31
      → unsaved spares (dir <> "/next") w.calls ≡ some ""
      → e.chomp (show_int d.next <> "\n") ≡ show_int d.next
      → ((load_gen dir "next" e (finish_claim d (some (dir <> "/next")) e w).1).0
          ≡ inr (show_int d.next))
        × ((getpath e (save_gen dir "gen" (show_int d.next) e u).1).0 ≡ some (next_dir d))
  generation-handed_over d n w u place number small fresh cut = (
    load_lem "next" d.next _ cut (written_lem d w fresh),
    path_lem n (save_gen dir "gen" (show_int d.next) e u).1 small
          (saved_lem (show_int d.next) u ∙ ap (λ m. some (show_int m <> "\n")) number)
        ∙ rw (place, number) refl,
  )
