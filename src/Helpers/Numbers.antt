-- ===== src/Helpers/Numbers.antt =====
-- Numbers in files: what writedf writes, readdf reads (src/confd/src/lib/helpers.c).
use infix_lib.Prelude.{
  ℕ, ◌^◌, ◌<◌, ℤ, pos, String, Bool, ◌<>◌, false, none, some, ◌∷◌, ◌≡◌, refl, ap, ◌∙◌, arith,
}
use infix_lib.Text.{show_int, strtoll}
use infix_lib.Text.Decimal.{strtoll-show_int}
use infix_lib.Machine.{Env, World, opened, closed, wrote, ◌>>=◌}
use infix_lib.Machine.Saved.{Stdio, rewritten_lem}
use infix_lib.Helpers.{open_file, vreadllf, readdf, writedf}

write_lem :
    (value : ℤ) (file : String) (e : Env) (w : World)
    → e.open_errno w.calls file "w" ≡ none
    → (writedf value "w" file e w).1 ≡ record w {
      calls = closed file ∷ wrote file (show_int value <> "\n") ∷ opened file "w" ∷ w.calls;
    }
unfolding writedf open_file ◌>>=◌
write_lem value file e w h = rw h refl

read_lem :
    (n : ℕ) (line file : String) (e : Env) (w : World)
    → e.open_errno w.calls file "r" ≡ none
    → e.line (opened file "r" ∷ w.calls) file ≡ some line
    → strtoll line ≡ (pos n, false)
    → (vreadllf file e w).0 ≡ some (pos n)
unfolding vreadllf open_file ◌>>=◌
read_lem n line file e w opens found read = rw opens (rw found (rw read refl))

narrow_lem :
    (n : ℕ) (file : String) (e : Env) (w : World)
    → n < 2 ^ 31
    → (vreadllf file e w).0 ≡ some (pos n)
    → (readdf file e w).0 ≡ some (pos n)
unfolding readdf ◌>>=◌
narrow_lem n file e w b h = ground (arith, h, b)

-- Where files can be opened and closed, and where a file whose whole content is a number on a line
-- reads as that line once the stream that wrote it is closed: a number of the type int that is not
-- negative, written to a file, is read back from it.
pub readdf-writedf :
    (n : ℕ) (file : String) (e : Env) (spares : String → Bool) (w : World)
    → n < 2 ^ 31
    → Stdio e spares
    → (readdf file e (writedf (pos n) "w" file e w).1).0 ≡ some (pos n)
readdf-writedf n file e spares w b stdio =
    let line = show_int (pos n) <> "\n" in
    let v : World = record w {
      calls = closed file ∷ wrote file line ∷ opened file "w" ∷ w.calls;
    } in
    let kept = rewritten_lem e spares stdio file line w.calls in
    let found = stdio.reads v.calls file (pos n) kept in
    let read = strtoll-show_int n (omega (arith, b)) in
    ap (λ u. (readdf file e u).0) (write_lem (pos n) file e w (stdio.opens w.calls file))
    ∙ narrow_lem n file e v b
        (read_lem n line file e v (stdio.finds v.calls file (pos n) kept) found read)
