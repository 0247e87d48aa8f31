-- ===== src/Dagger/Claim.antt =====
-- What a claim of the next generation leaves, and how a claim ends (src/confd/src/confd/dagger.c,
-- dagger_claim and dagger_evolve_or_abandon).
use infix_lib.Prelude.{◌≡◌, ◌≢◌, ◌+ℤ◌, pos, negsuc, ℤ, String, ◌<>◌, Option, none, some, ◌∷◌, arith}
use infix_lib.Prelude.{is_zero, is_zero→eq, true, List}
use infix_lib.Text.{show_int, strlcpy}
use infix_lib.Machine.{Env, World, ◌>>=◌, ran, refused, wrote, closed, Call}
use infix_lib.Dagger.{
  Dagger, dagger_claim, claim_opened, claim_current, claim_next, path_max, dagger_evolve_or_abandon,
  dagger_evolve, finish_claim, abandon_command, evolve_command,
}

claim_current-ok :
    (d : Dagger) (path : String) (o : Option ℤ) (e : Env) (w : World)
    → (claim_current d path o e w).0.0 ≡ pos 0
    → let d' = (claim_current d path o e w).0.1 in
      (d'.next ≡ d'.current +ℤ pos 1) × (d'.path ≡ strlcpy path_max path) × (d'.next_fp ≡ d.next_fp)
unfolding claim_current claim_next ◌>>=◌
claim_current-ok d path none e w h = ground arith
claim_current-ok d path (some n) e w h = ground arith

-- A claim that succeeds holds the lock file, has stored its path, and prepared the generation after
-- the current one.
pub dagger_claim-ok :
    (path : String) (e : Env) (w : World)
    → (dagger_claim path e w).0.0 ≡ pos 0
    → let d = (dagger_claim path e w).0.1 in
      (d.next ≡ d.current +ℤ pos 1)
      × (d.path ≡ strlcpy path_max path)
      × (d.next_fp ≡ some (path <> "/next"))
unfolding dagger_claim claim_opened ◌>>=◌
dagger_claim-ok path e w h = grind (arith, claim_current-ok)

-- While another transaction holds the lock file, which is opened exclusively, a claim fails with -1
-- and has done nothing but make sure that the directory is there.
dagger_claim-busy :
    (path : String) (n : Prim.Native.Nat.ℕ) (e : Env) (w : World)
    → is_zero (e.status w.calls ("mkdir -p " <> path)) ≡ true
    → e.open_errno (ran ("mkdir -p " <> path) ∷ w.calls) (path <> "/next") "wx" ≡ some n
    → ((dagger_claim path e w).0.0 ≡ negsuc 0)
      × ((dagger_claim path e w).1.calls
          ≡ refused (path <> "/next") "wx" ∷ ran ("mkdir -p " <> path) ∷ w.calls)
unfolding dagger_claim claim_opened ◌>>=◌
dagger_claim-busy path n e w h busy = ground arith

-- With the lock file `fp` held, the end of a transaction writes the generation to it, closes it and
-- runs `evolve`. The result is that of `evolve`, 0 for success, and `abandon` is run after it
-- exactly if `evolve` failed.
dagger_evolve_or_abandon_lem :
    (d : Dagger) (fp : String) (e : Env) (w : World)
    → d.next_fp ≡ some fp
    → let finished = closed fp ∷ wrote fp (show_int d.next <> "\n") ∷ w.calls in
      let status = e.status finished (evolve_command d) in
      let evolved : List Call = ran (evolve_command d) ∷ finished in
      let (r, w') = dagger_evolve_or_abandon d e w in
      (r ≡ status)
      × (status ≡ pos 0 → w'.calls ≡ evolved)
      × (status ≢ pos 0 → w'.calls ≡ ran (abandon_command d) ∷ evolved)
unfolding dagger_evolve_or_abandon dagger_evolve finish_claim ◌>>=◌
dagger_evolve_or_abandon_lem d fp e w h = ground (
  arith,
  is_zero→eq
      (e.status (closed fp ∷ wrote fp (show_int d.next <> "\n") ∷ w.calls) (evolve_command d)),
)
