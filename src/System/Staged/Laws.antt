-- ===== src/System/Staged/Laws.antt =====
-- Transactions over files (src/confd/src/confd/ietf-system.c): the handlers of the clock, of NTP and
-- of DNS keep the files in place until the event DONE.
use infix_lib.Prelude.{
  ℕ, ℤ, pos, ◌≡◌, refl, String, ◌==◌, Bool, true, false, Option, none, some, ◌∷◌, arith, is_some,
  eq_refl, if◌then◌else◌, ◌∙◌,
}
use infix_lib.Machine.{Env, World, M, ◌>>=◌, access, ◌>>◌, pure, testing, tested}
use infix_lib.System.Staged.{install, prev_of, next_of}
use infix_lib.Machine.Files.{Store, Leaves, after, Truthful, moved, set_file}

-- The three names differ.
pub record Apart (conf : String) : Type 0 where
  pub conf_prev : conf == prev_of conf ≡ false
  pub conf_next : conf == next_of conf ≡ false
  pub prev_conf : prev_of conf == conf ≡ false
  pub prev_next : prev_of conf == next_of conf ≡ false
  pub next_conf : next_of conf == conf ≡ false
  pub next_prev : next_of conf == prev_of conf ≡ false

-- A file, the one that it replaced, and the one that is to replace it.
pub record Slot : Type 0 where
  pub conf : Option String
  pub prev : Option String
  pub next : Option String

abbrev pub slot : String → Store → Slot
slot name s = record { conf = s name; prev = s (prev_of name); next = s (next_of name) }

-- The prepared file replaces the one in place, which becomes the previous one.
abbrev pub committed : Slot → Slot
committed t = elim t.next [
  | none ↦ t
  | some text ↦ record { conf = some text; prev = t.conf; next = none }
]

-- The two renames, after the removal.
installed_in : String → Store → Store
installed_in conf s =
    let t = set_file (prev_of conf) none s in
    let u = moved conf (prev_of conf) (t conf) t in moved (next_of conf) conf (u (next_of conf)) u

installed :
    (conf : String) (s : Store) (text : String)
    → Apart conf
    → s (next_of conf) ≡ some text
    → slot conf (installed_in conf s) ≡ record { conf = some text; prev = s conf; next = none }
unfolding installed_in
installed conf s text a h =
    elim (s conf)
        as (λ o.
          s conf ≡ o
          → slot conf (installed_in conf s)
            ≡ record { conf = some text; prev = s conf; next = none }) [
              | none ↦ λ old.
                  ground
                    (arith, h, old, eq_refl conf, eq_refl (prev_of conf), eq_refl (next_of conf))
              | some c ↦ λ old.
                  ground
                    (arith, h, old, eq_refl conf, eq_refl (prev_of conf), eq_refl (next_of conf))
            ]
      refl

install-slot :
    (s : Store) (conf : String) (e : Env) (w : World) (text : String)
    → Apart conf
    → after s w.calls (next_of conf) ≡ some text
    → slot conf (after s (install conf e w).1.calls)
      ≡ record { conf = some text; prev = after s w.calls conf; next = none }
unfolding install installed_in ◌>>=◌
install-slot s conf e w text a h = installed conf (after s w.calls) text a h

abbrev pub LeavesAll : Store → String → M ℤ → Type 0
LeavesAll s conf m = Leaves s conf m × Leaves s (prev_of conf) m × Leaves s (next_of conf) m

-- The handlers test for the prepared file, put it in place, and go on with `rest`.
module _ (e : Env) (s : Store) (truthful : Truthful e s) (conf : String) (apart : Apart conf) where
  after-install :
      (rest : M ℤ)
      → LeavesAll s conf rest
      → (w : World) (text : String) → after s w.calls (next_of conf) ≡ some text
      → slot conf (after s (rest e (install conf e w).1).1.calls)
        ≡ record { conf = some text; prev = after s w.calls conf; next = none }
  after-install rest leaves w text h =
      let v = (install conf e w).1 in
      let kept : slot conf (after s (rest e v).1.calls) ≡ slot conf (after s v.calls) =
        ground (arith, leaves.0.at e v, leaves.1.at e v, leaves.2.at e v) in
      kept ∙ install-slot s conf e w text apart h

  some_text : (o : Option String) → true ≡ is_some o → (text : String) × (o ≡ some text)
  some_text none h = absurd (ground (arith, h))
  some_text (some text) h = (text, refl)

  branch :
      (rest : M ℤ)
      → LeavesAll s conf rest
      → (there : Bool) (n : ℕ) (w : World) → there ≡ is_some (after s w.calls (next_of conf))
      → let r = testing there n w in
        slot conf (after s ((if r.0 then install conf >> rest else pure (pos 0)) e r.1).1.calls)
        ≡ committed (slot conf (after s w.calls))
  unfolding ◌>>=◌
  branch rest leaves true n w h =
      let (text, found) = some_text (after s w.calls (next_of conf)) h in
      after-install rest leaves w text found ∙ ground (arith, found)
  branch rest leaves false n w h = ground (arith, h)

  -- What the handlers do at the event DONE.
  pub commit-slot :
      (rest : M ℤ)
      → LeavesAll s conf rest
      → (w : World)
      → slot conf (
          after s
            ((access (next_of conf) >>= λ there.
                if there then install conf >> rest else pure (pos 0))
              e w).1.calls)
        ≡ committed (slot conf (after s w.calls))
  unfolding access ◌>>=◌
  commit-slot rest leaves w =
      branch rest leaves _ (e.missing_errno w.calls (next_of conf))
        (record w { calls = tested (next_of conf) ∷ w.calls }) (truthful w.calls (next_of conf))
