-- ===== src/Tests/Generations.antt =====
-- Generations and their scripts, and reads of the data store.
use infix_lib.Prelude.{
  ◌≡◌, refl, ◌+◌, pos, negsuc, String, true, none, some, List, [], ◌∷◌, ◌==◌, if◌then◌else◌, ◌⊎◌,
  arith, ap,
}
use mathlib.Core.Path.{subst}
use infix_lib.Machine.{Env, closed, got}
use infix_lib.Machine.Values.{
  SrVal, SrData, other_val, bool_val, uint32_val, uint32_t, unknown_t, type_of,
}
use infix_lib.Machine.Streams.{opens, closes, one_open}
use infix_lib.Srx.{srx_get_str, srx_get_int}
use infix_lib.Srx.Items.{ReadOf, InType, srx_get_int-typed}
use infix_lib.Dagger.{Dagger, dagger_claim, dagger_fopen}
use infix_lib.Dagger.Streams.{dagger_claim-lock}
use infix_lib.Tests.Fixtures.{start, calm}
use infix_lib.Tests.Running.{text_run, helpers_run, dagger_run, srx_run}

claim_of_four : (dagger_claim "/run/net" calm start).0 ≡ (
  pos 0,
  record { current = pos 3; next = pos 4; next_fp = some "/run/net/next"; path = "/run/net" },
)
unfolding text_run helpers_run dagger_run
claim_of_four = refl

claimed : (dagger_claim "/run/net" calm start).0.0 ≡ pos 0
unfolding text_run helpers_run dagger_run
claimed = refl

-- Another transaction holds the lock.
abbrev busy : Env
busy = record calm { open_errno = λ h path mode. if mode == "wx" then some 17 else none }

-- The directories of the next generation cannot be made, after the lock was taken.
abbrev full : Env
full = record calm {
  status = λ h cmd. elim h [ got p ∷ rest ↦ pos 1 | closed p ∷ rest ↦ pos 1 | _ ↦ pos 0 ];
}

dagger_claim-lock_example :
    let r = dagger_claim "/run/net" full start in
    (r.0.1.next_fp ≡ some "/run/net/next")
    × (opens "/run/net/next" r.1.calls + 0
        ≡ 0 + closes "/run/net/next" r.1.calls + one_open "/run/net/next" r.0.1.next_fp)
dagger_claim-lock_example = dagger_claim-lock "/run/net/next" "/run/net" full start

abbrev net : Dagger
net = record { current = pos 3; next = pos 4; next_fp = some "/run/net/next"; path = "/run/net" }

abbrev script : String
script = "/run/net/4/action/init/eth0/50-init.ip"

opens_script : (dagger_fopen net (pos 4) "init" "eth0" 50 "init.ip" calm start).0 ≡ some script
unfolding text_run dagger_run
opens_script = refl

abbrev on : SrVal
on = record { xpath = "/a"; content = bool_val true }

abbrev switched_on : Env
switched_on = record calm { items = λ h path. on ∷ [] }

reads_name : (srx_get_str "/a" calm start).0 ≡ some "eth0"
unfolding srx_run text_run
reads_name = refl

-- A number that an `int` cannot hold.
abbrev seconds : SrVal
seconds = record { xpath = "/a"; content = uint32_val 4294967295 }

abbrev with_number : Env
with_number = record calm { items = λ h path. seconds ∷ [] }

abbrev content_of : List SrVal → SrData
content_of [] = other_val
content_of (x ∷ xs) = x.content

reads_number : (srx_get_int uint32_t "/a" with_number start).0 ≡ some (negsuc 0)
unfolding srx_run text_run
reads_number = refl

srx_get_int-typed_example :
    (x : SrVal) × (seconds ∷ [] ≡ x ∷ [])
    × ((uint32_t ≡ unknown_t) ⊎ (type_of x.content ≡ uint32_t))
    × ReadOf x.content (negsuc 0)
srx_get_int-typed_example =
    srx_get_int-typed uint32_t "/a" with_number start (negsuc 0)
      (λ x only. subst InType (ap content_of only) (omega arith)) reads_number
