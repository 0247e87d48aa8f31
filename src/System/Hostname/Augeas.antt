-- ===== src/System/Hostname/Augeas.antt =====
-- The values that augeas holds after a trace.
use infix_lib.Prelude.{
  pos, ◌≡◌, refl, ap, ◌∙◌, String, ◌==◌, Bool, true, false, Option, some, List, [], ◌∷◌, arith,
  if◌then◌else◌,
}
use infix_lib.Machine.Values.{Request, aug_get, aug_set, aug_match, aug_save}
use infix_lib.Machine.{Env, World, History, Call, requested, request, requesting}
use infix_lib.Machine.Requests.{requesting_lem}
use infix_lib.Machine.Views.{View}

-- The values that augeas holds, by their paths.
abbrev pub Values : Type 0
Values = String → Option String

-- What the calls of a history make of them.
abbrev pub augeas : Values → History → Values
augeas s [] p = s p
augeas s (requested (aug_set path value) ∷ h) p = if path == p then some value else augeas s h p
augeas s (_ ∷ h) p = augeas s h p

-- The values in the files: aug_save puts all that augeas holds there.
abbrev pub on_disk : Values → History → Values
on_disk s [] p = s p
on_disk s (requested aug_save ∷ h) p = augeas s h p
on_disk s (_ ∷ h) p = on_disk s h p

-- augeas gives back what was set, and its calls succeed, as do the others.
pub record Answers (e : Env) (s : Values) (hosts : List String) : Type 0 where
  pub gets : (h : History) (p : String) → e.answer h (aug_get p) ≡ augeas s h p
  pub replies : (h : History) (r : Request) → e.reply h r ≡ pos 0
  pub matches : (h : History) → e.answers h (aug_match "etc/hosts/*/canonical") ≡ hosts
  pub runs : (h : History) (cmd : String) → e.status h cmd ≡ pos 0

-- What is read of the calls is one value of augeas.
abbrev not_set : Call → Bool
not_set (requested (aug_set path value)) = false
not_set c = true

pub set-skip :
    (s : Values) (p : String) (c : Call) (h : History)
    → not_set c ≡ true
    → augeas s (c ∷ h) p ≡ augeas s h p
set-skip s p (requested (aug_set path value)) h k = absurd (ground (arith, k))
set-skip s p _ h k = refl

abbrev pub value_view : Values → String → View (Option String)
value_view s p = record { read = λ h. augeas s h p; skips = not_set; skip = set-skip s p }

module _ (e : Env) (s : Values) where
  pub asked_lem :
      (r : Request) (p : String) (w : World)
      → ((h : History) → augeas s (requested r ∷ h) p ≡ augeas s h p)
      → augeas s (requesting r e w).calls p ≡ augeas s w.calls p
  asked_lem r p w skip = ap (λ h. augeas s h p) (requesting_lem r e w) ∙ skip w.calls

module _ (e : Env) (s : Values) (hosts : List String) (answers : Answers e s hosts) where
  pub set_lem :
      (path value p : String) (w : World)
      → let r = request (aug_set path value) e w in
        (r.0 ≡ pos 0)
        × (augeas s r.1.calls p ≡ (if path == p then some value else augeas s w.calls p))
  unfolding request
  set_lem path value p w = (
    answers.replies w.calls (aug_set path value),
    ap (λ h. augeas s h p) (requesting_lem (aug_set path value) e w),
  )
