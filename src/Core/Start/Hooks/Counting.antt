-- ===== src/Core/Start/Hooks/Counting.antt =====
-- How many priorities an action hands out (src/confd/src/confd/core.h, register_change).
use infix_lib.Prelude.{ℕ, ◌+◌, ◌≤◌, ℤ, Bool, true, false, Option, ◌≡◌, arith, if◌then◌else◌, sym}
use mathlib.Core.Path.{subst}
use infix_lib.Machine.{Env, World, M, ◌>>=◌, pure}
use infix_lib.System.OsRelease.{OsInfo}
use infix_lib.Core.Start.{undo}
use infix_lib.Core.Start.Hooks.{hook_prios, Climbs, Climbs-lower, hook_view, Quiet-undo}
use infix_lib.Machine.Views.{Keeps}

-- Hands out at most `n` priorities from `p` on; `next` of the result is the next one.
pub record Counts {A : Type 0} (next : A → ℕ) (n p : ℕ) (m : M A) : Type 0 where
  pub at :
      (e : Env) (w : World)
      → n ≤ p
      → Climbs p (hook_prios w.calls)
      → (p ≤ next (m e w).0 + n) × Climbs (next (m e w).0) (hook_prios (m e w).1.calls)

-- Leaves the priorities in order, if `n` are left from `p` on.
pub record Fits {A : Type 0} (n p : ℕ) (m : M A) : Type 0 where
  pub at :
      (e : Env) (w : World)
      → n ≤ p
      → Climbs p (hook_prios w.calls)
      → Climbs 0 (hook_prios (m e w).1.calls)

module _ {A : Type 0} (next : A → ℕ) (n p : ℕ) where
  pub Counts-pure : (a : A) → next a ≡ p → Counts next n p (pure a)
  unfolding pure
  Counts-pure a same = record {
    at = λ e w h c. (omega (arith, same), subst (λ q. Climbs q (hook_prios w.calls)) (sym same) c);
  }

  pub Counts-if :
      (b : Bool) (k m : M A)
      → Counts next n p k
      → Counts next n p m
      → Counts next n p (if b then k else m)
  Counts-if true k m hk hm = hk
  Counts-if false k m hk hm = hm

  pub Counts-after :
      {B : Type 0} (m : M B) (f : B → M A)
      → Keeps hook_view m
      → ((b : B) → Counts next n p (f b))
      → Counts next n p (m >>= f)
  unfolding ◌>>=◌
  Counts-after m f hm hf = record {
    at = λ e w h c.
        (hf (m e w).0).at e (m e w).1 h (subst (λ prios. Climbs p prios) (sym (hm.at e w)) c);
  }

module _ {A B : Type 0} (before : A → ℕ) (n p : ℕ) (m : M A) (f : A → M B)
    (hm : Counts before n p m) where
  pub Counts-bind :
      (next : B → ℕ) (k : ℕ)
      → ((a : A) → Counts next k (before a) (f a))
      → Counts next (n + k) p (m >>= f)
  unfolding ◌>>=◌
  Counts-bind next k hf = record {
    at = λ e w h c.
        let (used, first) = hm.at e w (omega (arith, h)) c in
        let (rest, last) = (hf (m e w).0).at e (m e w).1 (omega (arith, used, h)) first in
        (omega (arith, used, rest), last);
  }

  pub Fits-bind : (k : ℕ) → ((a : A) → Fits k (before a) (f a)) → Fits (n + k) p (m >>= f)
  unfolding ◌>>=◌
  Fits-bind k hf = record {
    at = λ e w h c.
        let (used, first) = hm.at e w (omega (arith, h)) c in
        (hf (m e w).0).at e (m e w).1 (omega (arith, used, h)) first;
  }

module _ {A : Type 0} (n p : ℕ) where
  pub Fits-Quiet : (m : M A) → Keeps hook_view m → Fits n p m
  Fits-Quiet m hm = record {
    at = λ e w h c.
        subst (λ prios. Climbs 0 prios) (sym (hm.at e w))
          (Climbs-lower p 0 (hook_prios w.calls) (omega arith) c);
  }

  pub Fits-if : (b : Bool) (k m : M A) → Fits n p k → Fits n p m → Fits n p (if b then k else m)
  Fits-if true k m hk hm = hk
  Fits-if false k m hk hm = hm

  pub Fits-after :
      {B : Type 0} (m : M B) (f : B → M A)
      → Keeps hook_view m
      → ((b : B) → Fits n p (f b))
      → Fits n p (m >>= f)
  unfolding ◌>>=◌
  Fits-after m f hm hf = record {
    at = λ e w h c.
        (hf (m e w).0).at e (m e w).1 h (subst (λ prios. Climbs p prios) (sym (hm.at e w)) c);
  }

pub Fits-undo : (n p : ℕ) (rc : ℤ) (info : Option OsInfo) → Fits n p (undo rc info)
Fits-undo n p rc info = Fits-Quiet n p _ (Quiet-undo rc info)
