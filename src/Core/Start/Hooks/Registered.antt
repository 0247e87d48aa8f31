-- ===== src/Core/Start/Hooks/Registered.antt =====
-- The priorities that a list of registrations hands out (src/confd/src/confd/core.h).
use infix_lib.Prelude.{
  ℕ, ◌+◌, ◌-◌, ◌≤◌, ℤ, String, List, [], ◌∷◌, ◌≡◌, refl, arith, ap, sym, ◌%◌, ◌^◌,
}
use mathlib.Core.Path.{subst}
use infix_lib.Machine.Values.{Datastore, running, startup, change_subscribe, passive}
use infix_lib.Machine.{Env, World, ◌>>=◌, pure, request}
use infix_lib.Srx.{sr_err_ok}
use infix_lib.Core.{core_hook_prio, cb_prio_passive}
use infix_lib.Core.Start.{
  Registration, change_of, update_of, oper_of, rpc_of, add_hooks, register_change, register,
  register_all,
}
use infix_lib.Core.Start.Hooks.{hook_prios, Climbs, hook_view, asking_lem}
use infix_lib.Machine.Views.{Keeps-request}
use infix_lib.Core.Start.Hooks.Counting.{Counts, Counts-pure, Counts-if, Counts-after, Counts-bind}

Climbs-bound : (p : ℕ) (prios : List ℕ) → Climbs p prios → p ≤ cb_prio_passive
Climbs-bound p [] c = c
Climbs-bound p (prio ∷ prios) c = omega (arith, c.0, Climbs-bound prio prios c.1)

-- The subtraction from a priority that is left does not wrap around.
next_prio : (p : ℕ) → 1 ≤ p → p ≤ cb_prio_passive → (p + (2 ^ 32 - 1)) % 2 ^ 32 ≡ p - 1
next_prio p h b = ground (arith, h, b)

hooks_asked :
    (name xpath : String) (p q : ℕ) (e : Env) (w : World)
    → let v = (request (change_subscribe running name xpath "core_post_hook" p passive) e w).1 in
      let u = (request (change_subscribe startup name xpath "core_startup_save" q passive) e v).1 in
      hook_prios u.calls ≡ q ∷ p ∷ hook_prios w.calls
hooks_asked name xpath p q e w =
    rw (asking_lem (change_subscribe startup name xpath "core_startup_save" q passive) e _) (
      ap (λ prios. q ∷ prios)
        (asking_lem (change_subscribe running name xpath "core_post_hook" p passive) e w))

abbrev pub given : ℤ × ℕ → ℕ
given r = r.1

pub Counts-hooks : (name xpath : String) (p : ℕ) → Counts given 2 p (add_hooks name xpath p)
unfolding add_hooks core_hook_prio ◌>>=◌ pure
Counts-hooks name xpath p = record {
  at = λ e w h c.
      let bound = Climbs-bound p (hook_prios w.calls) c in
      let first = next_prio p (omega (arith, h)) bound in
      let second = next_prio (p - 1) (omega (arith, h)) (omega (arith, bound)) in
      rw (first, second)
        (
          omega (arith, h),
          subst (λ prios. Climbs (p - 1 - 1) prios) (sym (hooks_asked name xpath p (p - 1) e w))
              (omega (arith, h), (omega (arith, h), c)),
        );
}

pub Counts-register_change :
    (ds : Datastore) (name xpath cb : String) (p : ℕ)
    → Counts given 2 p (register_change ds name xpath cb p)
unfolding register_change
Counts-register_change ds name xpath cb p =
    Counts-after given 2 p _ _ (Keeps-request hook_view _ refl) λ u.
      Counts-after given 2 p _ _ (Keeps-request hook_view _ refl) λ rc.
        Counts-if given 2 p _ _ _ (Counts-hooks name xpath p) (Counts-pure given 2 p (rc, p) refl)

abbrev pub hooks_of : Registration → ℕ
hooks_of (change_of ds name xpath cb) = 2
hooks_of r = 0

pub Counts-register : (r : Registration) (p : ℕ) → Counts given (hooks_of r) p (register r p)
unfolding register
Counts-register (change_of ds name xpath cb) p = Counts-register_change ds name xpath cb p
Counts-register (update_of ds name xpath cb) p =
    Counts-after given 0 p _ _ (Keeps-request hook_view _ refl)
      λ rc. Counts-pure given 0 p (rc, p) refl
Counts-register (oper_of xpath) p =
    Counts-after given 0 p _ _ (Keeps-request hook_view _ refl)
      λ rc. Counts-pure given 0 p (rc, p) refl
Counts-register (rpc_of xpath) p =
    Counts-after given 0 p _ _ (Keeps-request hook_view _ refl)
      λ rc. Counts-pure given 0 p (rc, p) refl

abbrev pub hooks_of_all : List Registration → ℕ
hooks_of_all [] = 0
hooks_of_all (r ∷ rs) = hooks_of r + hooks_of_all rs

pub Counts-register_all :
    (rs : List Registration) (p : ℕ) → Counts given (hooks_of_all rs) p (register_all rs p)
unfolding register_all
Counts-register_all [] p = Counts-pure given 0 p (sr_err_ok, p) refl
Counts-register_all (r ∷ rs) p =
    Counts-bind given (hooks_of r) p _ _ (Counts-register r p) given (hooks_of_all rs) λ made.
      Counts-if given (hooks_of_all rs) (given made) _ _ _ (Counts-register_all rs (given made))
        (Counts-pure given (hooks_of_all rs) (given made) made refl)
