-- ===== src/Core/Start/Hooks.antt =====
-- The priorities of the hooks (src/confd/src/confd/core.h, register_change, and the registrations of
-- ietf-interfaces.c, ietf-system.c and infix-dhcp.c).
pub mod Counting
pub mod Registered
pub mod Started
use infix_lib.Prelude.{
  ℕ, ◌+◌, ◌-◌, ◌≤◌, ◌<◌, ℤ, String, Bool, true, false, Option, none, some, List, [], ◌∷◌, ◌≡◌, refl,
  ◌∙◌, arith, not, is_some, is_zero, if◌then◌else◌, ◌==◌, ap, sym, ◌%◌, ◌^◌,
}
use mathlib.Core.Path.{subst}
use infix_lib.Machine.Values.{
  Datastore, Request, running, startup, change_subscribe, passive, default_flags, update_flags,
  unsubscribe, aug_load_file, Flags,
}
use infix_lib.Machine.{
  Env, World, History, Call, M, ◌>>=◌, pure, request, requested, fopen, opening, fgets_all, fclose,
  uname, else_do,
}
use infix_lib.Srx.{sr_err_ok, sr_err_internal}
use infix_lib.Modules.{
  SrxModuleRequirement, enable_features, srx_require_module, srx_require_modules,
}
use infix_lib.System.OsRelease.{OsInfo, os_init, read_release, open_release}
use infix_lib.Machine.Views.{
  View, Keeps, Keeps-pure, Keeps-bind, Keeps-if, Keeps-request, keep_rules,
}
use infix_lib.Machine.Requests.{requesting_lem}
use infix_lib.Core.{core_hook_prio, cb_prio_passive}
use infix_lib.Core.Start.{
  Registration, change_of, update_of, oper_of, rpc_of, add_hooks, register_change, register,
  register_all, undo, ietf_interfaces_init, ietf_system_init, infix_dhcp_init, infix_dhcp_reqs,
  system_registrations, dhcp_registrations, interfaces_registrations, init_dhcp, init_system,
  init_interfaces, init_augeas, start_candidate, start_sessions, sr_plugin_init_cb,
}

-- The priority of a hook, which counts no changes of its own: a passive subscription other than
-- that of the first hook, whose priority is 0.
abbrev pub hook_of : Request → Option ℕ
hook_of (change_subscribe ds name xpath cb prio passive) =
    if cb == "core_pre_hook" then none else some prio
hook_of r = none

abbrev pub with_hook : Option ℕ → List ℕ → List ℕ
with_hook none prios = prios
with_hook (some prio) prios = prio ∷ prios

-- The priorities that were handed out, the latest first.
abbrev pub hook_prios : History → List ℕ
hook_prios [] = []
hook_prios (requested r ∷ h) = with_hook (hook_of r) (hook_prios h)
hook_prios (_ ∷ h) = hook_prios h

-- Each priority is below the one before it, all are below CB_PRIO_PASSIVE or equal to it, and
-- above `bound`.
abbrev pub Climbs : ℕ → List ℕ → Type 0
Climbs bound [] = bound ≤ cb_prio_passive
Climbs bound (prio ∷ prios) = (bound < prio) × Climbs prio prios

pub Climbs-lower : (p q : ℕ) (prios : List ℕ) → q ≤ p → Climbs p prios → Climbs q prios
Climbs-lower p q [] h c = omega (arith, h, c)
Climbs-lower p q (prio ∷ prios) h c = (omega (arith, h, c.0), c.1)

-- What is seen of a history: the priorities.
abbrev hooks_skip : Call → Bool
hooks_skip (requested r) = not (is_some (hook_of r))
hooks_skip c = true

skipped : (o : Option ℕ) (prios : List ℕ) → not (is_some o) ≡ true → with_hook o prios ≡ prios
skipped none prios h = refl
skipped (some prio) prios h = absurd (ground (arith, h))

pub hooks-skip : (c : Call) (h : History) → hooks_skip c ≡ true → hook_prios (c ∷ h) ≡ hook_prios h
hooks-skip (requested r) h k = skipped (hook_of r) (hook_prios h) k
hooks-skip c h k = refl

abbrev pub hook_view : View (List ℕ)
hook_view = record { read = hook_prios; skips = hooks_skip; skip = hooks-skip }

pub asking_lem :
    (r : Request) (e : Env) (w : World)
    → hook_prios (request r e w).1.calls ≡ with_hook (hook_of r) (hook_prios w.calls)
unfolding request
asking_lem r e w = rw (requesting_lem r e w) refl

pub Quiet-release : (info : OsInfo) (fp : Option String) → Keeps hook_view (read_release info fp)
unfolding read_release
Quiet-release info none = search keep_rules
Quiet-release info (some fp) = search keep_rules

pub Quiet-open_release : (fp : Option String) → Keeps hook_view (open_release fp)
unfolding open_release
Quiet-open_release none = search keep_rules
Quiet-open_release (some fp) = search keep_rules

pub Quiet-features :
    (name : String) (features : List String) (err : ℤ)
    → Keeps hook_view (enable_features name features err)
unfolding enable_features
Quiet-features name [] err = Keeps-pure hook_view err
Quiet-features name (feature ∷ features) err =
    Keeps-bind hook_view _ _ (Keeps-request hook_view _ refl)
      λ err'. Quiet-features name features err'

pub Quiet-else_do : (err : ℤ) → Keeps hook_view (else_do err (request (aug_load_file "/etc/hosts")))
Quiet-else_do err = search keep_rules

pub Quiet-os_init : Keeps hook_view os_init
unfolding os_init
Quiet-os_init = search (keep_rules, Quiet-release, Quiet-open_release) depth 9

pub Quiet-require : (mr : SrxModuleRequirement) → Keeps hook_view (srx_require_module mr)
unfolding srx_require_module
Quiet-require mr =
    Keeps-bind hook_view _ _ (Keeps-request hook_view _ refl)
      λ err. search (keep_rules, Quiet-features)

pub Quiet-modules : (mrs : List SrxModuleRequirement) → Keeps hook_view (srx_require_modules mrs)
unfolding srx_require_modules
Quiet-modules [] = Keeps-pure hook_view sr_err_ok
Quiet-modules (mr ∷ mrs) =
    Keeps-bind hook_view _ _ (Quiet-require mr)
      λ err. Keeps-if hook_view _ _ _ (Quiet-modules mrs) (Keeps-pure hook_view err)

pub Quiet-undo : (rc : ℤ) (info : Option OsInfo) → Keeps hook_view (undo rc info)
unfolding undo
Quiet-undo rc info =
    Keeps-bind hook_view _ _ (Keeps-request hook_view _ refl) λ u. Keeps-pure hook_view (rc, info)
