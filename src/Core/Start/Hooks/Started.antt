-- ===== src/Core/Start/Hooks/Started.antt =====
-- The priorities of the hooks after the start of the plugin (src/confd/src/confd/core.c,
-- sr_plugin_init_cb, with the registrations of the three parts).
use infix_lib.Prelude.{ℕ, ◌≤◌, String, none, some, [], ◌≡◌, refl, arith, sym}
use mathlib.Core.Path.{subst}
use infix_lib.Machine.{Env, World}
use infix_lib.Srx.{sr_err_internal}
use infix_lib.System.OsRelease.{OsInfo}
use infix_lib.Core.{cb_prio_passive}
use infix_lib.Core.Start.{
  ietf_interfaces_init, ietf_system_init, infix_dhcp_init, infix_dhcp_reqs, system_registrations,
  dhcp_registrations, interfaces_registrations, init_dhcp, init_system, init_interfaces,
  init_augeas, start_candidate, start_sessions, sr_plugin_init_cb,
}
use infix_lib.Core.Start.Hooks.{
  hook_prios, Climbs, hook_view, Quiet-os_init, Quiet-else_do, Quiet-modules,
}
use infix_lib.Machine.Views.{Keeps-request, keep_rules}
use infix_lib.Core.Start.Hooks.Counting.{
  Counts, Fits, Counts-pure, Counts-if, Counts-after, Counts-bind, Fits-bind, Fits-Quiet, Fits-if,
  Fits-after, Fits-undo,
}
use infix_lib.Core.Start.Hooks.Registered.{given, Counts-register_all}

-- The registrations of ietf-system.c add twelve hooks, after what adds none.
Counts-system : (p : ℕ) → Counts (λ r. r.2) 12 p (ietf_system_init p)
unfolding ietf_system_init
Counts-system p =
    Counts-after (λ r. r.2) 12 p _ _ Quiet-os_init
      λ info.
        Counts-after (λ r. r.2) 12 p _ _ (Keeps-request hook_view _ refl)
          λ err.
            Counts-after (λ r. r.2) 12 p _ _ (Quiet-else_do err)
              λ err'.
                Counts-if (λ r. r.2) 12 p _ _ _
                  (Counts-bind given 12 p _ _ (Counts-register_all system_registrations p)
                    (λ r. r.2) 0
                    λ made. Counts-pure (λ r. r.2) 0 (given made) (info, made.0, made.1) refl)
                  (Counts-pure (λ r. r.2) 12 p (info, sr_err_internal, p) refl)

Counts-dhcp : (yang_path : String) (p : ℕ) → Counts given 2 p (infix_dhcp_init yang_path p)
unfolding infix_dhcp_init
Counts-dhcp yang_path p =
    Counts-after given 2 p _ _ (Quiet-modules (infix_dhcp_reqs yang_path)) λ rc.
      Counts-if given 2 p _ _ _ (Counts-register_all dhcp_registrations p)
        (Counts-pure given 2 p (rc, p) refl)

Fits-dhcp : (yang_path : String) (info : OsInfo) (p : ℕ) → Fits 2 p (init_dhcp yang_path info p)
unfolding init_dhcp
Fits-dhcp yang_path info p =
    Fits-bind given 2 p _ _ (Counts-dhcp yang_path p) 0
      λ made. Fits-Quiet 0 (given made) _ (search keep_rules)

Fits-system : (yang_path : String) (p : ℕ) → Fits 14 p (init_system yang_path p)
unfolding init_system
Fits-system yang_path p =
    Fits-bind (λ r. r.2) 12 p _ _ (Counts-system p) 2
      λ made.
        Fits-if 2 made.2 _ _ _ (Fits-dhcp yang_path made.0 made.2)
          (Fits-undo 2 made.2 made.1 (some made.0))

Fits-interfaces : (yang_path : String) → Fits 16 cb_prio_passive (init_interfaces yang_path)
unfolding init_interfaces ietf_interfaces_init
Fits-interfaces yang_path =
    Fits-bind given 2 cb_prio_passive _ _
      (Counts-register_all interfaces_registrations cb_prio_passive) 14
      λ made.
        Fits-if 14 (given made) _ _ _ (Fits-system yang_path (given made))
          (Fits-undo 14 (given made) made.0 none)

Fits-start : (yang_path : String) → Fits 16 cb_prio_passive (sr_plugin_init_cb yang_path)
unfolding sr_plugin_init_cb start_sessions start_candidate init_augeas
Fits-start yang_path =
    search
      (
        Fits-after 16 cb_prio_passive,
        Fits-if 16 cb_prio_passive,
        Fits-undo,
        Fits-interfaces,
        Keeps-request hook_view,
      )
      depth 14

-- From a start of the plugin without hooks, whatever fails: each hook after the changes gets a
-- priority of its own, below those handed out before it; all are above 0, which is the priority of
-- the hook before the changes, and at most CB_PRIO_PASSIVE, so that no subtraction wraps around.
pub sr_plugin_init_cb-hooks :
    (yang_path : String) (e : Env) (w : World)
    → hook_prios w.calls ≡ []
    → Climbs 0 (hook_prios (sr_plugin_init_cb yang_path e w).1.calls)
sr_plugin_init_cb-hooks yang_path e w h =
    let free : cb_prio_passive ≤ cb_prio_passive = omega arith in
    (Fits-start yang_path).at e w (omega arith)
      (subst (λ prios. Climbs cb_prio_passive prios) (sym h) free)
