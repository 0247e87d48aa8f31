-- ===== src/Tests/Services.antt =====
-- Hooks and DHCP clients.
use infix_lib.Prelude.{true, ◌≡◌, refl, pos, String, List, [], ◌∷◌, ◌++◌, false}
use infix_lib.Lyx.Tree.{Tree}
use infix_lib.Machine.{Env, ran}
use infix_lib.Machine.Values.{change, done, abort, aug_init}
use infix_lib.Core.{reload}
use infix_lib.Core.Start.{sr_plugin_init_cb}
use infix_lib.Core.Start.Undone.{undone}
use infix_lib.Core.Laws.{run_hooks, times, core_post_hook-reloads_once}
use infix_lib.Dhcp.{client_change}
use infix_lib.Machine.Commands.{commands}
use infix_lib.Dhcp.Laws.{client_change-idle}
use infix_lib.Dhcp.Services.{services}
use infix_lib.Dhcp.Services.Changed.{client_change-configured}
use infix_lib.Core.Start.Hooks.{hook_prios, Climbs}
use infix_lib.Core.Start.Hooks.Started.{sr_plugin_init_cb-hooks}
use infix_lib.Tests.Fixtures.{start, calm, leaf, inner, forest}
use infix_lib.Tests.Running.{
  core_start_run, modules_run, osrelease_run, text_run, lyx_run, srx_run, dhcp_run, core_run,
  addresses_run,
}

core_post_hook-reloads_once_example :
    (run_hooks (times 1 change ++ abort ∷ (times 2 change ++ times 1 done)) (pos 0) calm start
      ≡ (pos 1, start))
    × (run_hooks (times 1 change ++ abort ∷ (times 2 change ++ times 2 done)) (pos 0) calm start ≡ (
      pos 0,
      record start { calls = ran "initctl -nbq reload" ∷ ran "runlevel >/dev/null 2>&1" ∷ [] },
    ))
core_post_hook-reloads_once_example = core_post_hook-reloads_once 1 1 0 calm start

reloaded :
    (reload calm start).1.calls ≡ ran "initctl -nbq reload" ∷ ran "runlevel >/dev/null 2>&1" ∷ []
unfolding core_run text_run
reloaded = refl

-- Augeas cannot be started.
abbrev no_augeas : Env
no_augeas = record calm { reply = λ h r. elim r [ aug_init ↦ pos 1 | _ ↦ pos 0 ] }

abbrev client : String → List (String × String) → Tree
client name metas =
    inner "client-if" metas
      (forest (leaf "if-name" name ∷ leaf "enabled" "true" ∷ leaf "client-id" "ab" ∷ []))

abbrev configuration : Tree
configuration =
    inner "dhcp-client" []
      (forest (leaf "enabled" "true" ∷ client "eth0" [] ∷ client "eth1" [] ∷ []))

abbrev difference : Tree
difference = inner "dhcp-client" [] (
    forest (
      client "eth2" (("yang:operation", "delete") ∷ [])
      ∷ client "eth1" (("yang:operation", "create") ∷ [])
      ∷ []))

abbrev with_clients : Env
with_clients = record calm {
  data_tree = λ h. forest (configuration ∷ []);
  diff_tree = λ h. forest (difference ∷ []);
}

clients_changed :
    commands (client_change done with_clients start).1.calls
    ≡ "initctl -bfq enable dhcp-eth1" ∷ "initctl -bfq delete dhcp-eth2" ∷ []
unfolding text_run lyx_run srx_run dhcp_run addresses_run
clients_changed = refl

-- Only the global switch changes.
abbrev turned_off : Env
turned_off = record with_clients {
  diff_tree = λ h. forest (
      inner "dhcp-client" (("yang:operation", "none") ∷ []) (forest (leaf "enabled" "false" ∷ []))
      ∷ []);
}

client_change-idle_example : commands (client_change done turned_off start).1.calls ≡ []
unfolding lyx_run
client_change-idle_example = client_change-idle turned_off start λ h. refl

-- Without augeas the start is undone, and counts as a success.
augeas_lost :
    let r = sr_plugin_init_cb "/usr/share/yang" no_augeas start in
    (r.0.0 ≡ pos 0) × (undone r.1.calls ≡ true)
unfolding core_start_run text_run
augeas_lost = (refl, refl)

-- Two hooks for each of the eight parts that are registered, the latest first.
registered :
    hook_prios (sr_plugin_init_cb "/usr/share/yang" calm start).1.calls
    ≡ 64985 ∷ 64986 ∷ 64987 ∷ 64988 ∷ 64989 ∷ 64990 ∷ 64991 ∷ 64992 ∷ 64993 ∷ 64994 ∷ 64995 ∷ 64996
      ∷ 64997 ∷ 64998 ∷ 64999 ∷ 65000 ∷ []
unfolding core_start_run core_run text_run modules_run osrelease_run
registered = refl

sr_plugin_init_cb-hooks_example :
    Climbs 0 (hook_prios (sr_plugin_init_cb "/usr/share/yang" calm start).1.calls)
sr_plugin_init_cb-hooks_example = sr_plugin_init_cb-hooks "/usr/share/yang" calm start refl

client_change-configured_example :
    services (λ name. false) (client_change done with_clients start).1.calls "eth1" ≡ true
unfolding text_run lyx_run srx_run dhcp_run addresses_run
client_change-configured_example =
    client_change-configured with_clients (λ name. false) (λ h path mode. refl) start "eth1" refl
      refl (refl, (refl, tt))
