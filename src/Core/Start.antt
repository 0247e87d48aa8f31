-- ===== src/Core/Start.antt =====
-- The start of the plugin (src/confd/src/confd/core.c, sr_plugin_init_cb, with the registrations of
-- core.h, ietf-interfaces.c, ietf-system.c and infix-dhcp.c). A request for a pointer has the reply
-- 0 where it is not NULL. A callback is named by its function; `yang_path` is the directory that the
-- build sets.
pub mod Undone
pub mod Hooks
use infix_lib.Prelude.{
  ℕ, ℤ, pos, String, Bool, true, false, Option, none, some, List, [], ◌∷◌, is_zero, if◌then◌else◌,
}
use infix_lib.Machine.Values.{
  Datastore, startup, running, candidate, session_start, aug_init, aug_load_file, get_connection,
  unsubscribe, change_subscribe, oper_get_subscribe, rpc_subscribe, Flags, passive, default_flags,
  update_flags,
}
use infix_lib.Machine.{M, ◌>>=◌, ◌>>◌, pure, request, else_do}
use infix_lib.Srx.{sr_err_ok, sr_err_sys, sr_err_internal}
use infix_lib.Core.{core_hook_prio, cb_prio_primary, cb_prio_passive}
use infix_lib.Modules.{SrxModuleRequirement, srx_require_modules}
use infix_lib.System.Datetime.{clock_path}
use infix_lib.System.OsRelease.{OsInfo, os_init, platform_path}

-- REGISTER_CHANGE with its datastore, module, path and callback, with or without flags; of
-- REGISTER_OPER and REGISTER_RPC the path is all that is seen.
pub data Registration : Type 0 where
  change_of update_of : Datastore → String → String → String → Registration
  oper_of : String → Registration
  rpc_of : String → Registration

-- The hooks of a standard subscription; their status is not looked at.
unfoldable pub add_hooks : String → String → ℕ → M (ℤ × ℕ)
unfolding core_hook_prio
add_hooks module_name xpath hook_prio =
    let (first, next) = core_hook_prio hook_prio in
    let (second, last) = core_hook_prio next in
    do
      request (change_subscribe running module_name xpath "core_post_hook" first passive)
      request (change_subscribe startup module_name xpath "core_startup_save" second passive)
      pure (sr_err_ok, last)

unfoldable pub register_change : Datastore → String → String → String → ℕ → M (ℤ × ℕ)
unfolding add_hooks
register_change ds module_name xpath cb hook_prio = do
  request (change_subscribe running module_name xpath "core_pre_hook" 0 passive)
  rc ← request (change_subscribe ds module_name xpath cb cb_prio_primary default_flags)
  if is_zero rc then add_hooks module_name xpath hook_prio else pure (rc, hook_prio)

unfoldable pub register : Registration → ℕ → M (ℤ × ℕ)
unfolding register_change
register (change_of ds module_name xpath cb) hook_prio =
    register_change ds module_name xpath cb hook_prio
register (update_of ds module_name xpath cb) hook_prio = do
  rc ← request (change_subscribe ds module_name xpath cb cb_prio_primary update_flags)
  pure (rc, hook_prio)
register (oper_of xpath) hook_prio = do
  rc ← request (oper_get_subscribe xpath)
  pure (rc, hook_prio)
register (rpc_of xpath) hook_prio = do rc ← request (rpc_subscribe xpath); pure (rc, hook_prio)

-- The first that fails ends the registration: `goto fail`.
unfoldable pub register_all : List Registration → ℕ → M (ℤ × ℕ)
unfolding register
register_all [] hook_prio = pure (sr_err_ok, hook_prio)
register_all (r ∷ rs) hook_prio = do
  (rc, next) ← register r hook_prio
  if is_zero rc then register_all rs next else pure (rc, next)

abbrev pub interfaces_xpath : String
interfaces_xpath = "/ietf-interfaces:interfaces"

abbrev pub interfaces_registrations : List Registration
interfaces_registrations =
    change_of running "ietf-interfaces" interfaces_xpath "ifchange"
    ∷ update_of candidate "ietf-interfaces" interfaces_xpath "ifchange_cand"
    ∷ []

unfoldable pub ietf_interfaces_init : ℕ → M (ℤ × ℕ)
unfolding register_all
ietf_interfaces_init hook_prio = register_all interfaces_registrations hook_prio

abbrev pub system_change : String → String → Registration
system_change xpath cb = change_of running "ietf-system" xpath cb

abbrev pub system_registrations : List Registration
system_registrations =
    system_change "/ietf-system:system/authentication" "change_auth"
    ∷ system_change "/ietf-system:system/hostname" "change_hostname"
    ∷ system_change "/ietf-system:system/infix-system:motd" "change_motd"
    ∷ system_change "/ietf-system:system/clock" "change_clock"
    ∷ system_change "/ietf-system:system/ntp" "change_ntp"
    ∷ system_change "/ietf-system:system/dns-resolver" "change_dns"
    ∷ oper_of clock_path
    ∷ oper_of platform_path
    ∷ rpc_of "/ietf-system:system-restart"
    ∷ rpc_of "/ietf-system:system-shutdown"
    ∷ rpc_of "/ietf-system:set-current-datetime"
    ∷ []

unfoldable pub ietf_system_init : ℕ → M (OsInfo × ℤ × ℕ)
unfolding register_all os_init
ietf_system_init hook_prio = do
  info ← os_init
  err ← request (aug_load_file "/etc/hostname")
  err' ← else_do err (request (aug_load_file "/etc/hosts"))
  if is_zero err'
      then (do (rc, next) ← register_all system_registrations hook_prio; pure (info, rc, next))
      else pure (info, sr_err_internal, hook_prio)

abbrev pub infix_dhcp_reqs : String → List SrxModuleRequirement
infix_dhcp_reqs yang_path =
    record { dir = yang_path; name = "infix-dhcp-client"; rev = some "2023-05-22"; features = none }
    ∷ []

abbrev pub dhcp_registrations : List Registration
dhcp_registrations =
    change_of running "infix-dhcp-client" "/infix-dhcp-client:dhcp-client" "client_change" ∷ []

unfoldable pub infix_dhcp_init : String → ℕ → M (ℤ × ℕ)
unfolding srx_require_modules register_all
infix_dhcp_init yang_path hook_prio = do
  rc ← srx_require_modules (infix_dhcp_reqs yang_path)
  if is_zero rc then register_all dhcp_registrations hook_prio else pure (rc, hook_prio)

-- The label `err`.
unfoldable pub undo : ℤ → Option OsInfo → M (ℤ × Option OsInfo)
undo rc info = do request unsubscribe; pure (rc, info)

unfoldable pub init_dhcp : String → OsInfo → ℕ → M (ℤ × Option OsInfo)
unfolding infix_dhcp_init undo
init_dhcp yang_path info hook_prio = do
  (rc, next) ← infix_dhcp_init yang_path hook_prio
  if is_zero rc then pure (sr_err_ok, some info) else undo rc (some info)

unfoldable pub init_system : String → ℕ → M (ℤ × Option OsInfo)
unfolding ietf_system_init init_dhcp undo
init_system yang_path hook_prio = do
  (info, rc, next) ← ietf_system_init hook_prio
  if is_zero rc then init_dhcp yang_path info next else undo rc (some info)

unfoldable pub init_interfaces : String → M (ℤ × Option OsInfo)
unfolding ietf_interfaces_init init_system undo
init_interfaces yang_path = do
  (rc, next) ← ietf_interfaces_init cb_prio_passive
  if is_zero rc then init_system yang_path next else undo rc none

-- `rc` is still the status of the session where augeas cannot be started.
unfoldable pub init_augeas : String → M (ℤ × Option OsInfo)
unfolding init_interfaces undo
init_augeas yang_path = do
  aug ← request aug_init
  if is_zero aug then init_interfaces yang_path else undo sr_err_ok none

unfoldable pub start_candidate : String → M (ℤ × Option OsInfo)
unfolding init_augeas undo
start_candidate yang_path = do
  rc ← request (session_start candidate)
  if is_zero rc then init_augeas yang_path else undo rc none

unfoldable pub start_sessions : String → M (ℤ × Option OsInfo)
unfolding start_candidate undo
start_sessions yang_path = do
  rc ← request (session_start startup)
  if is_zero rc then start_candidate yang_path else undo rc none

-- The result, and the static variables of ietf-system.c, if they were set.
unfoldable pub sr_plugin_init_cb : String → M (ℤ × Option OsInfo)
unfolding start_sessions undo
sr_plugin_init_cb yang_path = do
  conn ← request get_connection
  if is_zero conn then start_sessions yang_path else undo sr_err_sys none

unfoldable pub sr_plugin_cleanup_cb : M Unit
sr_plugin_cleanup_cb = do request unsubscribe; pure tt
