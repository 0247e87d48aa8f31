-- ===== src/System/Hostname.antt =====
-- The name of the host and the message of the day (src/confd/src/confd/ietf-system.c, change_motd
-- and change_hostname). `xpath` is the path that the handler was registered for.
pub mod Augeas
pub mod Entries
pub mod Laws
use infix_lib.Prelude.{
  ℤ, pos, String, ◌==◌, Option, none, some, List, [], ◌∷◌, get_or, is_zero, if◌then◌else◌,
}
use infix_lib.Machine.Values.{Event, done, sethostname, aug_get, aug_set, aug_match, aug_save}
use infix_lib.Machine.{
  M, ◌>>=◌, ◌>>◌, pure, remove, system, request, request_text, request_list, else_do,
}
use infix_lib.Helpers.{writesf}
use infix_lib.Srx.{srx_get_str, sr_err_ok, sr_err_sys, sr_err_internal}

unfoldable pub put_motd : Option String → M ℤ
unfolding writesf
put_motd (some message) = writesf message "w" "/etc/motd"
put_motd none = do remove "/etc/motd"; pure (pos 0)

unfoldable pub change_motd : String → Event → M ℤ
unfolding put_motd
change_motd xpath done = do
  message ← srx_get_str xpath
  rc ← put_motd message
  pure (if is_zero rc then sr_err_ok else sr_err_sys)
change_motd xpath event = pure sr_err_ok

unfoldable pub sys_reload_services : M ℤ
sys_reload_services = system "initctl -nbq touch sysklogd lldpd"

abbrev pub hostname_path : String
hostname_path = "etc/hostname/hostname"

-- A canonical name that is the current one becomes the new one.
unfoldable pub rename_host : String → String → String → Option String → ℤ → M ℤ
rename_host current nm entry none err = pure err
rename_host current nm entry (some host) err =
    if host == current then else_do err (request (aug_set entry nm)) else pure err

unfoldable pub rename_hosts : String → String → List String → ℤ → M ℤ
unfolding rename_host
rename_hosts current nm [] err = pure err
rename_hosts current nm (entry ∷ entries) err = do
  host ← request_text (aug_get entry)
  err' ← rename_host current nm entry host err
  rename_hosts current nm entries err'

-- The status of the save is not looked at.
unfoldable pub activate_host : ℤ → M ℤ
unfolding sys_reload_services
activate_host err =
    if is_zero err
    then (do
      request aug_save
      failed ← sys_reload_services
      pure (if is_zero failed then sr_err_ok else sr_err_sys))
    else pure err

unfoldable pub set_host : String → Option String → M ℤ
unfolding rename_hosts activate_host
set_host nm none = pure sr_err_internal
set_host nm (some current) = do
  err ← request (sethostname nm)
  err' ← else_do err (request (aug_set hostname_path nm))
  hosts ← request_list (aug_match "etc/hosts/*/canonical")
  last ← rename_hosts current nm hosts err'
  activate_host last

unfoldable pub change_hostname : String → Event → M ℤ
unfolding set_host
change_hostname xpath done = do
  nm ← srx_get_str xpath
  current ← request_text (aug_get hostname_path)
  set_host (get_or nm "infix") current
change_hostname xpath event = pure sr_err_ok
