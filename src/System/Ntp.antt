-- ===== src/System/Ntp.antt =====
-- The servers of chrony (src/confd/src/confd/ietf-system.c, change_ntp).
use infix_lib.Prelude.{
  ℕ, ◌+◌, ℤ, pos, ltb_ℤ, String, ◌<>◌, Bool, true, false, Option, none, some, List, [], ◌∷◌, get_or,
  is_zero, ◌=ℕ◌, if◌then◌else◌, ◌⊎◌, inl, inr,
}
use infix_lib.Text.{concat}
use infix_lib.Machine.Values.{SrVal, Event, change, enabled, done, abort}
use infix_lib.Machine.{
  M, ◌>>=◌, ◌>>◌, pure, system, access, remove, fopen, fputs, fclose, sr_get_items,
}
use infix_lib.Srx.{srx_get_str, srx_enabled, sr_err_ok, sr_err_sys}
use infix_lib.System.Staged.{install, next_of, sr_err_validation_failed}

abbrev pub chrony_conf : String
chrony_conf = "/etc/chrony.conf"

-- `> 0`
abbrev pub is_positive : ℤ → Bool
is_positive n = ltb_ℤ (pos 0) n

unfoldable pub put_if : Bool → String → String → M Unit
put_if true text fp = fputs text fp
put_if false text fp = pure tt

unfoldable pub put_port : Option String → String → M Unit
put_port none fp = pure tt
put_port (some port) fp = fputs (" port " <> port) fp

unfoldable pub put_server : String → String → Option String → M Bool
unfolding put_if put_port
put_server fp xpath none = pure false
put_server fp xpath (some address) = do
  type ← srx_get_str (xpath <> "/association-type")
  fputs (concat (get_or type "server" ∷ " " ∷ address ∷ [])) fp
  port ← srx_get_str (xpath <> "/udp/port")
  put_port port fp
  iburst ← srx_enabled (xpath <> "/iburst")
  put_if (is_positive iburst) " iburst" fp
  prefer ← srx_enabled (xpath <> "/prefer")
  put_if (is_positive prefer) " prefer" fp
  fputs "\n" fp
  pure true

-- How many of the servers have an address.
unfoldable pub put_servers : String → List SrVal → M ℕ
unfolding put_server
put_servers fp [] = pure 0
put_servers fp (val ∷ vals) = do
  address ← srx_get_str (val.xpath <> "/udp/address")
  server ← put_server fp val.xpath address
  rest ← put_servers fp vals
  pure (if server then rest + 1 else rest)

unfoldable pub put_settings : String → M Unit
put_settings fp = do
  fputs "driftfile /var/lib/chrony/drift\n" fp
  fputs "makestep 1.0 3\n" fp
  fputs "maxupdateskew 100.0\n" fp
  fputs "dumpdir /var/lib/chrony\n" fp
  fputs "rtcfile /var/lib/chrony/rtc\n" fp

-- `valid` is -1 where there is no server at all, and then does not count as false.
unfoldable pub is_valid : List SrVal → ℕ → Bool
is_valid [] valid = true
is_valid (val ∷ vals) valid = if valid =ℕ 0 then false else true

unfoldable pub write_chrony : List SrVal → Option String → M ℤ
unfolding put_servers put_settings is_valid
write_chrony vals none = pure sr_err_sys
write_chrony vals (some fp) = do
  valid ← put_servers fp vals
  put_settings fp
  fclose fp
  if is_valid vals valid
      then pure sr_err_ok
      else do remove (next_of chrony_conf); pure sr_err_validation_failed

unfoldable pub stage_servers : ℤ ⊎ List SrVal → M ℤ
unfolding write_chrony
stage_servers (inl rc) = do remove (next_of chrony_conf); pure rc
stage_servers (inr vals) = do fp ← fopen (next_of chrony_conf) "w"; write_chrony vals fp

unfoldable pub stage_ntp : M ℤ
unfolding stage_servers
stage_ntp = do vals ← sr_get_items "/ietf-system:system/ntp/server"; stage_servers vals

unfoldable pub restart_chrony : M ℤ
restart_chrony = do
  on ← srx_enabled "/ietf-system:system/ntp/enabled"
  if is_zero on
      then (do
        system "initctl -nbq touch chronyd"
        system "initctl -nbq enable chronyd"
        pure sr_err_ok)
      else do system "initctl -nbq disable chronyd"; pure sr_err_ok

unfoldable pub change_ntp : Event → M ℤ
unfolding stage_ntp install restart_chrony
change_ntp enabled = stage_ntp
change_ntp change = stage_ntp
change_ntp abort = do remove (next_of chrony_conf); pure sr_err_ok
change_ntp done = do
  there ← access (next_of chrony_conf)
  if there then (do install chrony_conf; restart_chrony) else pure sr_err_ok
change_ntp event = pure sr_err_ok
