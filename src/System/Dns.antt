-- ===== src/System/Dns.antt =====
-- The resolver (src/confd/src/confd/ietf-system.c, change_dns).
use infix_lib.Prelude.{
  ℤ, pos, String, ◌<>◌, ◌&&◌, Option, none, some, List, [], ◌∷◌, is_zero, get_or, if◌then◌else◌,
  ◌⊎◌, inl, inr,
}
use infix_lib.Text.{concat, show_int}
use infix_lib.Machine.Values.{SrVal, string_val, Event, change, enabled, done, abort, uint8_t}
use infix_lib.Machine.{
  M, ◌>>=◌, ◌>>◌, pure, system, access, remove, fopen, fputs, fclose, sr_get_items,
}
use infix_lib.Srx.{srx_get_str, srx_get_int, sr_err_ok, sr_err_sys}
use infix_lib.System.Staged.{install, next_of}

abbrev pub resolv_conf : String
resolv_conf = "/etc/resolv.conf.head"

unfoldable pub put_number : String → ℤ → String → String → M Unit
put_number before n after fp =
    if is_zero n then pure tt else fputs (concat (before ∷ show_int n ∷ after ∷ [])) fp

unfoldable pub put_options : ℤ → ℤ → String → M Unit
unfolding put_number
put_options timeout attempts fp = if is_zero timeout && is_zero attempts then pure tt else do
  fputs "options" fp
  put_number " timeout:" timeout "" fp
  put_number " attempts:" attempts " " fp
  fputs "\n" fp

-- `data.string_val` of a value that is no text is not defined: here, the empty text.
abbrev pub string_of : SrVal → String
string_of val = elim val.content [ string_val s ↦ s | _ ↦ "" ]

unfoldable pub put_each : String → List SrVal → M Unit
put_each fp [] = pure tt
put_each fp (val ∷ vals) = do fputs (string_of val <> " ") fp; put_each fp vals

unfoldable pub put_search : String → List SrVal → M Unit
unfolding put_each
put_search fp [] = pure tt
put_search fp (val ∷ vals) = do fputs "search " fp; put_each fp (val ∷ vals); fputs "\n" fp

unfoldable pub put_nameserver : String → Option String → M Unit
put_nameserver fp none = pure tt
put_nameserver fp (some address) = fputs (concat ("nameserver " ∷ address ∷ "\n" ∷ [])) fp

unfoldable pub put_nameservers : String → List SrVal → M Unit
unfolding put_nameserver
put_nameservers fp [] = pure tt
put_nameservers fp (val ∷ vals) = do
  address ← srx_get_str (val.xpath <> "/udp-and-tcp/address")
  put_nameserver fp address
  put_nameservers fp vals

unfoldable pub write_servers : String → ℤ ⊎ List SrVal → M ℤ
unfolding put_nameservers
write_servers fp (inl rc) = pure rc
write_servers fp (inr vals) = do put_nameservers fp vals; pure sr_err_ok

unfoldable pub write_search : String → ℤ ⊎ List SrVal → M ℤ
unfolding put_search write_servers
write_search fp (inl rc) = pure rc
write_search fp (inr vals) = do
  put_search fp vals
  servers ← sr_get_items "/ietf-system:system/dns-resolver/server"
  write_servers fp servers

-- Both numbers are read into `timeout`: `attempts` stays 0.
unfoldable pub write_resolv : String → M ℤ
unfolding put_options write_search
write_resolv fp = do
  timeout ← srx_get_int uint8_t "/ietf-system:system/dns-resolver/options/timeout"
  attempts ← srx_get_int uint8_t "/ietf-system:system/dns-resolver/options/attempts"
  put_options (get_or attempts (get_or timeout (pos 0))) (pos 0) fp
  search ← sr_get_items "/ietf-system:system/dns-resolver/search"
  write_search fp search

-- The label `fail`.
unfoldable pub close_resolv : String → ℤ → M ℤ
close_resolv fp rc = do
  fclose fp
  if is_zero rc then pure rc else do remove (next_of resolv_conf); pure rc

unfoldable pub stage_resolv : Option String → M ℤ
unfolding write_resolv close_resolv
stage_resolv none = pure sr_err_sys
stage_resolv (some fp) = do rc ← write_resolv fp; close_resolv fp rc

unfoldable pub stage_dns : M ℤ
unfolding stage_resolv
stage_dns = do fp ← fopen (next_of resolv_conf) "w"; stage_resolv fp

unfoldable pub update_resolv : M ℤ
update_resolv = do
  bootstrap ← system "initctl -bq cond get hook/sys/up"
  if is_zero bootstrap then (do system "resolvconf -u"; pure sr_err_ok) else pure (pos 0)

unfoldable pub change_dns : Event → M ℤ
unfolding stage_dns install update_resolv
change_dns enabled = stage_dns
change_dns change = stage_dns
change_dns abort = do remove (next_of resolv_conf); pure sr_err_ok
change_dns done = do
  there ← access (next_of resolv_conf)
  if there then (do install resolv_conf; update_resolv) else pure sr_err_ok
change_dns event = pure sr_err_ok
