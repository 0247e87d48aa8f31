-- ===== src/System/Datetime.antt =====
-- Date and time (src/confd/src/confd/ietf-system.c, fmtime, clock_cb, rpc_exec and
-- rpc_set_datetime).
pub mod Laws
use Prim.Native.Char.{code}
use Prim.Native.String.{slice}
use infix_lib.Prelude.{
  ℕ, zero, suc, ◌+◌, ◌-◌, ◌/◌, ℤ, pos, negsuc, ◌+ℤ◌, ◌-ℤ◌, String, ◌<>◌, Bool, true, false, ◌||◌,
  ◌&&◌, ◌=ℕ◌, leb, Option, none, some, List, [], ◌∷◌, is_zero, length, if◌then◌else◌, get_or,
}
use infix_lib.Text.{codes, concat, show_int}
use infix_lib.Lyx.Build.{lydx_new_path}
use infix_lib.Machine.Values.{settimeofday, setenv, unsetenv}
use infix_lib.Machine.{
  M, ◌>>=◌, ◌>>◌, pure, system, get_time, get_uptime, iso_time, strptime, mktime, request,
}
use infix_lib.Srx.{sr_err_ok, sr_err_sys, sr_err_internal}

abbrev pub is_sign : ℕ → Bool
is_sign c = c =ℕ b'+' || c =ℕ b'-'

-- A colon between the hours and the minutes of a time zone that starts at index `i`.
unfoldable pub insert_colon : ℕ → String → String
insert_colon (suc i) (String.◌∷◌ c s) = String.◌∷◌ c (insert_colon i s)
insert_colon zero (String.◌∷◌ s (String.◌∷◌ a (String.◌∷◌ b rest))) =
    if is_sign (code s)
    then String.◌∷◌ s (String.◌∷◌ a (String.◌∷◌ b (String.◌∷◌ ":" rest)))
    else String.◌∷◌ s (String.◌∷◌ a (String.◌∷◌ b rest))
insert_colon i s = s

-- strftime gives five characters at least; for less, C would write out of bounds.
unfoldable pub format_zone : String → String
unfolding insert_colon
format_zone buf = insert_colon (length (codes buf) - 5) buf

unfoldable pub fmtime : ℤ → M String
unfolding format_zone
fmtime t = do buf ← iso_time t; pure (format_zone buf)

abbrev pub clock_path : String
clock_path = "/ietf-system:system-state/clock"

abbrev pub or_internal : ℤ → ℤ
or_internal rc = if is_zero rc then sr_err_ok else sr_err_internal

-- The boot time is computed once, and kept in a static variable.
unfoldable pub boot_time : Option String → ℤ → M String
unfolding fmtime
boot_time (some boottime) now = pure boottime
boot_time none now = do uptime ← get_uptime; fmtime (now -ℤ uptime)

unfoldable pub clock_cb : Option String → M (ℤ × Option String)
unfolding boot_time fmtime lydx_new_path
clock_cb static_boottime = do
  now ← get_time
  boottime ← boot_time static_boottime now
  curtime ← fmtime now
  rc ← lydx_new_path true clock_path "boot-datetime" boottime
  if is_zero rc
      then (do
        rc' ← lydx_new_path false clock_path "current-datetime" curtime
        pure (or_internal rc', some boottime))
      else pure (sr_err_internal, some boottime)

unfoldable pub rpc_exec : String → M ℤ
rpc_exec cmd = do err ← system cmd; pure (or_internal err)

-- The colon of a time zone that starts at index `i`, taken out; NULL where there is none.
unfoldable pub remove_colon : ℕ → String → Option String
remove_colon (suc i) (String.◌∷◌ c s) = elim (remove_colon i s) [
  | none ↦ none
  | some t ↦ some (String.◌∷◌ c t)
]
remove_colon zero (String.◌∷◌ s (String.◌∷◌ a (String.◌∷◌ b (String.◌∷◌ c rest)))) =
    if code c =ℕ b':' && is_sign (code s)
    then some (String.◌∷◌ s (String.◌∷◌ a (String.◌∷◌ b rest)))
    else none
remove_colon i s = none

-- The text without its colon and the format to read it by. For less than six characters, C would
-- read out of bounds.
unfoldable pub read_format : String → String × String
unfolding remove_colon
read_format buf = elim (remove_colon (length (codes buf) - 6) buf) [
  | some text ↦ (text, "%FT%T%z")
  | none ↦ (buf, "%FT%TZ")
]

-- `tm_gmtoff / 3600`, which C rounds towards zero, with a sign in front of a positive offset
abbrev pub hours : ℤ → ℤ
hours (pos n) = pos (n / 3600)
hours (negsuc n) = if is_zero (pos ((n + 1) / 3600)) then pos 0 else negsuc ((n + 1) / 3600 - 1)

-- snprintf into 24 bytes, which "UTC" and the hours fit into
abbrev pub zone_name : ℤ → String
zone_name (pos (suc n)) = concat ("UTC+" ∷ show_int (hours (pos (suc n))) ∷ [])
zone_name gmtoff = concat ("UTC" ∷ show_int (hours gmtoff) ∷ [])

-- The results are the values of the static variable `rc`, which is set to SR_ERR_OK, and never
-- back to its first value SR_ERR_SYS.
unfoldable pub set_time : ℤ → String → String → Option ℤ → M ℤ
set_time rc text format none = pure rc
set_time rc text format (some gmtoff) = do
  request (setenv "TZ" (zone_name gmtoff))
  sec ← mktime text format
  err ← request (settimeofday sec)
  pure (if is_zero err then sr_err_ok else rc)

unfoldable pub rpc_set_datetime : ℤ → String → M ℤ
unfolding set_time read_format
rpc_set_datetime static_rc input =
    let (text, format) = read_format input in
    do
      tm ← strptime text format
      rc ← set_time static_rc text format tm
      request (unsetenv "TZ")
      pure rc
