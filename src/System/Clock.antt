-- ===== src/System/Clock.antt =====
-- The time zone (src/confd/src/confd/ietf-system.c, change_clock).
use infix_lib.Prelude.{ℤ, String, ◌<>◌, Option, none, some, is_zero, if◌then◌else◌}
use infix_lib.Machine.Values.{Event, change, enabled, done, abort}
use infix_lib.Machine.{M, ◌>>=◌, ◌>>◌, pure, system, access, remove}
use infix_lib.Helpers.{writesf}
use infix_lib.Srx.{srx_get_str, sr_err_ok, sr_err_sys}
use infix_lib.System.Staged.{install, next_of, sr_err_validation_failed}

abbrev pub timezone_conf : String
timezone_conf = "/etc/timezone"

abbrev pub localtime : String
localtime = "/etc/localtime"

unfoldable pub write_timezone : String → M ℤ
unfolding writesf
write_timezone timezone = do
  err ← writesf timezone "w" (next_of timezone_conf)
  pure (if is_zero err then sr_err_ok else sr_err_sys)

unfoldable pub stage_timezone : Option String → M ℤ
unfolding write_timezone
stage_timezone none = pure sr_err_validation_failed
stage_timezone (some timezone) = do
  remove (next_of localtime)
  err ← system ("ln -s /usr/share/zoneinfo/" <> timezone <> " /etc/localtime+")
  if is_zero err then write_timezone timezone else pure sr_err_validation_failed

unfoldable pub stage_clock : M ℤ
unfolding stage_timezone
stage_clock = do
  timezone ← srx_get_str "/ietf-system:system/clock/timezone-name"
  stage_timezone timezone

unfoldable pub change_clock : Event → M ℤ
unfolding stage_clock install
change_clock enabled = stage_clock
change_clock change = stage_clock
change_clock abort = do remove (next_of timezone_conf); pure sr_err_ok
change_clock done = do
  there ← access (next_of timezone_conf)
  if there then (do install timezone_conf; install localtime; pure sr_err_ok) else pure sr_err_ok
change_clock event = pure sr_err_ok
