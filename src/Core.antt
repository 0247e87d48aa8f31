-- ===== src/Core.antt =====
-- The hooks around a transaction (src/confd/src/confd/core.c), and the priorities of core.h.
pub mod Laws
pub mod Start
use infix_lib.Prelude.{
  ℕ, ◌+◌, ◌-◌, ◌%◌, ◌^◌, ℤ, pos, negsuc, ◌+ℤ◌, List, [], ◌∷◌, is_zero, if◌then◌else◌,
}
use infix_lib.Machine.Values.{Event, change, done, abort}
use infix_lib.Machine.{M, ◌>>=◌, pure, system}
use infix_lib.Srx.{sr_err_ok, sr_err_sys}

abbrev pub cb_prio_primary : ℕ
cb_prio_primary = 65535

abbrev pub cb_prio_passive : ℕ
cb_prio_passive = 65000

-- The priority, and the next value of the static variable, a uint32_t.
unfoldable pub core_hook_prio : ℕ → ℕ × ℕ
core_hook_prio hook_prio = (hook_prio, (hook_prio + (2 ^ 32 - 1)) % 2 ^ 32)

unfoldable pub core_startup_save : M ℤ
core_startup_save = do
  err ← system "sysrepocfg -X/cfg/startup-config.cfg -d startup -f json"
  pure (if is_zero err then sr_err_ok else sr_err_sys)

unfoldable pub core_pre_hook : Event → M ℤ
core_pre_hook event = pure (pos 0)

-- In bootstrap there is no runlevel, and nothing is reloaded.
unfoldable pub reload : M ℤ
reload = do
  bootstrap ← system "runlevel >/dev/null 2>&1"
  if is_zero bootstrap
      then (do
        err ← system "initctl -nbq reload"
        pure (if is_zero err then sr_err_ok else sr_err_sys))
      else pure sr_err_ok

-- The result, and the static variable `num_changes` after it.
unfoldable pub hook_done : ℤ → M (ℤ × ℤ)
unfolding reload
hook_done num_changes =
    if is_zero num_changes
    then (do err ← reload; pure (err, num_changes))
    else pure (sr_err_ok, num_changes)

unfoldable pub core_post_hook : Event → ℤ → M (ℤ × ℤ)
core_post_hook change num_changes = pure (sr_err_ok, num_changes +ℤ pos 1)
core_post_hook abort num_changes = pure (sr_err_ok, pos 0)
core_post_hook done num_changes = hook_done (num_changes +ℤ negsuc 0)
core_post_hook event num_changes = pure (sr_err_sys, num_changes)
