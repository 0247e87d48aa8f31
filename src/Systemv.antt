-- ===== src/Systemv.antt =====
-- system(3) without a shell (src/confd/src/confd/systemv.c). The streams that replace those of the
-- child are not seen from outside.
use infix_lib.Prelude.{ℕ, ℤ, pos, negsuc, String, Option, none, some, List}
use infix_lib.Machine.Values.{Outcome, not_run, signaled, exited}
use infix_lib.Machine.{M, ◌>>=◌, ◌>>◌, pure, fopen, fclose, set_errno, spawn}

abbrev pub einval : ℕ
einval = 22

abbrev pub eintr : ℕ
eintr = 4

unfoldable pub exit_code : Outcome → M ℤ
exit_code not_run = pure (negsuc 0)
exit_code (exited n) = do set_errno 0; pure (pos n)
exit_code signaled = do set_errno eintr; pure (negsuc 0)

unfoldable pub fsystemv : Option (List String) → M ℤ
unfolding exit_code
fsystemv none = do set_errno einval; pure (negsuc 0)
fsystemv (some args) = do outcome ← spawn args; exit_code outcome

unfoldable pub systemv : Option (List String) → M ℤ
unfolding fsystemv
systemv args = fsystemv args

unfoldable pub close_if : Option String → M Unit
close_if none = pure tt
close_if (some out) = do fclose out; pure tt

unfoldable pub systemv_silent : Option (List String) → M ℤ
unfolding fsystemv close_if
systemv_silent args = do out ← fopen "/dev/null" "w"; rc ← fsystemv args; close_if out; pure rc
