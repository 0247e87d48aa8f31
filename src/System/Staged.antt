-- ===== src/System/Staged.antt =====
-- Files that a transaction prepares and then puts in place (src/confd/src/confd/ietf-system.c, the
-- event DONE of change_clock, change_ntp and change_dns). Next to a file `conf` stand the one that
-- it replaced, `conf-`, and the one that is to replace it, `conf+`.
pub mod Reads
pub mod Laws
pub mod Writes
pub mod Handlers
pub mod Failures
pub mod Installs
pub mod Refused
pub mod Runs
use infix_lib.Prelude.{ℤ, pos, String, ◌<>◌, ◌==◌}
use infix_lib.Machine.{M, ◌>>=◌, ◌>>◌, pure, remove, rename}

abbrev pub prev_of : String → String
prev_of conf = conf <> "-"

abbrev pub next_of : String → String
next_of conf = conf <> "+"

unfoldable pub install : String → M Unit
install conf = do remove (prev_of conf); rename conf (prev_of conf); rename (next_of conf) conf

abbrev pub sr_err_validation_failed : ℤ
sr_err_validation_failed = pos 9
