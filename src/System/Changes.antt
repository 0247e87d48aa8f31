-- ===== src/System/Changes.antt =====
-- The loop over the changes below a path (src/confd/src/confd/ietf-system.c, _sr_change_iter).
use infix_lib.Prelude.{ℤ, String, Option, is_zero, or_else, if◌then◌else◌}
use infix_lib.Machine.Values.{Change, SrVal}
use infix_lib.Machine.{M, ◌>>=◌, pure, sr_changes}
use infix_lib.Interfaces.Addresses.{each}

-- The first error ends the loop, and is the result.
unfoldable pub sr_change_iter : String → (Change → M ℤ) → M ℤ
unfolding each
sr_change_iter xpath cb = do
  (err, changes) ← sr_changes xpath
  if is_zero err then each cb changes else pure err

-- `change->old ? : change->new`
abbrev pub value_of : Change → Option SrVal
value_of c = or_else c.old c.new
