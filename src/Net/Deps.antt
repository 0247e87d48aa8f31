-- ===== src/Net/Deps.antt =====
-- The interfaces of a generation in the order of their dependencies (src/net/src/main.c, deps and
-- iter). A call of deps costs one unit of fuel; without fuel the result is `none`.
pub mod Keeps
pub mod Once
pub mod Ends
pub mod Order
use infix_lib.Prelude.{
  ℕ, zero, suc, ℤ, pos, negsuc, ◌+ℤ◌, String, ◌<>◌, Bool, true, false, ◌||◌, Option, none, some,
  List, [], ◌∷◌, ◌=ℕ◌, if◌then◌else◌,
}
use infix_lib.Text.{concat}
use infix_lib.Machine.{M, ◌>>=◌, ◌>>◌, pure, get_errno, access, dir, realpath, fclose}
use infix_lib.Net.{Net, addif, findif, freeifs, savedep, pipep, run, dir_filter}

abbrev pub enoent : ℕ
enoent = 2

abbrev pub enotdir : ℕ
enotdir = 20

-- The rest of a run that had enough fuel.
unfoldable pub go_on : {A B : Type 0} → Option A → (A → M (Option B)) → M (Option B)
go_on none k = pure none
go_on (some a) k = k a

-- The loop over the dependencies; one that does not resolve is left out.
unfoldable pub visit_at :
    (String → Net → M (Option (ℤ × Net))) → Option String → Net → M (Option Net)
unfolding go_on
visit_at visit none net = pure (some net)
visit_at visit (some rp) net = do r ← visit rp net; go_on r λ (rc, net'). pure (some net')

unfoldable pub visit_all :
    (String → String → Net → M (Option (ℤ × Net))) → String → List String → Net → M (Option Net)
unfolding visit_at go_on
visit_all visit path [] net = pure (some net)
visit_all visit path (ifnm ∷ files) net = do
  rp ← realpath (concat (path ∷ "/" ∷ ifnm ∷ []))
  r ← visit_at (visit ifnm) rp net
  go_on r (visit_all visit path files)

-- No action for this interface is a success, any other error a failure.
unfoldable pub no_action : M ℤ
no_action = do
  errno ← get_errno
  pure (if errno =ℕ enoent || errno =ℕ enotdir then pos 0 else negsuc 0)

unfoldable pub run_action : Option String → Net → M ℤ
unfolding no_action
run_action none net = no_action
run_action (some cmd) net = do there ← access cmd; if there then run cmd net else no_action

unfoldable pub act_on : String → String → String → Net → M (ℤ × Net)
unfolding run_action
act_on ipath ifname action net = if findif ifname net then pure (pos 0, net) else do
  cmd ← realpath (concat (ipath ∷ "/" ∷ action ∷ []))
  rc ← run_action cmd net
  pure (rc, addif ifname net)

unfoldable pub finish : String → String → String → Net → M (Option (ℤ × Net))
unfolding act_on
finish ipath ifname action net = do
  saved ← savedep ipath net
  r ← act_on ipath ifname action saved
  pure (some r)

unfoldable pub deps : ℕ → String → String → String → Net → M (Option (ℤ × Net))
unfolding visit_all finish go_on
deps zero action ifname ipath net = pure none
deps (suc fuel) action ifname ipath net = do
  files ← dir (ipath <> "/deps") dir_filter
  r ← visit_all (deps fuel action) (ipath <> "/deps") files net
  go_on r (finish ipath ifname action)

-- The loop of iter, which adds the results up.
unfoldable pub iter_all : ℕ → String → String → List String → ℤ → Net → M (Option (ℤ × Net))
unfolding deps go_on
iter_all fuel action path [] rc net = pure (some (rc, net))
iter_all fuel action path (ifname ∷ files) rc net = do
  r ← deps fuel action ifname (concat (path ∷ "/" ∷ ifname ∷ [])) net
  go_on r λ (one, net'). iter_all fuel action path files (rc +ℤ one) net'

unfoldable pub close_pipe : Option String → M Unit
close_pipe none = pure tt
close_pipe (some pp) = do fclose pp; pure tt

unfoldable pub iter : ℕ → String → String → Net → M (Option (ℤ × Net))
unfolding iter_all go_on close_pipe
iter fuel action path net = do
  files ← dir path dir_filter
  r ← iter_all fuel action path files (pos 0) net
  go_on r λ (rc, net'). do close_pipe (pipep action net'); pure (some (rc, freeifs net'))
