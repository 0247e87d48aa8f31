-- ===== src/Net/Generation.antt =====
-- From one generation of the network to the next (src/net/src/main.c, rdeps to save_gen and
-- activate_next). `dir` is the directory of the generations, which getnet gives.
pub mod Laws
use infix_lib.Prelude.{
  ℕ, ℤ, pos, negsuc, ◌+ℤ◌, String, ◌<>◌, Bool, true, false, Option, none, some, List, [], ◌∷◌,
  is_zero, ◌=ℕ◌, if◌then◌else◌, ◌⊎◌, inl, inr,
}
use infix_lib.Text.{concat}
use infix_lib.Machine.{
  M, ◌>>=◌, ◌>>◌, pure, system, fopen, fputs, fclose, fgets, fgets_all, chomp, access, remove,
}
use infix_lib.Net.{Net, run}
use infix_lib.Net.Deps.{iter, go_on}

abbrev pub ex_osfile : ℕ
ex_osfile = 72

abbrev pub ex_ioerr : ℕ
ex_ioerr = 74

abbrev pub in_dir : String → String → String
in_dir dir file = concat (dir ∷ "/" ∷ file ∷ [])

-- An empty file stays open.
unfoldable pub load_line : String → Option String → M (ℕ ⊎ String)
load_line fp none = pure (inl ex_ioerr)
load_line fp (some line) = do fclose fp; buf ← chomp line; pure (inr buf)

unfoldable pub load_from : Option String → M (ℕ ⊎ String)
unfolding load_line
load_from none = pure (inl ex_osfile)
load_from (some fp) = do line ← fgets fp; load_line fp line

unfoldable pub load_gen : String → String → M (ℕ ⊎ String)
load_gen dir gen = do fp ← fopen (in_dir dir gen) "r"; load_from fp

unfoldable pub save_to : Option String → String → M ℤ
save_to none buf = pure (negsuc 0)
save_to (some fp) buf = do fputs (buf <> "\n") fp; fclose fp; pure (pos 0)

unfoldable pub save_gen : String → String → String → M ℤ
unfolding save_to
save_gen dir gen buf = do fp ← fopen (in_dir dir gen) "w"; save_to fp buf

abbrev pub rdeps_command : String → String → String
rdeps_command path gen =
    concat ("sed '1!G;h;$!d' < " ∷ path ∷ "/" ∷ gen ∷ "/deps >" ∷ path ∷ "/" ∷ gen ∷ "/rdeps" ∷ [])

unfoldable pub save_rdeps : String → String → M ℤ
save_rdeps path gen = system (rdeps_command path gen)

-- The action of each interface that has one.
unfoldable pub run_all : String → String → Net → List String → ℤ → M ℤ
run_all path action net [] rc = pure rc
run_all path action net (line ∷ lines) rc = do
  ifname ← chomp line
  there ← access (concat (path ∷ "/" ∷ ifname ∷ "/" ∷ action ∷ []))
  one ← if there then run (concat (path ∷ "/" ∷ ifname ∷ "/" ∷ action ∷ [])) net else pure (pos 0)
  run_all path action net lines (rc +ℤ one)

-- The stream is never closed.
unfoldable pub rdeps_from : String → String → Net → Option String → M ℤ
unfolding run_all
rdeps_from path action net none = pure (pos 0)
rdeps_from path action net (some fp) = do
  lines ← fgets_all fp 20
  run_all path action net lines (pos 0)

unfoldable pub rdeps : String → Net → String → M ℤ
rdeps path net action = do fp ← fopen (path <> "/rdeps") "r"; rdeps_from path action net fp

unfoldable pub deactivate : String → String → Net → M ℤ
unfolding rdeps
deactivate dir gen net = do
  bridge ← rdeps (in_dir dir gen) net "exit.bridge"
  ip ← rdeps (in_dir dir gen) net "exit.ip"
  ethtool ← rdeps (in_dir dir gen) net "exit-ethtool.sh"
  pure (bridge +ℤ ip +ℤ ethtool)

unfoldable pub activate : ℕ → String → String → Net → M (Option (ℤ × Net))
unfolding iter go_on
activate fuel dir gen net = do
  r₁ ← iter fuel "init-ethtool.sh" (in_dir dir gen) net
  go_on r₁ λ (rc₁, net₁). do
    r₂ ← iter fuel "init.ip" (in_dir dir gen) net₁
    go_on r₂ λ (rc₂, net₂). do
      r₃ ← iter fuel "init.bridge" (in_dir dir gen) net₂
      go_on r₃ λ (rc₃, net₃). pure (some (rc₁ +ℤ rc₂ +ℤ rc₃, net₃))

-- The end of activate_next. The results are exit statuses; err(1, …) ends with 1.
unfoldable pub remove_next : String → M ℤ
remove_next dir = do err ← remove (in_dir dir "next"); pure (if is_zero err then pos 0 else pos 1)

unfoldable pub commit : String → String → M ℤ
unfolding save_gen remove_next
commit dir next = do
  err ← save_gen dir "gen" next
  if is_zero err then remove_next dir else pure (pos 1)

unfoldable pub finish_next : String → String → ℤ × Net → M ℤ
unfolding save_rdeps commit
finish_next dir next (rc, net) =
    if is_zero rc
    then (if net.dep =ℕ 0
        then commit dir next
        else do err ← save_rdeps dir next; if is_zero err then commit dir next else pure (pos 1))
    else pure (pos 1)

unfoldable pub activate_from : ℕ → String → String → Net → M (Option ℤ)
unfolding activate finish_next go_on
activate_from fuel dir next net = do
  r ← activate fuel dir next net
  go_on r λ done. do status ← finish_next dir next done; pure (some status)

unfoldable pub leave_current : ℕ → String → String → Net → ℕ ⊎ String → M (Option ℤ)
unfolding deactivate activate_from
leave_current fuel dir next net (inl err) =
    if err =ℕ ex_ioerr then pure (some (pos ex_ioerr)) else activate_from fuel dir next net
leave_current fuel dir next net (inr curr) = do
  rc ← deactivate dir curr net
  if is_zero rc then activate_from fuel dir next net else pure (some (pos 1))

-- Without a next generation there is nothing to do.
unfoldable pub take_next : ℕ → String → Net → ℕ ⊎ String → M (Option ℤ)
unfolding leave_current load_gen
take_next fuel dir net (inl err) = pure (some (pos 0))
take_next fuel dir net (inr next) = do
  curr ← load_gen dir "gen"
  leave_current fuel dir next net curr

unfoldable pub activate_piped : ℕ → String → Net → Option String → Option String → M (Option ℤ)
unfolding take_next load_gen
activate_piped fuel dir net (some ip) (some bridge) = do
  next ← load_gen dir "next"
  take_next fuel dir (record net { ip = some ip; bridge = some bridge }) next
activate_piped fuel dir net ip bridge = pure (some (pos 1))

unfoldable pub open_bridge : ℕ → String → Net → Option String → M (Option ℤ)
open_bridge fuel dir net none = pure (some (pos 1))
open_bridge fuel dir net (some ip) = do
  bridge ← fopen "bridge -batch -" "w"
  activate_piped fuel dir net (some ip) bridge

unfoldable pub activate_next : ℕ → String → Net → M (Option ℤ)
activate_next fuel dir net = do ip ← fopen "ip -batch -" "w"; open_bridge fuel dir net ip
