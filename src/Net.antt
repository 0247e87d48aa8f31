-- ===== src/Net.antt =====
-- The program net, which activates a generation of the network (src/net/src/main.c): its global
-- variables and the actions of an interface.
pub mod Handover
pub mod Deps
pub mod Generation
pub mod Command
use infix_lib.Prelude.{
  ℕ, ◌+◌, ℤ, pos, String, ◌<>◌, ◌==◌, Bool, true, false, not, Option, none, some, List, [], ◌∷◌,
  ◌++◌, contains, or_else, get_or, if◌then◌else◌,
}
use infix_lib.Text.{concat, rindex, strlcpy, split_last}
use infix_lib.Machine.{M, ◌>>=◌, ◌>>◌, pure, system, fopen, fputs, fclose, fgets_all, chomp}

-- The list of interfaces, the number of dependencies saved, and the two pipes.
pub record Net : Type 0 where
  pub iface_list : List String
  pub dep : ℕ
  pub ip : Option String
  pub bridge : Option String

abbrev pub ifnamsiz : ℕ
ifnamsiz = 16

unfoldable pub addif : String → Net → Net
unfolding strlcpy
addif ifname net = record net { iface_list = net.iface_list ++ strlcpy ifnamsiz ifname ∷ [] }

unfoldable pub findif : String → Net → Bool
findif ifname net = contains ifname net.iface_list

unfoldable pub freeifs : Net → Net
freeifs net = record net { iface_list = [] }

-- basename(3) and dirname(3) of a path without a trailing slash
abbrev pub basename : String → String
basename path = elim (split_last path 47) [ some (before, after) ↦ after | none ↦ path ]

abbrev pub dirname : String → String
dirname path = elim (split_last path 47) [ some (before, after) ↦ before | none ↦ "." ]

-- One of the lines is the name: the loop ends there. The lines are read as a whole before it, and
-- what stands after a match is not used.
unfoldable pub has_line : String → List String → M Bool
has_line ifname [] = pure false
has_line ifname (line ∷ lines) = do
  text ← chomp line
  if text == ifname then pure true else has_line ifname lines

unfoldable pub save_line : String → String → Bool → Net → M Net
save_line fp ifname true net = pure net
save_line fp ifname false net = do
  fputs (ifname <> "\n") fp
  pure (record net { dep = net.dep + 1 })

unfoldable pub save_in : String → Option String → Net → M Net
unfolding has_line save_line
save_in ifname none net = pure net
save_in ifname (some fp) net = do
  lines ← fgets_all fp 20
  found ← has_line ifname lines
  net' ← save_line fp ifname found net
  fclose fp
  pure net'

unfoldable pub savedep : String → Net → M Net
savedep ipath net = do fp ← fopen (dirname ipath <> "/deps") "a+"; save_in (basename ipath) fp net

unfoldable pub pipe_of : Option String → Net → Option String
pipe_of none net = none
pipe_of (some ext) net =
    if ext == ".ip" then net.ip else if ext == ".bridge" then net.bridge else none

unfoldable pub pipep : String → Net → Option String
unfolding rindex pipe_of
pipep action net = pipe_of (rindex action 46) net

unfoldable pub copy_lines : String → List String → M Unit
copy_lines pp [] = pure tt
copy_lines pp (line ∷ lines) = do text ← chomp line; fputs (text <> "\n") pp; copy_lines pp lines

unfoldable pub copy_from : String → Option String → M ℤ
unfolding copy_lines
copy_from pp none = pure (pos 0)
copy_from pp (some fp) = do lines ← fgets_all fp 256; copy_lines pp lines; fclose fp

unfoldable pub pipeit : String → String → M ℤ
pipeit pp action = do fp ← fopen action "r"; copy_from pp fp

unfoldable pub run_with : Option String → String → M ℤ
run_with (some pp) action = pipeit pp action
run_with none action = do system action; pure (pos 0)

-- A script that fails is reported, and counts as success.
unfoldable pub run : String → Net → M ℤ
unfolding run_with pipep
run action net = run_with (pipep action net) action

unfoldable pub dir_filter : String → Bool
dir_filter file = not (contains file ("deps" ∷ "rdeps" ∷ "admin-state" ∷ []))
