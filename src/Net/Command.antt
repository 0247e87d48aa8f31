-- ===== src/Net/Command.antt =====
-- The command line of net, and the commands up and down (src/net/src/main.c, getnet to ifupdown, and
-- act to main). `none` as a result is the exit status 1 of err(3) before there is a result, or
-- fuel that ran out.
pub mod Laws
pub mod Asks
pub mod Links
use infix_lib.Prelude.{
  ℕ, ℤ, pos, negsuc, ◌+ℤ◌, String, ◌<>◌, ◌==◌, ◌=ℕ◌, Bool, true, false, ◌||◌, Option, none, some,
  List, [], ◌∷◌, is_zero, get_or, if◌then◌else◌,
}
use infix_lib.Text.{concat, strtol_10, show_int, split_last}
use infix_lib.Machine.Values.{getenv, makedir, access_x}
use infix_lib.Machine.{
  M, ◌>>=◌, ◌>>◌, pure, system, fopen, fputs, fclose, fgets, chomp, dir, request, request_text,
}
use infix_lib.Srx.{to_int}
use infix_lib.Net.{Net, addif, freeifs, dir_filter}
use infix_lib.Net.Deps.{go_on}
use infix_lib.Net.Generation.{activate_next}

-- `cmd_t`
pub data Cmd : Type 0 where
  inval do_cmd up_cmd down_cmd : Cmd

unfoldable pub make_net : String → M (Option String)
make_net net = do err ← request (makedir net); pure (if is_zero err then some net else none)

unfoldable pub getnet : M (Option String)
unfolding make_net
getnet = do
  dir ← request_text (getenv "NET_DIR")
  err ← request (access_x (get_or dir "/run/net"))
  if is_zero err then pure (some (get_or dir "/run/net")) else make_net (get_or dir "/run/net")

-- The directory of the generation whose number stands in the file: `atoi` reads it.
unfoldable pub path_from : String → String → Option String → M (Option String)
unfolding strtol_10 to_int show_int
path_from net fp none = pure none
path_from net fp (some buf) = do
  fclose fp
  pure (some (concat (net ∷ "/" ∷ show_int (to_int (strtol_10 buf)) ∷ [])))

unfoldable pub path_of : String → Option String → M (Option String)
unfolding path_from
path_of net none = pure none
path_of net (some fp) = do buf ← fgets fp; path_from net fp buf

unfoldable pub getpath : M (Option String)
unfolding getnet path_of go_on
getpath = do found ← getnet; go_on found λ net. do fp ← fopen (net <> "/gen") "r"; path_of net fp

unfoldable pub add_all : List String → Net → Net
unfolding addif
add_all [] net = net
add_all (file ∷ files) net = add_all files (addif file net)

unfoldable pub getifs : Net → M (Option Net)
unfolding getpath add_all go_on
getifs net = do
  found ← getpath
  go_on found λ path. do files ← dir path dir_filter; pure (some (add_all files net))

unfoldable pub ifadmin : String → M (Option String)
unfolding getpath go_on
ifadmin ifname = do
  found ← getpath
  go_on found λ path. pure (some (concat (path ∷ "/" ∷ ifname ∷ "/admin-state" ∷ [])))

unfoldable pub is_enabled : Option String → M Bool
is_enabled none = pure true
is_enabled (some line) = do state ← chomp line; pure (if state == "disabled" then false else true)

unfoldable pub read_admin : Option String → M Bool
unfolding is_enabled
read_admin none = pure true
read_admin (some fp) = do line ← fgets fp; rc ← is_enabled line; fclose fp; pure rc

unfoldable pub allowed : String → M (Option Bool)
unfolding ifadmin read_admin go_on
allowed ifname = do
  found ← ifadmin ifname
  go_on found λ path. do fp ← fopen path "r"; rc ← read_admin fp; pure (some rc)

unfoldable pub put_admin : String → Option String → M Unit
put_admin action none = pure tt
put_admin action (some fp) = do fputs (action <> "\n") fp; fclose fp; pure tt

unfoldable pub save_admin : String → String → M (Option Unit)
unfolding ifadmin put_admin go_on
save_admin ifname action = do
  found ← ifadmin ifname
  go_on found λ path. do fp ← fopen path "w"; put_admin action fp; pure (some tt)

abbrev pub link_command : String → String → String
link_command ifname action = concat ("ip link set " ∷ ifname ∷ " " ∷ action ∷ [])

unfoldable pub set_link : String → String → M (Option ℤ)
unfolding save_admin go_on
set_link ifname action = do
  result ← system (link_command ifname action)
  if is_zero result
      then (do saved ← save_admin ifname action; go_on saved λ _. pure (some result))
      else pure (some result)

unfoldable pub set_links : String → List String → ℤ → M (Option ℤ)
unfolding allowed set_link go_on
set_links action [] rc = pure (some rc)
set_links action (ifname ∷ ifaces) rc = do
  may ← allowed ifname
  go_on may λ (yes_it_may : Bool).
      if yes_it_may
      then (do
        set ← set_link ifname action
        go_on set λ result. set_links action ifaces (rc +ℤ result))
      else set_links action ifaces rc

unfoldable pub with_ifaces : Net → M (Option Net)
unfolding getifs
with_ifaces net = elim net.iface_list [ [] ↦ getifs net | x ∷ xs ↦ pure (some net) ]

unfoldable pub ifupdown : String → Net → M (Option ℤ)
unfolding with_ifaces set_links go_on
ifupdown action net = do
  found ← with_ifaces net
  go_on found λ net'. set_links action net'.iface_list (pos 0)

abbrev pub ex_usage : ℤ
ex_usage = pos 64

unfoldable pub act : ℕ → Cmd → Net → M (Option ℤ)
unfolding getnet activate_next ifupdown go_on
act fuel do_cmd net = do found ← getnet; go_on found λ dir. activate_next fuel dir net
act fuel up_cmd net = ifupdown "up" net
act fuel down_cmd net = ifupdown "down" net
act fuel inval net = pure (some ex_usage)

abbrev pub program_name : String → String
program_name arg0 = elim (split_last arg0 b'/') [ some (before, behind) ↦ behind | none ↦ arg0 ]

unfoldable pub transform : String → Cmd
unfolding split_last
transform arg0 =
    if program_name arg0 == "ifup"
    then up_cmd
    else if program_name arg0 == "ifdown"
    then down_cmd
    else inval

unfoldable pub command_of : String → Cmd
command_of arg =
    if arg == "do" || arg == "apply"
    then do_cmd
    else if arg == "up"
    then up_cmd
    else if arg == "down"
    then down_cmd
    else inval

-- The operands: until a command is known each is taken as one, and then as an interface.
unfoldable pub read_operands : Cmd → List String → Net → Cmd × Net
unfolding command_of addif
read_operands cmd [] net = (cmd, net)
read_operands inval (arg ∷ args) net = read_operands (command_of arg) args net
read_operands cmd (arg ∷ args) net = read_operands cmd args (addif arg net)

-- The options as getopt(3) gives them in turn: the exit status of one that ends the program.
unfoldable pub read_options : List ℕ → Option ℤ
read_options [] = none
read_options (c ∷ cs) =
    let rest = read_options cs in
    if c =ℕ b'a' || c =ℕ b'd' || c =ℕ b'v'
    then rest
    else if c =ℕ b'h'
    then some (pos 0)
    else some (pos 1)

unfoldable pub run_operands : ℕ → Cmd × Net → M (Option ℤ)
unfolding act
run_operands fuel (inval, net) = pure (some ex_usage)
run_operands fuel (cmd, net) = act fuel cmd net

abbrev pub start_net : Net
start_net = record { iface_list = []; dep = 0; ip = none; bridge = none }

unfoldable pub main : ℕ → String → List ℕ → List String → M (Option ℤ)
unfolding run_operands read_options transform read_operands
main fuel arg0 options operands = elim (read_options options) [
  | some status ↦ pure (some status)
  | none ↦ run_operands fuel (read_operands (transform arg0) operands start_net)
]
