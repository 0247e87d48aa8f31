-- ===== src/Dhcp.antt =====
-- The DHCP clients (src/confd/src/confd/infix-dhcp.c).
pub mod Laws
pub mod Services
use infix_lib.Prelude.{
  ℤ, pos, String, ◌<>◌, ◌==◌, Bool, true, false, not, ◌||◌, Option, none, some, List, [], ◌∷◌,
  is_zero, if◌then◌else◌,
}
use infix_lib.Text.{concat}
use infix_lib.Lyx.Tree.{Forest, Node, first, siblings, named}
use infix_lib.Lyx.{lydx_get_op, lydx_get_cattr, lydx_get_descendant, lydx_is_enabled}
use infix_lib.Machine.Values.{Event, done}
use infix_lib.Machine.{M, ◌>>=◌, ◌>>◌, pure, system, fopen, fputs, fclose, sr_get_data}
use infix_lib.Srx.{srx_get_diff, sr_err_ok}
use infix_lib.Interfaces.Addresses.{str, is_delete}

abbrev pub conf_file : String → String
conf_file ifname = concat ("/etc/finit.d/available/dhcp-" ∷ ifname ∷ ".conf" ∷ [])

abbrev pub client_args : Option String → String
client_args none = ""
client_args (some id) = if id == "" then "" else concat ("-C -x 61:'\"" ∷ id ∷ "\"'" ∷ [])

abbrev pub service_line : String → Option String → String
service_line ifname client_id = concat (
    "service name:dhcp :"
    ∷ ifname
    ∷ " udhcpc -f -S -R -i "
    ∷ ifname
    ∷ " "
    ∷ client_args client_id
    ∷ " -- DHCP client @"
    ∷ ifname
    ∷ "\n"
    ∷ [])

abbrev pub enable_command : String → String
enable_command ifname = "initctl -bfq enable dhcp-" <> ifname

abbrev pub delete_command : String → String
delete_command ifname = "initctl -bfq delete dhcp-" <> ifname

unfoldable pub put_client : String → Option String → Option String → M Unit
put_client ifname client_id none = pure tt
put_client ifname client_id (some fp) = do
  fputs (service_line ifname client_id) fp
  fclose fp
  system (enable_command ifname)
  pure tt

unfoldable pub add : String → Option String → M Unit
add ifname client_id = do fp ← fopen (conf_file ifname) "w"; put_client ifname client_id fp

unfoldable pub del : String → M Unit
del ifname = do system (delete_command ifname); pure tt

abbrev pub if_name : Node → String
if_name n = str (lydx_get_cattr (some n) "if-name")

-- The inner loop: the client of that name in the configuration.
unfoldable pub find_client : String → List Node → Option Node
find_client name [] = none
find_client name (cif ∷ cifs) = if name == if_name cif then some cif else find_client name cifs

unfoldable pub set_client : Bool → String → Option Node → M Unit
unfolding add del
set_client ena ifname none = pure tt
set_client ena ifname (some cif) =
    if not ena || not (lydx_is_enabled (some cif) "enabled")
    then del ifname
    else add ifname (lydx_get_cattr (some cif) "client-id")

unfoldable pub change_client : Bool → List Node → Node → M Unit
unfolding del set_client find_client
change_client ena cifs dif =
    if is_delete (lydx_get_op (some dif))
    then del (if_name dif)
    else set_client ena (if_name dif) (find_client (if_name dif) cifs)

unfoldable pub change_clients : Bool → List Node → List Node → M Unit
unfolding change_client
change_clients ena cifs [] = pure tt
change_clients ena cifs (dif ∷ difs) = do change_client ena cifs dif; change_clients ena cifs difs

abbrev pub clients_in : Forest → Option Node
clients_in f = lydx_get_descendant (first f []) ("dhcp-client" ∷ "client-if" ∷ [])

abbrev pub is_on : Forest → Bool
is_on f = lydx_is_enabled (lydx_get_descendant (first f []) ("dhcp-client" ∷ [])) "enabled"

unfoldable pub change_from : Forest → M ℤ
change_from cfg = do
  (err, diff) ← srx_get_diff
  if is_zero err
      then (do
        change_clients (is_on cfg) (named "client-if" (siblings (clients_in cfg)))
            (named "client-if" (siblings (clients_in diff)))
        pure err)
      else pure err

unfoldable pub change_all : M ℤ
change_all = do
  (err, cfg) ← sr_get_data "/infix-dhcp-client:dhcp-client//."
  if is_zero err then change_from cfg else pure err

unfoldable pub client_change : Event → M ℤ
client_change done = change_all
client_change event = pure sr_err_ok
