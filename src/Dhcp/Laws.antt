-- ===== src/Dhcp/Laws.antt =====
-- What a change does to the DHCP clients (src/confd/src/confd/infix-dhcp.c, client_change).
use infix_lib.Prelude.{
  ◌≡◌, refl, String, Bool, false, Option, none, some, List, [], ◌∷◌, arith, is_some, ◌||◌,
  if◌then◌else◌,
}
use infix_lib.Lyx.Tree.{Forest, Node}
use infix_lib.Lyx.{lydx_get_op}
use infix_lib.Machine.Values.{Event, done}
use infix_lib.Machine.{Env, World, History, ran, sr_get_data, ◌>>=◌}
use infix_lib.Machine.Streams.{Balanced, Balanced-bind, stream_rules}
use infix_lib.Machine.Commands.{commands}
use infix_lib.Srx.{srx_get_diff}
use infix_lib.Interfaces.Addresses.{is_delete}
use infix_lib.Dhcp.{
  put_client, add, del, find_client, set_client, change_client, change_clients, change_from,
  change_all, client_change, if_name, delete_command, clients_in,
}

module _ (p : String) where
  Balanced-add : (ifname : String) (client_id : Option String) → Balanced p (add ifname client_id)
  unfolding add put_client
  Balanced-add ifname client_id = search stream_rules

  Balanced-del : (ifname : String) → Balanced p (del ifname)
  unfolding del
  Balanced-del ifname = search stream_rules

  Balanced-set_client :
      (ena : Bool) (ifname : String) (cif : Option Node) → Balanced p (set_client ena ifname cif)
  unfolding set_client
  Balanced-set_client ena ifname none = search stream_rules
  Balanced-set_client ena ifname (some cif) = search (stream_rules, Balanced-add, Balanced-del)

  Balanced-change_client :
      (ena : Bool) (cifs : List Node) (dif : Node) → Balanced p (change_client ena cifs dif)
  unfolding change_client
  Balanced-change_client ena cifs dif = search (stream_rules, Balanced-set_client, Balanced-del)

  Balanced-change_clients :
      (ena : Bool) (cifs difs : List Node) → Balanced p (change_clients ena cifs difs)
  unfolding change_clients
  Balanced-change_clients ena cifs [] = search stream_rules
  Balanced-change_clients ena cifs (dif ∷ difs) =
      Balanced-bind p _ _ (Balanced-change_client ena cifs dif)
        λ finished. Balanced-change_clients ena cifs difs

  Balanced-srx_get_diff : Balanced p srx_get_diff
  unfolding srx_get_diff
  Balanced-srx_get_diff = search stream_rules

  Balanced-change_from : (cfg : Forest) → Balanced p (change_from cfg)
  unfolding change_from
  Balanced-change_from cfg = search (stream_rules, Balanced-srx_get_diff, Balanced-change_clients)

  -- Each event closes every stream on `p` as often as it opens one.
  client_change-Balanced : (event : Event) → Balanced p (client_change event)
  unfolding client_change change_all
  client_change-Balanced done = search (stream_rules, Balanced-change_from)
  client_change-Balanced _ = search stream_rules

-- The deletions of a change while the client function is off, the latest first.
unfoldable pub deletions : List Node → List Node → History → History
deletions cifs [] h = h
deletions cifs (dif ∷ difs) h = deletions cifs difs (
    if is_delete (lydx_get_op (some dif)) || is_some (find_client (if_name dif) cifs)
    then ran (delete_command (if_name dif)) ∷ h
    else h)

off_lem :
    (cifs : List Node) (dif : Node) (e : Env) (w : World)
    → (change_client false cifs dif e w).1.calls ≡ (
        if is_delete (lydx_get_op (some dif)) || is_some (find_client (if_name dif) cifs)
        then ran (delete_command (if_name dif)) ∷ w.calls
        else w.calls)
unfolding change_client set_client del ◌>>=◌
off_lem cifs dif e w = ground arith

-- While the client function is off, a change deletes the client of each interface of the difference
-- that is removed from the configuration or stands in it, in order, and makes no other call.
change_clients-off :
    (cifs difs : List Node) (e : Env) (w : World)
    → (change_clients false cifs difs e w).1.calls ≡ deletions cifs difs w.calls
unfolding change_clients deletions ◌>>=◌
change_clients-off cifs [] e w = refl
change_clients-off cifs (dif ∷ difs) e w = grind (
  arith,
  off_lem cifs dif e w,
  change_clients-off cifs difs e (change_client false cifs dif e w).1,
)

idle_from :
    (cfg : Forest) (e : Env) (w : World)
    → ((h : History) → clients_in (e.diff_tree h) ≡ none)
    → commands (change_from cfg e w).1.calls ≡ commands w.calls
unfolding change_from change_clients srx_get_diff ◌>>=◌
idle_from cfg e w h = ground (arith, h (srx_get_diff e w).1.calls)

-- A change whose difference holds no client interface runs no command, whatever it changes besides:
-- not even when it turns the client function off as a whole.
pub client_change-idle :
    (e : Env) (w : World)
    → ((h : History) → clients_in (e.diff_tree h) ≡ none)
    → commands (client_change done e w).1.calls ≡ commands w.calls
unfolding client_change change_all ◌>>=◌
client_change-idle e w h =
    let got = sr_get_data "/infix-dhcp-client:dhcp-client//." e w in
    ground (arith, idle_from got.0.1 e got.1 h)
