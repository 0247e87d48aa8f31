-- ===== src/Dhcp/Services/Changed.antt =====
-- Which DHCP clients are enabled after a change (src/confd/src/confd/infix-dhcp.c, client_change).
use mathlib.Core.Path.{subst}
use infix_lib.Prelude.{
  ◌≡◌, refl, ap, sym, ◌∙◌, String, ◌==◌, Bool, true, false, not, ◌&&◌, ◌||◌, Option, none, some,
  List, [], ◌∷◌, arith, is_some, is_zero, if◌then◌else◌, eq_iff,
}
use infix_lib.Text.Equal.{eq_swap}
use infix_lib.Lyx.Tree.{Forest, Node, named, siblings}
use infix_lib.Lyx.{lydx_get_cattr, lydx_get_op, lydx_is_enabled}
use infix_lib.Machine.{Env, World, History, opening, opened, wrote, closed, sr_get_data, ◌>>=◌}
use infix_lib.Machine.Values.{done}
use infix_lib.Srx.{srx_get_diff}
use infix_lib.Interfaces.Addresses.{is_delete}
use infix_lib.Dhcp.{
  service_line, conf_file, put_client, add, del, find_client, set_client, change_client,
  change_clients, if_name, clients_in, is_on, change_from, change_all, client_change,
}
use infix_lib.Dhcp.Services.{Services, services, enabled_lem, deleted_lem}

-- The clients of a name in the configuration, where `if-name` is the key, and the first of them.
abbrev pub clients_of : String → List Node → List Node
clients_of name [] = []
clients_of name (cif ∷ cifs) =
    let rest = clients_of name cifs in if if_name cif == name then cif ∷ rest else rest

abbrev pub first_of : List Node → Option Node
first_of [] = none
first_of (cif ∷ cifs) = some cif

find_client_lem :
    (name : String) (cifs : List Node) → find_client name cifs ≡ first_of (clients_of name cifs)
unfolding find_client
find_client_lem name [] = refl
find_client_lem name (cif ∷ cifs) =
    rw (eq_swap name (if_name cif)) (ground (arith, find_client_lem name cifs))

abbrev pub wanted : Bool → Option Node → Bool
wanted ena none = false
wanted ena (some cif) = ena && lydx_is_enabled (some cif) "enabled"

abbrev pub configured : Bool → List Node → String → Bool
configured ena cifs name = wanted ena (first_of (clients_of name cifs))

abbrev pub is_named : String → List Node → Bool
is_named name [] = false
is_named name (dif ∷ difs) = if_name dif == name || is_named name difs

-- What the difference removes is no longer in the configuration, and all else in it is.
abbrev pub Agree : List Node → List Node → Type 0
Agree cifs [] = Unit
Agree cifs (dif ∷ difs) =
    (is_delete (lydx_get_op (some dif)) ≡ not (is_some (first_of (clients_of (if_name dif) cifs))))
    × Agree cifs difs

-- What is left of the clients where one is set, and the others stay.
abbrev set_service : Bool → String → Services → Services
set_service value ifname s name = if ifname == name then value else s name

later_lem :
    (first later decided here before : Bool)
    → (first ≡ true → here ≡ decided)
    → (if later then decided else if first then here else before)
      ≡ (if first || later then decided else before)
later_lem true true decided here before h = refl
later_lem true false decided here before h = h refl
later_lem false later decided here before h = refl

module _ (e : Env) (s : Services)
    (opens : (h : History) (path mode : String) → e.open_errno h path mode ≡ none) where
  add_lem :
      (ifname : String) (client_id : Option String) (w : World) (name : String)
      → services s (add ifname client_id e w).1.calls name
        ≡ set_service true ifname (services s w.calls) name
  unfolding add put_client ◌>>=◌
  add_lem ifname client_id w name =
      subst
        (λ o.
          let p = opening (conf_file ifname) "w" o w in
          services s (put_client ifname client_id p.0 e p.1).1.calls name
          ≡ set_service true ifname (services s w.calls) name)
        (sym (opens w.calls (conf_file ifname) "w"))
        (enabled_lem s
          (closed (conf_file ifname)
            ∷ wrote (conf_file ifname) (service_line ifname client_id)
            ∷ opened (conf_file ifname) "w"
            ∷ w.calls)
          ifname name)

  del_lem :
      (ifname : String) (w : World) (name : String)
      → services s (del ifname e w).1.calls name
        ≡ set_service false ifname (services s w.calls) name
  unfolding del ◌>>=◌
  del_lem ifname w name = deleted_lem s w.calls ifname name

  set_lem :
      (ena : Bool) (ifname : String) (cif : Node) (w : World) (name : String)
      → services s (set_client ena ifname (some cif) e w).1.calls name
        ≡ set_service (ena && lydx_is_enabled (some cif) "enabled") ifname (services s w.calls) name
  unfolding set_client
  set_lem ena ifname cif w name =
      ground (
        arith,
        del_lem ifname w name,
        add_lem ifname (lydx_get_cattr (some cif) "client-id") w name,
      )

  -- The branches of change_client, by what it finds.
  found_lem :
      (ena removed : Bool) (ifname : String) (found : Option Node) (w : World) (name : String)
      → removed ≡ not (is_some found)
      → services s ((if removed then del ifname else set_client ena ifname found) e w).1.calls name
        ≡ set_service (wanted ena found) ifname (services s w.calls) name
  found_lem ena true ifname none w name h = del_lem ifname w name
  found_lem ena false ifname none w name h = absurd (ground (arith, h))
  found_lem ena true ifname (some cif) w name h = absurd (ground (arith, h))
  found_lem ena false ifname (some cif) w name h = set_lem ena ifname cif w name

  client_lem :
      (ena : Bool) (cifs : List Node) (dif : Node) (w : World) (name : String)
      → is_delete (lydx_get_op (some dif))
        ≡ not (is_some (first_of (clients_of (if_name dif) cifs)))
      → services s (change_client ena cifs dif e w).1.calls name
        ≡ set_service (configured ena cifs (if_name dif)) (if_name dif) (services s w.calls) name
  unfolding change_client
  client_lem ena cifs dif w name h =
      rw (find_client_lem (if_name dif) cifs) (found_lem ena _ (if_name dif) _ w name h)

  -- Once the differences were gone through, the clients in them are as configured.
  change_clients-configured :
      (ena : Bool) (cifs difs : List Node) (w : World) (name : String)
      → Agree cifs difs
      → services s (change_clients ena cifs difs e w).1.calls name
        ≡ (if is_named name difs then configured ena cifs name else services s w.calls name)
  unfolding change_clients ◌>>=◌
  change_clients-configured ena cifs [] w name agree = refl
  change_clients-configured ena cifs (dif ∷ difs) w name agree =
      let v = (change_client ena cifs dif e w).1 in
      change_clients-configured ena cifs difs v name agree.1
      ∙ ap (λ b. if is_named name difs then configured ena cifs name else b)
          (client_lem ena cifs dif w name agree.0)
      ∙ later_lem (if_name dif == name) (is_named name difs) _ _ _
          (λ y. ap (configured ena cifs) ((eq_iff (if_name dif) name).0 y))

  from_lem :
      (cfg : Forest) (w : World) (name : String)
      → let r = srx_get_diff e w in
        let cifs = named "client-if" (siblings (clients_in cfg)) in
        let difs = named "client-if" (siblings (clients_in r.0.1)) in
        is_zero r.0.0 ≡ true
        → Agree cifs difs
        → services s (change_from cfg e w).1.calls name ≡ (
            if is_named name difs
            then configured (is_on cfg) cifs name
            else services s w.calls name)
  unfolding change_from srx_get_diff ◌>>=◌
  from_lem cfg w name ok agree = rw ok (
      change_clients-configured (is_on cfg) (named "client-if" (siblings (clients_in cfg)))
        (named "client-if" (siblings (clients_in (srx_get_diff e w).0.1))) (srx_get_diff e w).1 name
        agree)

  -- Where files can be opened, the configuration and the difference can be read, and they agree on
  -- the interfaces that are removed: after a change, the client of each interface in the difference
  -- is enabled exactly if the client function is on and the interface is in the configuration with
  -- `enabled` set; every other client stays as it was.
  pub client_change-configured :
      (w : World) (name : String)
      → let got = sr_get_data "/infix-dhcp-client:dhcp-client//." e w in
        let made = srx_get_diff e got.1 in
        let cifs = named "client-if" (siblings (clients_in got.0.1)) in
        let difs = named "client-if" (siblings (clients_in made.0.1)) in
        is_zero got.0.0 ≡ true
        → is_zero made.0.0 ≡ true
        → Agree cifs difs
        → services s (client_change done e w).1.calls name ≡ (
            if is_named name difs
            then configured (is_on got.0.1) cifs name
            else services s w.calls name)
  unfolding client_change change_all ◌>>=◌
  client_change-configured w name read differs_read agree =
      let got = sr_get_data "/infix-dhcp-client:dhcp-client//." e w in
      rw read (from_lem got.0.1 got.1 name differs_read agree)
