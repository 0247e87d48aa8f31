-- ===== src/Tests/Interfaces.antt =====
-- Interfaces: a transaction that deletes a bridge, and the theorems about its parts.
use infix_lib.Prelude.{
  ◌≡◌, ◌≢◌, ◌⊎◌, refl, ◌+◌, pos, ltb_ℤ, ◌||◌, String, ◌<>◌, true, false, none, some, [], ◌∷◌,
  get_or, if◌then◌else◌,
}
use infix_lib.Text.{strtol_10}
use infix_lib.Lyx.Tree.{Node, Forest, Tree}
use infix_lib.Lyx.{create, delete, lydx_get_op, lydx_get_diff, lydx_get_child}
use infix_lib.Machine.{Env, wrote}
use infix_lib.Machine.Values.{change, done, abort}
use infix_lib.Machine.Streams.{Balanced, opens, closes, one_open}
use infix_lib.Srx.{srx_get_str}
use infix_lib.Dagger.{Dagger, no_dagger, dagger_claim}
use infix_lib.Interfaces.Infer.{iface_xpath, ifchange_cand_infer_type, type_vlan}
use infix_lib.Interfaces.Infer.Laws.{sets, ifchange_cand_infer_type-keeps}
use infix_lib.Interfaces.Addresses.{str, address_line, is_std_lo_addr, netdag_gen_diff_addr}
use infix_lib.Interfaces.Addresses.Laws.{netdag_gen_diff_addr_lem}
use infix_lib.Interfaces.Autoconf.{netdag_gen_ipv4_autoconf}
use infix_lib.Interfaces.Links.{netdag_must_del}
use infix_lib.Interfaces.Iface.{netdag_gen_iface, as_created}
use infix_lib.Interfaces.Iface.Laws.{as_created-create}
use infix_lib.Interfaces.Iface.Streams.{netdag_gen_iface-Balanced}
use infix_lib.Interfaces.Change.{ifchange}
use infix_lib.Interfaces.Change.Laws.{ifchange-change_streams, transaction_streams}
use infix_lib.Tests.Fixtures.{start, calm, leaf, inner, forest, root}
use infix_lib.Tests.Running.{
  text_run, helpers_run, lyx_run, dagger_run, srx_run, infer_run, addresses_run, autoconf_run,
  links_run, iface_run, change_run,
}

-- The diff deletes the bridge br0, and the configuration is left with eth0.
abbrev br0 : Tree
br0 = inner "interface" (("yang:operation", "delete") ∷ []) (forest (leaf "name" "br0" ∷ []))

abbrev eth0 : Tree
eth0 = inner "interface" [] (forest (leaf "name" "eth0" ∷ leaf "type" type_vlan ∷ []))

abbrev deletion : Env
deletion = record calm {
  data_tree = λ h. forest (inner "interfaces" [] (forest (eth0 ∷ [])) ∷ []);
  diff_tree = λ h. forest (inner "interfaces" [] (forest (br0 ∷ [])) ∷ []);
}

deletes : (ifchange change no_dagger deletion start).0.0 ≡ pos 0
unfolding text_run helpers_run lyx_run dagger_run srx_run infer_run addresses_run autoconf_run
    links_run iface_run change_run
deletes = refl

abbrev lock : String
lock = "/run/net/next"

transaction_streams_example :
    let r = ifchange change no_dagger deletion start in
    let d = ifchange done r.0.1 deletion r.1 in
    let a = ifchange abort r.0.1 deletion r.1 in
    (opens lock d.1.calls + 0 ≡ 0 + closes lock d.1.calls)
    × (opens lock a.1.calls + 0 ≡ 0 + closes lock a.1.calls)
transaction_streams_example = transaction_streams lock no_dagger deletion start deletes

ifchange-change_streams_example :
    let r = ifchange change no_dagger deletion start in
    let c = dagger_claim "/run/net" deletion start in
    (r.0.0 ≡ pos 0
      → opens lock r.1.calls + 0 ≡ 0 + closes lock r.1.calls + one_open lock r.0.1.next_fp)
    × (c.0.0 ≡ pos 0 → r.0.0 ≢ pos 0 → opens lock r.1.calls + 0 ≡ 0 + closes lock r.1.calls)
    × (c.0.0 ≢ pos 0
        → (r ≡ c)
          × (opens lock r.1.calls + 0 ≡ 0 + closes lock r.1.calls + one_open lock c.0.1.next_fp))
ifchange-change_streams_example = ifchange-change_streams lock no_dagger deletion start

abbrev net : Dagger
net = record { current = pos 3; next = pos 4; next_fp = some lock; path = "/run/net" }

netdag_gen_iface-Balanced_example :
    Balanced "/run/net/3/action/exit/br0/50-exit.ip" (netdag_gen_iface net (some (root br0)) none)
netdag_gen_iface-Balanced_example =
    netdag_gen_iface-Balanced "/run/net/3/action/exit/br0/50-exit.ip" net (some (root br0)) none

-- A VLAN that gets another parent.
abbrev moved : Node
moved =
    root (inner "interface" [] (forest (leaf "name" "eth0" ∷ leaf "parent-interface" "eth1" ∷ [])))

must_recreate : netdag_must_del (some moved) (some (root eth0)) ≡ true
unfolding text_run lyx_run autoconf_run links_run
must_recreate = refl

-- The children of eth0, once it counts as created.
abbrev created_eth0 : Tree
created_eth0 =
    inner "interface" (("yang:operation", "create") ∷ [])
      (forest (leaf "name" "eth0" ∷ leaf "type" type_vlan ∷ []))

abbrev name_of_eth0 : Node
name_of_eth0 = record {
  this = leaf "name" "eth0";
  later = forest (leaf "type" type_vlan ∷ []);
  up = created_eth0 ∷ [];
}

abbrev type_of_eth0 : Node
type_of_eth0 = record { this = leaf "type" type_vlan; later = forest []; up = created_eth0 ∷ [] }

as_created-create_example :
    (lydx_get_op (as_created (some (root eth0))) ≡ create)
    × (lydx_get_op (some name_of_eth0) ≡ create)
unfolding as_created
as_created-create_example =
    as_created-create (root eth0) [] name_of_eth0 (type_of_eth0 ∷ []) refl refl refl

-- An address whose prefix changes from 8 to 16.
abbrev prefix : Tree
prefix =
    Tree.node
      (record {
        name = some "prefix-length";
        value = some "16";
        dflt = false;
        metas = ("yang:operation", "replace") ∷ ("yang:orig-value", "8") ∷ [];
      })
      Forest.end

abbrev address : Node
address = root (inner "address" [] (forest (leaf "ip" "10.0.0.1" ∷ prefix ∷ [])))

abbrev ip_node : Node
ip_node = record {
  this = leaf "ip" "10.0.0.1";
  later = forest (prefix ∷ []);
  up = address.this ∷ [];
}

abbrev prefix_node : Node
prefix_node = record { this = prefix; later = forest []; up = address.this ∷ [] }

has_ip : lydx_get_child (some address) "ip" ≡ some ip_node
unfolding lyx_run
has_ip = refl

has_prefix : lydx_get_child (some address) "prefix-length" ≡ some prefix_node
unfolding lyx_run
has_prefix = refl

netdag_gen_diff_addr_lem_example :
    let op = lydx_get_op (some address) in
    let a = lydx_get_diff (some ip_node) in
    let p = lydx_get_diff (some prefix_node) in
    let r = netdag_gen_diff_addr "ip" "eth0" address calm start in
    let std = (is_std_lo_addr "eth0" (str a.new) (str p.new) calm start).0 in
    let removed = wrote "ip" (address_line "delete" a.old p.old "eth0") in
    (r.0 ≡ pos 0)
    × (op ≡ delete → r.1.calls ≡ removed ∷ [])
    × (op ≡ create
        → r.1.calls
          ≡ wrote "ip" (address_line (if std then "replace" else "add") a.new p.new "eth0") ∷ [])
    × (op ≢ delete
        → op ≢ create
        → r.1.calls ≡ wrote "ip" (address_line "add" a.new p.new "eth0") ∷ removed ∷ [])
netdag_gen_diff_addr_lem_example =
    netdag_gen_diff_addr_lem "ip" "eth0" address calm start ip_node prefix_node has_ip has_prefix

-- A leaf below autoconf is switched on.
abbrev autoconf : Tree
autoconf = inner "autoconf" [] (forest (leaf "enabled" "true" ∷ []))

abbrev ipv4_on : Tree
ipv4_on = inner "ipv4" [] (forest (leaf "enabled" "true" ∷ []))

abbrev config : Node
config = root (inner "interface" [] (forest (leaf "name" "eth0" ∷ ipv4_on ∷ [])))

abbrev switched : Node
switched = root (
    inner "interface" []
      (forest (leaf "name" "eth0" ∷ inner "ipv4" [] (forest (autoconf ∷ [])) ∷ [])))

abbrev autoconf_node : Node
autoconf_node = record {
  this = autoconf;
  later = forest [];
  up = inner "ipv4" [] (forest (autoconf ∷ [])) ∷ switched.this ∷ [];
}

-- The switch below `autoconf` is not found.
switch_ignored :
    netdag_gen_ipv4_autoconf net (some config) (some switched) calm start ≡ (pos 0, start)
unfolding text_run lyx_run addresses_run autoconf_run
switch_ignored = refl

abbrev br1 : String
br1 = "/ietf-interfaces:interfaces/interface[name='br1']/name"

ifchange_cand_infer_type-keeps_example :
    let xpath : String = get_or (iface_xpath br1) "(null)" in
    let read = srx_get_str (xpath <> "/type") calm start in
    let s = sets (ifchange_cand_infer_type br1 calm start).1.calls in
    ((t : String)
      → read.0 ≡ some t
      → (ifchange_cand_infer_type br1 calm start ≡ (pos 0, read.1)) × (s ≡ []))
    × (read.0 ≡ none → (s ≡ []) ⊎ (s ≡ (xpath <> "/type") ∷ []))
ifchange_cand_infer_type-keeps_example = ifchange_cand_infer_type-keeps br1 calm start

out_of_range : (ltb_ℤ (strtol_10 "4096") (pos 1) || ltb_ℤ (pos 4095) (strtol_10 "4096")) ≡ true
unfolding text_run
out_of_range = refl
