-- ===== src/Tests/Trees.antt =====
-- Data trees: the operation of nodes, diffs, and paths.
use infix_lib.Prelude.{◌≡◌, refl, none, some, [], ◌∷◌}
use infix_lib.Lyx.Tree.{Tree, Node, siblings}
use infix_lib.Lyx.{none_op, create, lydx_get_op, lydx_get_sibling, lydx_get_descendant}
use infix_lib.Lyx.Ops.{above, itself, lydx_get_op-nearest}
use infix_lib.Lyx.Paths.{IsFirst, NoneNamed, lydx_get_sibling_lem}
use infix_lib.Tests.Fixtures.{leaf, inner, forest, root}
use infix_lib.Tests.Running.{lyx_run}

-- An interface that was created, with an IPv4 container.
abbrev ipv4 : Tree
ipv4 = inner "ipv4" [] (forest (leaf "enabled" "true" ∷ []))

abbrev created_iface : Tree
created_iface =
    inner "interface" (("yang:operation", "create") ∷ [])
      (forest (leaf "name" "eth0" ∷ leaf "mtu" "1500" ∷ ipv4 ∷ []))

abbrev enabled : Node
enabled = record { this = leaf "enabled" "true"; later = forest []; up = ipv4 ∷ created_iface ∷ [] }

inherited : lydx_get_op (some enabled) ≡ create
unfolding lyx_run
inherited = refl

lydx_get_op-nearest_example : lydx_get_op (some enabled) ≡ create
lydx_get_op-nearest_example =
    lydx_get_op-nearest enabled (some "create") (above refl (above refl (itself refl)))

abbrev mtu : Node
mtu = root (leaf "mtu" "1500")

untouched : lydx_get_op (some mtu) ≡ none_op
unfolding lyx_run
untouched = refl

abbrev name_node : Node
name_node = record {
  this = leaf "name" "eth0";
  later = forest (leaf "mtu" "1500" ∷ ipv4 ∷ []);
  up = created_iface ∷ [];
}

finds_ipv4 : (lydx_get_descendant (some name_node) ("ipv4" ∷ "enabled" ∷ [])) ≡ some enabled
unfolding lyx_run
finds_ipv4 = refl

lydx_get_sibling_lem_example :
    ((n : Node)
      → lydx_get_sibling (some name_node) "ipv4" ≡ some n
      → IsFirst "ipv4" (siblings (some name_node)) n)
    × (lydx_get_sibling (some name_node) "ipv4" ≡ none
        → NoneNamed "ipv4" (siblings (some name_node)))
lydx_get_sibling_lem_example = lydx_get_sibling_lem "ipv4" name_node
