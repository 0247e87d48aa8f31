-- ===== src/Lyx/Tree.antt =====
-- The data trees that confd reads: libyang's `struct lyd_node`, of which the model has the fields
-- that src/confd/src/lib/lyx.c reads. A `Node` is a non-null `struct lyd_node *`: the node, the
-- siblings after it, and its ancestors, nearest first.
use infix_lib.Prelude.{String, Bool, Option, none, some, List, [], ◌∷◌, ◌==◌}
use infix_lib.Prelude.{if◌then◌else◌}

-- `name` is `node->schema->name`, `metas` the list `node->meta`, `dflt` the flag LYD_DEFAULT.
pub record Leaf : Type 0 where
  pub name : Option String
  pub value : Option String
  pub dflt : Bool
  pub metas : List (String × String)

mutual
  pub data Tree : Type 0 where
    node : Leaf → Forest → Tree

  pub data Forest : Type 0 where
    end : Forest
    tree : Tree → Forest → Forest

abbrev pub leaf_of : Tree → Leaf
leaf_of (node l f) = l

abbrev pub children : Tree → Forest
children (node l f) = f

pub record Node : Type 0 where
  pub this : Tree
  pub later : Forest
  pub up : List Tree

-- A list of siblings, as the pointer to its first node.
abbrev pub first : Forest → List Tree → Option Node
first end up = none
first (tree t f) up = some (record { this = t; later = f; up = up })

-- `lyd_child`, also of a null pointer.
abbrev pub lyd_child : Option Node → Option Node
lyd_child none = none
lyd_child (some n) = first (children n.this) (n.this ∷ n.up)

abbrev pub nodes : Forest → List Tree → List Node
nodes end up = []
nodes (tree t f) up = record { this = t; later = f; up = up } ∷ nodes f up

-- The nodes that LY_LIST_FOR visits.
abbrev pub siblings : Option Node → List Node
siblings none = []
siblings (some n) = n ∷ nodes n.later n.up

-- `node->schema && node->schema->name && !strcmp(node->schema->name, name)`
abbrev pub has_name : String → Node → Bool
has_name name n = elim (leaf_of n.this).name [ none ↦ Bool.false | some s ↦ s == name ]

-- The nodes that LYX_LIST_FOR_EACH visits.
abbrev pub named : String → List Node → List Node
named name [] = []
named name (n ∷ ns) = let rest = named name ns in if has_name name n then n ∷ rest else rest
