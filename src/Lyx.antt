-- ===== src/Lyx.antt =====
-- The walks over data trees of src/confd/src/lib/lyx.c and lyx.h.
pub mod Tree
pub mod Ops
pub mod Paths
pub mod Build
use Tree.{Node, leaf_of, lyd_child, siblings, has_name}
use infix_lib.Text.{concat}
use infix_lib.Prelude.{
  String, Bool, true, false, Option, none, some, List, [], ◌∷◌, lookup, or_else,
}
use infix_lib.Prelude.{◌==◌, ◌&&◌, ◌||◌, not, bind, is_some, if◌then◌else◌}

pub data LydxOp : Type 0 where
  none_op create delete replace : LydxOp

abbrev pub op_of : Option String → LydxOp
op_of none = none_op
op_of (some s) =
    if s == "create"
    then create
    else if s == "delete"
    then delete
    else if s == "replace"
    then replace
    else none_op

-- NULL for a null node and for a node with no such metadata.
unfoldable pub lydx_get_mattr : Option Node → String → Option String
lydx_get_mattr none name = none
lydx_get_mattr (some n) name = lookup name (leaf_of n.this).metas

-- The loop over `lyd_parent`, on the ancestors that are left.
unfoldable pub find_op : List Tree.Tree → Option String
find_op [] = none
find_op (t ∷ up) = or_else (lookup "yang:operation" (leaf_of t).metas) (find_op up)

unfoldable pub lydx_get_op : Option Node → LydxOp
unfolding find_op
lydx_get_op none = none_op
lydx_get_op (some n) = op_of (find_op (n.this ∷ n.up))

pub record LydxDiff : Type 0 where
  pub op : LydxOp
  pub modified : Bool
  pub is_default : Bool
  pub was_default : Bool
  pub old : Option String
  pub val : Option String
  pub new : Option String

-- `memset(nd, 0, sizeof(*nd))`
abbrev pub no_diff : LydxDiff
no_diff = record {
  op = none_op;
  modified = false;
  is_default = false;
  was_default = false;
  old = none;
  val = none;
  new = none;
}

-- The switch on `nd->op`: a deleted node has its old value, any other its new one, and the old
-- one too unless it was created.
abbrev fill : LydxOp → Node → LydxDiff → LydxDiff
fill delete n nd = record nd { old = nd.val; was_default = (leaf_of n.this).dflt }
fill create n nd = record nd { new = nd.val; is_default = (leaf_of n.this).dflt }
fill op n nd =
    let old = lookup "yang:orig-value" (leaf_of n.this).metas in
    record nd {
      new = nd.val;
      is_default = (leaf_of n.this).dflt;
      old = or_else old nd.val;
      modified = is_some old;
      was_default = elim (lookup "yang:orig-default" (leaf_of n.this).metas) [
        | none ↦ false
        | some odflt ↦ odflt == "true"
      ];
    }

abbrev is_modified : LydxDiff → Bool
is_modified nd = is_some nd.old && not nd.was_default || is_some nd.new && not nd.is_default

abbrev close_diff : LydxDiff → LydxDiff
close_diff nd = record nd { modified = is_modified nd }

-- The C function's result is `modified` of the structure that it fills.
unfoldable pub lydx_get_diff : Option Node → LydxDiff
lydx_get_diff none = no_diff
lydx_get_diff (some n) =
    let op = lydx_get_op (some n) in
    close_diff (fill op n (record no_diff { op = op; val = (leaf_of n.this).value }))

unfoldable pub find_name : String → List Node → Option Node
find_name name [] = none
find_name name (n ∷ ns) = if has_name name n then some n else find_name name ns

unfoldable pub lydx_get_sibling : Option Node → String → Option Node
unfolding find_name
lydx_get_sibling none name = none
lydx_get_sibling (some n) name = find_name name (siblings (some n))

unfoldable pub lydx_get_child : Option Node → String → Option Node
unfolding lydx_get_sibling
lydx_get_child parent name = lydx_get_sibling (lyd_child parent) name

-- The loop over the names, from the last node found.
unfoldable pub descend : Option Node → Option Node → List String → Option Node
descend found from [] = found
descend found from (name ∷ names) =
    bind (lydx_get_sibling from name) (λ n. descend (some n) (lyd_child (some n)) names)

unfoldable pub lydx_get_descendant : Option Node → List String → Option Node
unfolding descend
lydx_get_descendant from names = descend none from names

abbrev pub lyd_get_value : Option Node → Option String
lyd_get_value none = none
lyd_get_value (some n) = (leaf_of n.this).value

unfoldable pub lydx_get_attr : Option Node → String → Option String
unfolding lydx_get_sibling
lydx_get_attr sibling name = lyd_get_value (lydx_get_sibling sibling name)

unfoldable pub lydx_get_cattr : Option Node → String → Option String
unfolding lydx_get_attr
lydx_get_cattr parent name = lydx_get_attr (lyd_child parent) name

unfoldable pub lydx_is_enabled : Option Node → String → Bool
unfolding lydx_get_cattr
lydx_is_enabled parent name = elim (lydx_get_cattr parent name) [
  | none ↦ false
  | some attr ↦ attr == "true"
]

-- The format with its arguments is the text that they give.
unfoldable pub lydx_get_vattrf : Option Node → List String → Option String
unfolding lydx_get_attr
lydx_get_vattrf sibling parts = lydx_get_attr sibling (concat parts)

unfoldable pub lydx_get_attrf : Option Node → List String → Option String
unfolding lydx_get_vattrf
lydx_get_attrf sibling parts = lydx_get_vattrf sibling parts
