-- ===== src/Lyx/Ops.antt =====
-- The operation of a node in a diff, and what a diff says of a leaf (src/confd/src/lib/lyx.c,
-- lydx_get_op and lydx_get_diff).
use infix_lib.Prelude.{String, ◌≡◌, ◌≢◌, refl, Option, some, none, List, [], ◌∷◌, lookup}
use infix_lib.Prelude.{arith, true, false, not, is_some, or_else, ◌&&◌, ◌||◌}
use infix_lib.Prelude.{get_or}
use infix_lib.Text.Equal.{eq_swap}
use infix_lib.Lyx.Tree.{Tree, Node, leaf_of}
use infix_lib.Lyx.{
  LydxOp, none_op, create, delete, replace, op_of, find_op, lydx_get_op, lydx_get_diff, LydxDiff,
  no_diff, fill, close_diff,
}

abbrev pub own_op : Tree → Option String
own_op t = lookup "yang:operation" (leaf_of t).metas

-- The operations, by their names in a diff.
abbrev pub operations : List (String × LydxOp)
operations = ("create", create) ∷ ("delete", delete) ∷ ("replace", replace) ∷ []

-- Any other name, and none at all, stands for no operation.
abbrev pub operation : Option String → LydxOp
operation none = none_op
operation (some s) = get_or (lookup s operations) none_op

op_of_lem : (o : Option String) → op_of o ≡ operation o
op_of_lem none = refl
op_of_lem (some s) = rw (eq_swap s "create", eq_swap s "delete", eq_swap s "replace") (ground arith)

-- What a node and those above it, up to the root, say of the operation: the nearest one that names
-- one decides, and if none does, there is none.
pub data Decides : List Tree → Option String → Type 0 where
  nobody : Decides [] none
  itself : {t : Tree} {up : List Tree} {s : String} → own_op t ≡ some s → Decides (t ∷ up) (some s)
  above :
      {t : Tree} {up : List Tree} {o : Option String}
      → own_op t ≡ none
      → Decides up o
      → Decides (t ∷ up) o

find_op_lem : {ts : List Tree} {o : Option String} → Decides ts o → find_op ts ≡ o
unfolding find_op
find_op_lem nobody = refl
find_op_lem (itself h) = ground (arith, h)
find_op_lem (above h d) = ground (arith, h, find_op_lem d)

-- The operation of a node is that of the nearest node, itself included, that names one: create,
-- delete or replace, and `none_op` for any other name. It is `none_op` also where no node up to the
-- root names one.
pub lydx_get_op-nearest :
    (n : Node) (o : Option String) → Decides (n.this ∷ n.up) o → lydx_get_op (some n) ≡ operation o
unfolding lydx_get_op
lydx_get_op-nearest n o h = rw (find_op_lem h) (op_of_lem o)

abbrev pub value_of : Node → Option String
value_of n = (leaf_of n.this).value

abbrev pub orig_value : Node → Option String
orig_value n = lookup "yang:orig-value" (leaf_of n.this).metas

-- What a diff of the node says in each of its cases.
pub record DiffCases (n : Node) (d : LydxDiff) : Type 0 where
  pub of_deleted :
      d.op ≡ delete
      → (d.old ≡ value_of n) × (d.new ≡ none) × (d.was_default ≡ (leaf_of n.this).dflt)
  pub of_created :
      d.op ≡ create → (d.old ≡ none) × (d.new ≡ value_of n) × (d.is_default ≡ (leaf_of n.this).dflt)
  pub of_other :
      d.op ≢ delete
      → d.op ≢ create
      → (d.new ≡ value_of n) × (d.old ≡ or_else (orig_value n) (value_of n))
  pub when_modified :
      d.modified ≡ (is_some d.old && not d.was_default || is_some d.new && not d.is_default)

diff_cases :
    (n : Node) (op : LydxOp)
    → DiffCases n (close_diff (fill op n (record no_diff { op = op; val = value_of n })))
diff_cases n none_op = ground arith
diff_cases n create = ground arith
diff_cases n delete = ground arith
diff_cases n replace = ground arith

-- The cases of a diff: a deleted leaf has an old value and no new one; a created one has a new
-- value and no old one; any other has its value as the new one and, as the old one, that of
-- `yang:orig-value` or, without it, the same value. In every case `modified` says that there is
-- an old or a new value which is not a default.
lydx_get_diff_cases : (n : Node) → DiffCases n (lydx_get_diff (some n))
unfolding lydx_get_diff
lydx_get_diff_cases n = diff_cases n (lydx_get_op (some n))

-- A leaf with a value that is no default, which the diff does not touch (no operation, no original
-- value), still counts as modified, with its value as both the old and the new one.
lydx_get_diff-untouched :
    (n : Node) (v : String)
    → lydx_get_op (some n) ≡ none_op
    → (leaf_of n.this).value ≡ some v
    → (leaf_of n.this).dflt ≡ false
    → lookup "yang:orig-value" (leaf_of n.this).metas ≡ none
    → let d = lydx_get_diff (some n) in (d.modified ≡ true) × (d.old ≡ d.new) × (d.new ≡ some v)
unfolding lydx_get_diff
lydx_get_diff-untouched n v o e f m = ground arith
