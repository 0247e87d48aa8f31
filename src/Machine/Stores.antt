-- ===== src/Machine/Stores.antt =====
-- Calls of sysrepo, libyang and jansson.
use infix_lib.Prelude.{ℕ, ℤ, String, Option, none, some, List, ◌⊎◌, inl, inr}
use infix_lib.Lyx.Tree.{Forest, Leaf}
use infix_lib.Machine.Values.{SrVal, SrData, Change, Json}
use infix_lib.Machine.Types.{got, set_item, set_str, asked, World, M, record_call}

-- The values at a path, or the error, with the errno that the library left.
abbrev pub getting : Option (ℤ × ℕ) → List SrVal → World → (ℤ ⊎ List SrVal) × World
getting none vals w = (inr vals, w)
getting (some (rc, n)) vals w = (inl rc, record w { errno = n })

unfoldable pub sr_get_items : String → M (ℤ ⊎ List SrVal)
sr_get_items xpath e w =
    getting (e.items_error w.calls xpath) (e.items w.calls xpath) (record_call (asked xpath) w)

unfoldable pub sr_set_item : String → SrData → M ℤ
sr_set_item xpath val e w = (e.set_item_status w.calls xpath, record_call (set_item xpath val) w)

unfoldable pub sr_set_item_str : String → String → M ℤ
sr_set_item_str xpath str e w = (e.set_item_status w.calls xpath, record_call (set_str xpath str) w)

unfoldable pub sr_val_to_str : SrData → M (Option String)
sr_val_to_str val e w = (e.val_to_str val, w)

-- sr_get_data: the tree, or the error
unfoldable pub sr_get_data : String → M (ℤ × Forest)
sr_get_data xpath e w =
    ((e.data_status w.calls xpath, e.data_tree w.calls), record_call (asked xpath) w)

-- sr_dup_changes_iter and the changes that sr_get_change_next gives in turn
unfoldable pub sr_changes : String → M (ℤ × List Change)
sr_changes xpath e w =
    ((e.changes_status w.calls, e.changes w.calls xpath), record_call (asked xpath) w)

-- The diff tree that a change iterator holds, duplicated.
unfoldable pub dup_diff : M (ℤ × Forest)
dup_diff e w = ((e.dup_status w.calls, e.diff_tree w.calls), w)

unfoldable pub json_loadf : String → M (Option Json)
json_loadf fp e w = (e.json w.calls fp, record_call (got fp) w)

unfoldable pub inet_pton4 : String → M (Option ℕ)
inet_pton4 text e w = (e.inet_pton4 text, w)

unfoldable pub inet_pton6 : String → M (Option ℕ)
inet_pton6 text e w = (e.inet_pton6 text, w)

unfoldable pub union_value : Leaf → M (Option ℕ)
union_value leaf e w = (e.union_value leaf, w)
