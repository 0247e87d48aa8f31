-- ===== src/System/Staged/Reads.antt =====
-- Reading the data store changes no file (src/confd/src/confd/srx_val.c).
use infix_lib.Prelude.{ℤ, String, List, [], ◌∷◌, ◌⊎◌, inl, inr}
use infix_lib.Machine.Values.{SrVal, SrType}
use infix_lib.Srx.{
  srx_get_str, srx_get_int, srx_enabled, srx_vaget, pick, get_vabool, Got, found, missed, text_of,
}
use infix_lib.Machine.Files.{Store, Leaves, leave_rules, after, Truthful, Leaves-bind}

module _ (s : Store) (q : String) where
  Leaves-pick : (type : SrType) (vals : ℤ ⊎ List SrVal) → Leaves s q (pick type vals)
  unfolding pick
  Leaves-pick type (inl rc) = search leave_rules
  Leaves-pick type (inr []) = search leave_rules
  Leaves-pick type (inr (v ∷ [])) = search leave_rules
  Leaves-pick type (inr (v ∷ u ∷ vs)) = search leave_rules

  Leaves-srx_vaget : (xpath : String) (type : SrType) → Leaves s q (srx_vaget xpath type)
  unfolding srx_vaget
  Leaves-srx_vaget xpath type = search (leave_rules, Leaves-pick)

  Leaves-text_of : (got : Got) → Leaves s q (text_of got)
  Leaves-text_of (found v) = search leave_rules
  Leaves-text_of (missed n) = search leave_rules

  pub Leaves-srx_get_str : (xpath : String) → Leaves s q (srx_get_str xpath)
  unfolding srx_get_str
  Leaves-srx_get_str xpath = search (leave_rules, Leaves-srx_vaget, Leaves-text_of)

  pub Leaves-srx_get_int : (type : SrType) (xpath : String) → Leaves s q (srx_get_int type xpath)
  unfolding srx_get_int
  Leaves-srx_get_int type xpath = search (leave_rules, Leaves-srx_vaget)

  pub Leaves-srx_enabled : (xpath : String) → Leaves s q (srx_enabled xpath)
  unfolding srx_enabled get_vabool
  Leaves-srx_enabled xpath = search (leave_rules, Leaves-srx_vaget)

pub ruleset read_rules = (leave_rules, Leaves-srx_get_str, Leaves-srx_get_int, Leaves-srx_enabled)
