-- ===== src/Srx/Keeps.antt =====
-- Reading a text keeps what is read of the calls, if asking for a path does
-- (src/confd/src/confd/srx_val.c, srx_get_str).
use infix_lib.Prelude.{ℤ, ◌≡◌, String, true, List, [], ◌∷◌, inl, inr, ◌⊎◌}
use infix_lib.Machine.Values.{SrType, SrVal}
use infix_lib.Machine.{asked}
use infix_lib.Machine.Views.{View, Keeps, keep_rules}
use infix_lib.Srx.{srx_get_str, srx_vaget, pick, Got, found, missed, text_of}

module _ {X : Type 0} (v : View X) where
  Keeps-pick : (type : SrType) (vals : ℤ ⊎ List SrVal) → Keeps v (pick type vals)
  unfolding pick
  Keeps-pick type (inl rc) = search keep_rules
  Keeps-pick type (inr []) = search keep_rules
  Keeps-pick type (inr (val ∷ [])) = search keep_rules
  Keeps-pick type (inr (val ∷ next ∷ vals)) = search keep_rules

  Keeps-text_of : (got : Got) → Keeps v (text_of got)
  Keeps-text_of (found val) = search keep_rules
  Keeps-text_of (missed n) = search keep_rules

  pub Keeps-srx_get_str :
      (xpath : String) → v.skips (asked xpath) ≡ true → Keeps v (srx_get_str xpath)
  unfolding srx_get_str srx_vaget
  Keeps-srx_get_str xpath h = search (keep_rules, Keeps-pick, Keeps-text_of)
