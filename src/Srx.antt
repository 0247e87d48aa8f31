-- ===== src/Srx.antt =====
-- Access to the data store, src/confd/src/confd/srx_val.c. A format and its arguments are the path
-- that they print to.
pub mod Items
pub mod Keeps
use infix_lib.Prelude.{ℕ, zero, suc, ◌-◌, ◌%◌, ◌^◌, ℤ, pos, negsuc, String, Bool, true, false}
use infix_lib.Prelude.{Option, none, some, List, [], ◌∷◌, length, ltb, is_zero, if◌then◌else◌}
use infix_lib.Prelude.{◌⊎◌, inl, inr, ◌=ℕ◌, ◌&&◌, not}
use infix_lib.Lyx.Tree.{Forest}
use infix_lib.Machine.Values.{
  SrVal, SrData, bool_val, int8_val, int16_val, int32_val, int64_val, uint8_val, uint16_val,
  uint32_val, uint64_val, SrType, unknown_t, string_t, enum_t, bool_t, int8_t, uint8_t, int16_t,
  uint16_t, int32_t, uint32_t, int64_t, uint64_t, other_t, type_of,
}
use infix_lib.Machine.{
  M, ◌>>=◌, ◌>>◌, pure, set_errno, get_errno, sr_get_items, sr_set_item, sr_set_item_str,
  sr_val_to_str, sr_changes, dup_diff,
}

-- sysrepo's error codes
abbrev pub sr_err_ok : ℤ
sr_err_ok = pos 0

abbrev pub sr_err_ly : ℤ
sr_err_ly = pos 2

abbrev pub sr_err_sys : ℤ
sr_err_sys = pos 3

abbrev pub sr_err_internal : ℤ
sr_err_internal = pos 7

-- errno values of Linux
abbrev pub einval : ℕ
einval = 22

abbrev pub enodata : ℕ
enodata = 61

abbrev pub eoverflow : ℕ
eoverflow = 75

-- The error and the tree. C reads the iterator also where the first call failed.
unfoldable pub srx_get_diff : M (ℤ × Forest)
srx_get_diff = do
  (err, _) ← sr_changes "/ietf-system:system//."
  (dup, t) ← dup_diff
  pure (if is_zero dup then err else sr_err_ly, t)

unfoldable pub srx_set_item : SrData → String → M ℤ
srx_set_item val xpath = sr_set_item xpath val

unfoldable pub srx_set_str : String → String → M ℤ
srx_set_str str xpath = sr_set_item_str xpath str

abbrev pub type_eq : SrType → SrType → Bool
type_eq string_t string_t = true
type_eq enum_t enum_t = true
type_eq bool_t bool_t = true
type_eq int8_t int8_t = true
type_eq uint8_t uint8_t = true
type_eq int16_t int16_t = true
type_eq uint16_t uint16_t = true
type_eq int32_t int32_t = true
type_eq uint32_t uint32_t = true
type_eq int64_t int64_t = true
type_eq uint64_t uint64_t = true
type_eq unknown_t unknown_t = true
type_eq other_t other_t = true
type_eq _ _ = false

-- `!(type != SR_UNKNOWN_T && val[0]->type != type)`
abbrev pub accepts : SrType → SrData → Bool
accepts unknown_t v = true
accepts type v = type_eq (type_of v) type

-- The result 0 with one value, or -1 with the number of values in `*cnt`.
pub data Got : Type 0 where
  found : SrVal → Got
  missed : ℕ → Got

-- A call that fails leaves `*cnt` at 0.
unfoldable pub pick : SrType → ℤ ⊎ List SrVal → M Got
pick type (inl rc) = pure (missed 0)
pick type (inr []) = do set_errno enodata; pure (missed 0)
pick type (inr (v ∷ [])) =
    if accepts type v.content then pure (found v) else do set_errno einval; pure (missed 1)
pick type (inr (v ∷ u ∷ vs)) = do set_errno eoverflow; pure (missed (length (v ∷ u ∷ vs)))

unfoldable pub srx_vaget : String → SrType → M Got
unfolding pick
srx_vaget xpath type = do vals ← sr_get_items xpath; pick type vals

abbrev bool_of : Got → Option Bool
bool_of (found v) = elim v.content [ bool_val b ↦ some b | _ ↦ none ]
bool_of (missed n) = none

-- `none` stands for the result -1.
unfoldable pub get_vabool : String → M (Option Bool)
unfolding srx_vaget
get_vabool xpath = do got ← srx_vaget xpath bool_t; pure (bool_of got)

unfoldable pub srx_get_bool : String → M (Option Bool)
unfolding get_vabool
srx_get_bool xpath = get_vabool xpath

abbrev enabled_of : Option Bool → ℤ
enabled_of (some true) = pos 1
enabled_of _ = pos 0

unfoldable pub srx_enabled : String → M ℤ
unfolding get_vabool
srx_enabled xpath = do v ← get_vabool xpath; pure (enabled_of v)

-- The conversion to a 32-bit `int`, which wraps around.
abbrev pub int_of_residue : ℕ → ℤ
int_of_residue m = if ltb m (2 ^ 31) then pos m else negsuc (2 ^ 32 - 1 - m)

unfoldable pub to_int : ℤ → ℤ
to_int (pos n) = int_of_residue (n % 2 ^ 32)
to_int (negsuc n) = int_of_residue (2 ^ 32 - 1 - n % 2 ^ 32)

unfoldable pub int_of : SrData → Option ℤ
unfolding to_int
int_of (int8_val n) = some n
int_of (uint8_val n) = some (pos n)
int_of (int16_val n) = some n
int_of (uint16_val n) = some (pos n)
int_of (int32_val n) = some n
int_of (uint32_val n) = some (to_int (pos n))
int_of (int64_val n) = some (to_int n)
int_of (uint64_val n) = some (to_int (pos n))
int_of _ = none

abbrev int_of_got : Got → Option ℤ
int_of_got (found v) = int_of v.content
int_of_got (missed n) = none

-- `none` stands for the result -1, which leaves `*result` as it was.
unfoldable pub srx_get_int : SrType → String → M (Option ℤ)
unfolding srx_vaget int_of
srx_get_int type xpath = do got ← srx_vaget xpath type; pure (int_of_got got)

abbrev pub text_of : Got → M (Option String)
text_of (found v) = sr_val_to_str v.content
text_of (missed n) = pure none

unfoldable pub srx_get_str : String → M (Option String)
unfolding srx_vaget
srx_get_str xpath = do got ← srx_vaget xpath unknown_t; text_of got

-- The result, and `*cntp`.
abbrev count_of : Got → ℕ → ℤ × ℕ
count_of (found v) errno = (pos 0, 1)
count_of (missed n) errno = (if errno =ℕ 0 then negsuc 0 else pos 0, n)

unfoldable pub srx_vnitems : String → M (ℤ × ℕ)
unfolding srx_vaget
srx_vnitems xpath = do
  set_errno 0
  got ← srx_vaget xpath unknown_t
  errno ← get_errno
  pure (count_of got errno)

unfoldable pub srx_nitems : String → M (ℤ × ℕ)
unfolding srx_vnitems
srx_nitems xpath = srx_vnitems xpath
