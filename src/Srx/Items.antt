-- ===== src/Srx/Items.antt =====
-- What the readers of src/confd/src/confd/srx_val.c make of the items at a path.
use infix_lib.Prelude.{
  ℕ, ℤ, pos, negsuc, ◌≤ℤ◌, String, true, none, some, List, [], ◌∷◌, length, ◌≡◌, ◌≢◌, ◌=ℕ◌,
  if◌then◌else◌, arith, refl, Option, ◌⊎◌, inl, inr, ◌^◌, ◌-◌, ◌<◌,
}
use mathlib.Core.Path.{subst}
use infix_lib.Machine.{Env, World, ◌>>=◌}
use infix_lib.Machine.Values.{
  SrType, unknown_t, type_of, SrVal, bool_val, SrData, int8_val, int16_val, int32_val, int64_val,
  uint8_val, uint16_val, uint32_val, uint64_val,
}
use infix_lib.Helpers.{int_min, int_max}
use infix_lib.Srx.{
  srx_get_str, srx_enabled, srx_nitems, to_int, int_of, accepts, srx_get_int, type_eq,
}

module _ (xpath : String) (e : Env) (w : World) where
  -- A read that succeeds counts the items that are there, none and many included. A read that fails
  -- counts none, and is an error only if the library left errno at 0.
  srx_nitems_lem :
      (e.items_error w.calls xpath ≡ none
        → (srx_nitems xpath e w).0 ≡ (pos 0, length (e.items w.calls xpath)))
      × ((rc : ℤ) (n : ℕ)
          → e.items_error w.calls xpath ≡ some (rc, n)
          → (srx_nitems xpath e w).0 ≡ (if n =ℕ 0 then negsuc 0 else pos 0, 0))
  unfolding srx_nitems ◌>>=◌
  srx_nitems_lem = (λ h. ground arith, λ rc n h. ground arith)

  -- A path counts as enabled, with the result 1, exactly if the read succeeds with one item and that
  -- item is the boolean true; otherwise the result is 0.
  srx_enabled_lem :
      (vals : List SrVal)
      → e.items_error w.calls xpath ≡ none
      → e.items w.calls xpath ≡ vals
      → ((srx_enabled xpath e w).0 ≡ pos 1
          → (v : SrVal) × (vals ≡ v ∷ []) × (v.content ≡ bool_val true))
        × ((v : SrVal)
            → vals ≡ v ∷ []
            → v.content ≡ bool_val true
            → (srx_enabled xpath e w).0 ≡ pos 1)
        × ((srx_enabled xpath e w).0 ≢ pos 1 → (srx_enabled xpath e w).0 ≡ pos 0)
  unfolding srx_enabled ◌>>=◌
  srx_enabled_lem [] h k = (λ g. ground arith, λ v p q. ground arith, λ g. ground arith)
  srx_enabled_lem (v ∷ []) h k =
      (λ g. (v, refl, ground arith), λ v p q. ground arith, λ g. ground arith)
  srx_enabled_lem (v ∷ u ∷ vs) h k = (λ g. ground arith, λ v p q. ground arith, λ g. ground arith)

  read_single :
      (vals : List SrVal) (s : String)
      → e.items w.calls xpath ≡ vals
      → (srx_get_str xpath e w).0 ≡ some s
      → (v : SrVal) × (vals ≡ v ∷ []) × (e.val_to_str v.content ≡ some s)
  unfolding srx_get_str ◌>>=◌
  read_single [] s k h = ground arith
  read_single (v ∷ []) s k h = (v, refl, ground arith)
  read_single (v ∷ u ∷ vs) s k h = ground arith

  -- A text is read only where exactly one item is at the path, and it is that item's.
  srx_get_str-single :
      (s : String)
      → (srx_get_str xpath e w).0 ≡ some s
      → (v : SrVal) × (e.items w.calls xpath ≡ v ∷ []) × (e.val_to_str v.content ≡ some s)
  srx_get_str-single s h = read_single (e.items w.calls xpath) s refl h

abbrev pub InInt : ℤ → Type 0
InInt n = (int_min ≤ℤ n) × (n ≤ℤ int_max)

-- The conversion to `int` stays in its range, and keeps a number that is in the range.
pub to_int_lem : (n : ℤ) → InInt (to_int n) × (InInt n → to_int n ≡ n)
unfolding to_int
to_int_lem (pos n) = (ground arith, λ h. ground arith)
to_int_lem (negsuc n) = (ground arith, λ h. ground arith)

-- The number that a value holds, and whether it is in the range of its type.
abbrev pub number_of : SrData → Option ℤ
number_of (int8_val n) = some n
number_of (uint8_val n) = some (pos n)
number_of (int16_val n) = some n
number_of (uint16_val n) = some (pos n)
number_of (int32_val n) = some n
number_of (uint32_val n) = some (pos n)
number_of (int64_val n) = some n
number_of (uint64_val n) = some (pos n)
number_of _ = none

abbrev Signed : ℕ → ℤ → Type 0
Signed bits n = (negsuc (2 ^ bits - 1) ≤ℤ n) × (n ≤ℤ pos (2 ^ bits - 1))

abbrev pub InType : SrData → Type 0
InType (int8_val n) = Signed 7 n
InType (uint8_val n) = n < 2 ^ 8
InType (int16_val n) = Signed 15 n
InType (uint16_val n) = n < 2 ^ 16
InType (int32_val n) = Signed 31 n
InType (uint32_val n) = n < 2 ^ 32
InType (int64_val n) = Signed 63 n
InType (uint64_val n) = n < 2 ^ 64
InType _ = Unit

-- What is read of a value.
abbrev pub ReadOf : SrData → ℤ → Type 0
ReadOf d v = InInt v × (n : ℤ) × (number_of d ≡ some n) × (InInt n → v ≡ n)

ReadOf-exact : (n v : ℤ) → InInt n → some n ≡ some v → ReadOf (int32_val n) v
ReadOf-exact n v t h =
    let same : n ≡ v = cc in subst (λ u. ReadOf (int32_val n) u) same (t, n, refl, λ k. refl)

ReadOf-converted : (n v : ℤ) → some (to_int n) ≡ some v → ReadOf (int32_val n) v
ReadOf-converted n v h =
    let same : to_int n ≡ v = cc in
    let (range, kept) = to_int_lem n in
    subst (λ u. ReadOf (int32_val n) u) same (range, n, refl, kept)

small8 : (n : ℤ) → Signed 7 n → InInt n
small8 (pos n) h = ground arith
small8 (negsuc n) h = ground arith

small16 : (n : ℤ) → Signed 15 n → InInt n
small16 (pos n) h = ground arith
small16 (negsuc n) h = ground arith

int_of-ReadOf : (d : SrData) (v : ℤ) → InType d → int_of d ≡ some v → ReadOf d v
unfolding int_of
int_of-ReadOf (int8_val n) v t h = ReadOf-exact n v (small8 n t) h
int_of-ReadOf (uint8_val n) v t h = ReadOf-exact (pos n) v (ground arith) h
int_of-ReadOf (int16_val n) v t h = ReadOf-exact n v (small16 n t) h
int_of-ReadOf (uint16_val n) v t h = ReadOf-exact (pos n) v (ground arith) h
int_of-ReadOf (int32_val n) v t h = ReadOf-exact n v t h
int_of-ReadOf (uint32_val n) v t h = ReadOf-converted (pos n) v h
int_of-ReadOf (int64_val n) v t h = ReadOf-converted n v h
int_of-ReadOf (uint64_val n) v t h = ReadOf-converted (pos n) v h
int_of-ReadOf _ v t h = ground arith

same_type : (a b : SrType) → type_eq a b ≡ true → a ≡ b
same_type a b h = ground (arith, h)

accepts_lem :
    (type : SrType) (d : SrData) → accepts type d ≡ true → (type ≡ unknown_t) ⊎ (type_of d ≡ type)
accepts_lem unknown_t d h = inl refl
accepts_lem type d h = inr (same_type (type_of d) type h)

module _ (type : SrType) (xpath : String) (e : Env) (w : World) where
  typed_of :
      (vals : List SrVal) (v : ℤ)
      → e.items w.calls xpath ≡ vals
      → (srx_get_int type xpath e w).0 ≡ some v
      → (x : SrVal) × (vals ≡ x ∷ [])
        × (accepts type x.content ≡ true)
        × (int_of x.content ≡ some v)
  unfolding srx_get_int ◌>>=◌
  typed_of [] v k h = ground arith
  typed_of (x ∷ []) v k h = (x, refl, ground (arith, h, k), ground (arith, h, k))
  typed_of (x ∷ y ∷ xs) v k h = ground arith

  -- Where the values at the path are in the range of their types: a number is read only where
  -- exactly one value is at the path, and it is an integer of the type that is asked for, or of any
  -- if none is. The number is an `int`, and that of the value if an `int` can hold it.
  pub srx_get_int-typed :
      (v : ℤ)
      → ((x : SrVal) → e.items w.calls xpath ≡ x ∷ [] → InType x.content)
      → (srx_get_int type xpath e w).0 ≡ some v
      → (x : SrVal) × (e.items w.calls xpath ≡ x ∷ [])
        × ((type ≡ unknown_t) ⊎ (type_of x.content ≡ type))
        × ReadOf x.content v
  srx_get_int-typed v typed h =
      let (x, only, fits, kept) = typed_of (e.items w.calls xpath) v refl h in
      (x, only, accepts_lem type x.content fits, int_of-ReadOf x.content v (typed x only) kept)
