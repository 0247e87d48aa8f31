-- ===== src/Text/Decimal.antt =====
-- Decimal numbers: what `%d` writes is what strtoll reads.
use Prim.Native.Char.{Char, code}
use text.Mathlib.TextLemmas.{cons-append, nil-append, append_assoc}
use infix_lib.Prelude.{
  ℕ, zero, suc, ◌+◌, ◌*◌, ◌/◌, ◌%◌, ◌^◌, ◌<◌, pos, String, ◌<>◌, Bool, true, false, List, [], ◌∷◌,
  ◌≡◌, refl, ap, ◌∙◌, arith, ltb, ◌=ℕ◌, not, ◌&&◌, Bool-cases, inl, inr,
}
use infix_lib.Text.{
  codes, digit, show_onto, show_nat, show_int, read_digits, digit_value, skip_space, read_prefixed,
  read_signed, strtoll, strtol_10, read_decimal, is_digit,
}

codes-cons : (c : Char) (s : String) → codes (String.◌∷◌ c "" <> s) ≡ code c ∷ codes s
codes-cons c s = ap codes (cons-append c "" s ∙ ap (λ t. String.◌∷◌ c t) (nil-append s))

codes-append : (d : ℕ) (s : String) → d < 10 → codes (digit d <> s) ≡ (48 + d) ∷ codes s
codes-append zero s h = codes-cons "0" s
codes-append (suc zero) s h = codes-cons "1" s
codes-append (suc (suc zero)) s h = codes-cons "2" s
codes-append (suc (suc (suc zero))) s h = codes-cons "3" s
codes-append (suc (suc (suc (suc zero)))) s h = codes-cons "4" s
codes-append (suc (suc (suc (suc (suc zero))))) s h = codes-cons "5" s
codes-append (suc (suc (suc (suc (suc (suc zero)))))) s h = codes-cons "6" s
codes-append (suc (suc (suc (suc (suc (suc (suc zero))))))) s h = codes-cons "7" s
codes-append (suc (suc (suc (suc (suc (suc (suc (suc zero)))))))) s h = codes-cons "8" s
codes-append (suc (suc (suc (suc (suc (suc (suc (suc (suc zero))))))))) s h = codes-cons "9" s
codes-append (suc (suc (suc (suc (suc (suc (suc (suc (suc (suc n)))))))))) s h = ground (arith, h)

-- Reading a digit in front of a text.
read-digit :
    (n d : ℕ) (cs : List ℕ)
    → d < 10
    → read_digits 10 n ((48 + d) ∷ cs) ≡ read_digits 10 (n * 10 + d) cs
unfolding read_digits
read-digit n d cs h =
    let small : ltb d 10 ≡ true = ground (arith, h) in
    let value : digit_value (48 + d) ≡ d = ground (arith, h) in ground (arith, small, value)

-- Reading what `show_onto` puts in front of a text.
read-show :
    (fuel n : ℕ) (s : String)
    → n < fuel
    → read_digits 10 0 (codes (show_onto fuel n s)) ≡ read_digits 10 n (codes s)
unfolding show_onto
read-show zero n s h = omega (arith, h)
read-show (suc fuel) n s h = elim (Bool-cases (ltb n 10)) [
  | inl y ↦ rw y (
      ap (read_digits 10 0) (codes-append n s (ground (arith, y)))
      ∙ read-digit 0 n (codes s) (ground (arith, y))
      ∙ ap (λ k. read_digits 10 k (codes s)) (omega arith))
  | inr y ↦ rw y (
      read-show fuel (n / 10) (digit (n % 10) <> s) (ground (arith, y, h))
      ∙ ap (read_digits 10 (n / 10)) (codes-append (n % 10) s (omega arith))
      ∙ read-digit (n / 10) (n % 10) (codes s) (omega arith)
      ∙ ap (λ k. read_digits 10 k (codes s)) (omega arith))
]

-- A text put behind the digits.
show-append : (fuel n : ℕ) (s t : String) → show_onto fuel n s <> t ≡ show_onto fuel n (s <> t)
unfolding show_onto
show-append zero n s t = refl
show-append (suc fuel) n s t = elim (Bool-cases (ltb n 10)) [
  | inl y ↦ rw y (append_assoc (digit n) s t)
  | inr y ↦ rw y (
      show-append fuel (n / 10) (digit (n % 10) <> s) t
      ∙ ap (show_onto fuel (n / 10)) (append_assoc (digit (n % 10)) s t))
]

-- The first digit of a number that is not zero.
abbrev pub leads : List ℕ → Bool
leads [] = false
leads (c ∷ cs) = is_digit c && not (c =ℕ 48)

show-leads :
    (fuel n : ℕ) (s : String) → n < fuel → 0 < n → leads (codes (show_onto fuel n s)) ≡ true
unfolding show_onto
show-leads zero n s h p = ground (arith, h)
show-leads (suc fuel) n s h p = elim (Bool-cases (ltb n 10)) [
  | inl y ↦ rw y (ap leads (codes-append n s (ground (arith, y))) ∙ ground (arith, y, p))
  | inr y ↦
      rw y
        (show-leads fuel (n / 10) (digit (n % 10) <> s) (ground (arith, y, h)) (ground (arith, y)))
]

skip-leads : (cs : List ℕ) → leads cs ≡ true → skip_space cs ≡ cs
unfolding skip_space
skip-leads [] h = refl
skip-leads (c ∷ cs) h = ground (arith, h)

prefixed-leads : (cs : List ℕ) → leads cs ≡ true → read_prefixed cs ≡ read_digits 10 0 cs
unfolding read_prefixed
prefixed-leads [] h = ground (arith, h)
prefixed-leads (c ∷ []) h = ground (arith, h)
prefixed-leads (c ∷ x ∷ []) h = ground (arith, h)
prefixed-leads (c ∷ x ∷ d ∷ cs) h = ground (arith, h)

signed-leads :
    (cs : List ℕ) (n : ℕ)
    → leads cs ≡ true
    → read_prefixed cs ≡ n
    → n < 2 ^ 63
    → read_signed cs ≡ (pos n, false)
unfolding read_signed
signed-leads [] n h r b = ground (arith, h)
signed-leads (c ∷ cs) n h r b = ground (arith, h, r, b)

text_lem :
    (t : String) (n : ℕ)
    → leads (codes t) ≡ true
    → read_digits 10 0 (codes t) ≡ n
    → n < 2 ^ 63
    → strtoll t ≡ (pos n, false)
unfolding strtoll
text_lem t n h r b =
    ap read_signed (skip-leads (codes t) h)
    ∙ signed-leads (codes t) n h (prefixed-leads (codes t) h ∙ r) b

-- The numbers are read back from a line.
pub strtoll-show_int : (n : ℕ) → n < 2 ^ 63 → strtoll (show_int (pos n) <> "\n") ≡ (pos n, false)
unfolding show_nat show_int read_digits strtoll
strtoll-show_int zero h = refl
strtoll-show_int (suc m) h =
    let fuel = suc (suc m) in
    ap strtoll (show-append fuel (suc m) "" "\n")
    ∙ text_lem (show_onto fuel (suc m) ("" <> "\n")) (suc m)
        (show-leads fuel (suc m) ("" <> "\n") (omega arith) (omega arith))
        (read-show fuel (suc m) ("" <> "\n") (omega arith)) h

decimal-leads :
    (cs : List ℕ) (n : ℕ)
    → leads cs ≡ true
    → read_digits 10 0 cs ≡ n
    → n < 2 ^ 63
    → (read_decimal cs).0 ≡ pos n
decimal-leads [] n h r b = ground (arith, h)
decimal-leads (c ∷ cs) n h r b = ground (arith, h, r, b)

decimal_lem :
    (t : String) (n : ℕ)
    → leads (codes t) ≡ true
    → read_digits 10 0 (codes t) ≡ n
    → n < 2 ^ 63
    → strtol_10 t ≡ pos n
unfolding strtol_10
decimal_lem t n h r b =
    ap (λ cs. (read_decimal cs).0) (skip-leads (codes t) h) ∙ decimal-leads (codes t) n h r b

-- The same for strtol with base 10.
pub strtol_10-show_int : (n : ℕ) → n < 2 ^ 63 → strtol_10 (show_int (pos n) <> "\n") ≡ pos n
unfolding show_nat show_int read_digits strtol_10
strtol_10-show_int zero h = refl
strtol_10-show_int (suc m) h =
    let fuel = suc (suc m) in
    ap strtol_10 (show-append fuel (suc m) "" "\n")
    ∙ decimal_lem (show_onto fuel (suc m) ("" <> "\n")) (suc m)
        (show-leads fuel (suc m) ("" <> "\n") (omega arith) (omega arith))
        (read-show fuel (suc m) ("" <> "\n") (omega arith)) h
