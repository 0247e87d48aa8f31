-- ===== src/Text.antt =====
-- The parts of C's string and number formatting that the sources use: printf's `%d`, `%u` and
-- `%02u`, strtoll, rindex, strlcpy, strstr and the character classes. A text is a native `String`
-- where it is compared or joined, and its list of codes where it is walked.
pub mod Decimal
pub mod Equal
use Prim.Native.Char.{code}
use Prim.Native.String.{len, slice}
use text.Mathlib.Text.{starts_with}
use infix_lib.Prelude.{ℕ, zero, suc, ◌+◌, ◌-◌, ◌*◌, ◌/◌, ◌%◌, ◌^◌, ℤ, pos, negsuc, String, ◌<>◌}
use infix_lib.Prelude.{Bool, true, false, ◌&&◌, ◌||◌, Option, none, some, List, [], ◌∷◌, ◌=ℕ◌}
use infix_lib.Prelude.{ltb, leb, if◌then◌else◌, or_else, bind}

abbrev pub codes : String → List ℕ
codes String.[] = []
codes (String.◌∷◌ c s) = code c ∷ codes s

abbrev pub has_code : ℕ → List ℕ → Bool
has_code c [] = false
has_code c (d ∷ ds) = d =ℕ c || has_code c ds

-- The texts that a format joins.
abbrev pub concat : List String → String
concat [] = ""
concat (s ∷ []) = s
concat (s ∷ t ∷ ts) = s <> concat (t ∷ ts)

-- One decimal digit.
abbrev pub digit : ℕ → String
digit zero = "0"
digit (suc zero) = "1"
digit (suc (suc zero)) = "2"
digit (suc (suc (suc zero))) = "3"
digit (suc (suc (suc (suc zero)))) = "4"
digit (suc (suc (suc (suc (suc zero))))) = "5"
digit (suc (suc (suc (suc (suc (suc zero)))))) = "6"
digit (suc (suc (suc (suc (suc (suc (suc zero))))))) = "7"
digit (suc (suc (suc (suc (suc (suc (suc (suc zero)))))))) = "8"
digit _ = "9"

-- The digits of `n` in front of a text. The fuel is above `n`, and each round divides by ten.
unfoldable pub show_onto : ℕ → ℕ → String → String
show_onto zero n rest = rest
show_onto (suc fuel) n rest =
    let more = show_onto fuel (n / 10) (digit (n % 10) <> rest) in
    if ltb n 10 then digit n <> rest else more

-- `%u`, and `%d` of a number that is not negative
unfoldable pub show_nat : ℕ → String
unfolding show_onto
show_nat n = show_onto (suc n) n ""

-- `%d`
unfoldable pub show_int : ℤ → String
unfolding show_nat
show_int (pos n) = show_nat n
show_int (negsuc n) = "-" <> show_nat (suc n)

-- `%02u`
unfoldable pub show_two : ℕ → String
unfolding show_nat
show_two n = if ltb n 10 then "0" <> show_nat n else show_nat n

-- rindex(3) and strrchr(3): the text from the last such character on
unfoldable pub rindex : String → ℕ → Option String
rindex String.[] c = none
rindex (String.◌∷◌ ch s) c =
    or_else (rindex s c) (if code ch =ℕ c then some (String.◌∷◌ ch s) else none)

-- strlcpy(3) into a buffer of `size` bytes
unfoldable pub strlcpy : ℕ → String → String
strlcpy size s = if ltb (len s) size then s else slice s 0 (size - 1)

abbrev pub is_digit : ℕ → Bool
is_digit c = leb b'0' c && leb c b'9'

abbrev pub is_alpha : ℕ → Bool
is_alpha c = leb b'a' c && leb c b'z' || leb b'A' c && leb c b'Z'

abbrev pub is_alnum : ℕ → Bool
is_alnum c = is_alpha c || is_digit c

abbrev pub is_space : ℕ → Bool
is_space c = c =ℕ 32 || leb 9 c && leb c 13

-- The value of a digit of strtoll; 36 for what is no digit.
abbrev pub digit_value : ℕ → ℕ
digit_value c =
    if is_digit c
    then c - 48
    else if leb b'a' c && leb c b'z'
    then c - 87
    else if leb b'A' c && leb c b'Z'
    then c - 55
    else 36

unfoldable pub read_digits : ℕ → ℕ → List ℕ → ℕ
read_digits base n [] = n
read_digits base n (c ∷ cs) =
    let more = read_digits base (n * base + digit_value c) cs in
    if ltb (digit_value c) base then more else n

unfoldable pub skip_space : List ℕ → List ℕ
skip_space [] = []
skip_space (c ∷ cs) = let rest = skip_space cs in if is_space c then rest else c ∷ cs

-- The base that the prefix chooses where strtoll is given base 0.
unfoldable pub read_prefixed : List ℕ → ℕ
read_prefixed (c ∷ x ∷ h ∷ cs) =
    if c =ℕ b'0'
    then if (x =ℕ b'x' || x =ℕ b'X') && ltb (digit_value h) 16
      then read_digits 16 0 (h ∷ cs)
      else read_digits 8 0 (c ∷ x ∷ h ∷ cs)
    else read_digits 10 0 (c ∷ x ∷ h ∷ cs)
read_prefixed (c ∷ cs) = if c =ℕ b'0' then read_digits 8 0 (c ∷ cs) else read_digits 10 0 (c ∷ cs)
read_prefixed [] = 0

abbrev llong_max : ℕ
llong_max = 2 ^ 63 - 1

-- The value, and whether it was out of range (errno is ERANGE).
abbrev positive : ℕ → ℤ × Bool
positive n = if leb n llong_max then (pos n, false) else (pos llong_max, true)

abbrev negative : ℕ → ℤ × Bool
negative zero = (pos 0, false)
negative (suc n) = if leb n llong_max then (negsuc n, false) else (negsuc llong_max, true)

unfoldable pub read_signed : List ℕ → ℤ × Bool
unfolding read_prefixed read_digits
read_signed [] = (pos 0, false)
read_signed (c ∷ cs) =
    if c =ℕ b'-'
    then negative (read_prefixed cs)
    else if c =ℕ b'+'
    then positive (read_prefixed cs)
    else positive (read_prefixed (c ∷ cs))

-- `strtoll(line, NULL, 0)`
unfoldable pub strtoll : String → ℤ × Bool
unfolding read_signed skip_space
strtoll line = read_signed (skip_space (codes line))

-- `strtol(text, NULL, 10)`, with the range of a 64-bit `long`
abbrev pub read_decimal : List ℕ → ℤ × Bool
read_decimal [] = (pos 0, false)
read_decimal (c ∷ cs) =
    if c =ℕ b'-'
    then negative (read_digits 10 0 cs)
    else if c =ℕ b'+'
    then positive (read_digits 10 0 cs)
    else positive (read_digits 10 0 (c ∷ cs))

unfoldable pub strtol_10 : String → ℤ
unfolding read_digits skip_space
strtol_10 text = (read_decimal (skip_space (codes text))).0

-- The text up to the first occurrence of the two characters "]/", the bracket included.
unfoldable pub to_bracket : String → Option String
to_bracket String.[] = none
to_bracket (String.◌∷◌ c s) =
    let rest = to_bracket s in
    if starts_with (String.◌∷◌ c s) "]/" then some "]" else bind rest (λ t. some (String.◌∷◌ c t))

-- What stands before the last such character, and what stands after it.
unfoldable pub split_last : String → ℕ → Option (String × String)
split_last String.[] c = none
split_last (String.◌∷◌ ch s) c = elim (split_last s c) [
  | some (before, after) ↦ some (String.◌∷◌ ch before, after)
  | none ↦ if code ch =ℕ c then some ("", s) else none
]
