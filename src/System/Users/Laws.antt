-- ===== src/System/Users/Laws.antt =====
-- The names of users (src/confd/src/confd/ietf-system.c, is_valid_username).
use infix_lib.Prelude.{ℕ, String, Bool, true, false, List, [], ◌∷◌, ◌≡◌, refl, arith, ◌=ℕ◌, ◌||◌}
use infix_lib.Text.{has_code, codes}
use infix_lib.System.Users.{all_name_chars, valid_codes, is_valid_username}

-- What separates words, paths and fields: a blank, a slash, a colon, a quote, a dollar sign.
abbrev pub is_special : ℕ → Bool
is_special c = c =ℕ 32 || c =ℕ b'/' || c =ℕ b':' || c =ℕ 39 || c =ℕ b'$'

all_name_chars-has_code :
    (c : ℕ) (cs : List ℕ) → is_special c ≡ true → all_name_chars cs ≡ true → has_code c cs ≡ false
all_name_chars-has_code c [] h v = refl
all_name_chars-has_code c (d ∷ ds) h v =
    let ih : all_name_chars ds ≡ true → has_code c ds ≡ false = all_name_chars-has_code c ds h in
    ground arith

valid_codes-has_code :
    (c : ℕ) (cs : List ℕ) → is_special c ≡ true → valid_codes cs ≡ true → has_code c cs ≡ false
valid_codes-has_code c [] h v = refl
valid_codes-has_code c (d ∷ ds) h v =
    let ih : all_name_chars ds ≡ true → has_code c ds ≡ false = all_name_chars-has_code c ds h in
    ground arith

-- A name that is accepted has no blank, slash, colon, quote or dollar sign: the paths and the
-- arguments that it is put into keep their form.
pub is_valid_username-plain :
    (user : String) (c : ℕ)
    → is_valid_username user ≡ true
    → is_special c ≡ true
    → has_code c (codes user) ≡ false
unfolding is_valid_username
is_valid_username-plain user c v h = valid_codes-has_code c (codes user) h v
