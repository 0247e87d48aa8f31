-- ===== src/System/Datetime/Laws.antt =====
-- Date and time (src/confd/src/confd/ietf-system.c, fmtime and rpc_set_datetime).
use Prim.Native.Char.{code}
use infix_lib.Prelude.{ℕ, zero, suc, ◌+◌, ◌-◌, String, Bool, true, false, some, ◌≡◌, arith, length}
use infix_lib.Text.{codes}
use infix_lib.Machine.{Env, World, ◌>>=◌}
use infix_lib.Srx.{sr_err_ok}
use infix_lib.System.Datetime.{
  is_sign, insert_colon, format_zone, remove_colon, read_format, set_time, rpc_set_datetime,
}

-- The character at that index is the sign of a time zone.
abbrev pub sign_at : ℕ → String → Bool
sign_at i String.[] = false
sign_at zero (String.◌∷◌ c s) = is_sign (code c)
sign_at (suc i) (String.◌∷◌ c s) = sign_at i s

module _ where
  length-insert_colon :
      (i : ℕ) (s : String)
      → length (codes s) ≡ i + 5
      → sign_at i s ≡ true
      → length (codes (insert_colon i s)) ≡ i + 6
  unfolding insert_colon
  length-insert_colon zero String.[] h z = ground arith
  length-insert_colon zero (String.◌∷◌ c String.[]) h z = ground arith
  length-insert_colon zero (String.◌∷◌ c (String.◌∷◌ a String.[])) h z = ground arith
  length-insert_colon zero (String.◌∷◌ c (String.◌∷◌ a (String.◌∷◌ b s))) h z = ground arith
  length-insert_colon (suc i) String.[] h z = ground arith
  length-insert_colon (suc i) (String.◌∷◌ c s) h z =
      let ih = length-insert_colon i s (ground arith) z in ground arith

  remove_colon-insert_colon :
      (i : ℕ) (s : String)
      → length (codes s) ≡ i + 5
      → sign_at i s ≡ true
      → remove_colon i (insert_colon i s) ≡ some s
  unfolding remove_colon insert_colon
  remove_colon-insert_colon zero String.[] h z = ground arith
  remove_colon-insert_colon zero (String.◌∷◌ c String.[]) h z = ground arith
  remove_colon-insert_colon zero (String.◌∷◌ c (String.◌∷◌ a String.[])) h z = ground arith
  remove_colon-insert_colon zero (String.◌∷◌ c (String.◌∷◌ a (String.◌∷◌ b s))) h z = ground arith
  remove_colon-insert_colon (suc i) String.[] h z = ground arith
  remove_colon-insert_colon (suc i) (String.◌∷◌ c s) h z =
      let ih = remove_colon-insert_colon i s (ground arith) z in ground arith

-- A local time of strftime that ends in a numeric time zone, with the colon that the clock reports
-- it with, is read back as that time by the format with a numeric zone, so that a reported time can
-- be set.
pub read_format-format_zone :
    (i : ℕ) (s : String)
    → length (codes s) ≡ i + 5
    → sign_at i s ≡ true
    → read_format (format_zone s) ≡ (s, "%FT%T%z")
unfolding read_format format_zone
read_format-format_zone i s h z =
    let at : length (codes s) - 5 ≡ i = omega (arith, h) in
    let long = length-insert_colon i s h z in
    let before : length (codes (insert_colon i s)) - 6 ≡ i = omega (arith, long) in
    let back = remove_colon-insert_colon i s h z in ground (arith, at, before, back)

-- Once a date has been set, every later call reports success, also where the text cannot be read
-- or the time cannot be set.
rpc_set_datetime-sticky :
    (input : String) (e : Env) (w : World) → (rpc_set_datetime sr_err_ok input e w).0 ≡ sr_err_ok
unfolding rpc_set_datetime set_time ◌>>=◌
rpc_set_datetime-sticky input e w = ground arith
