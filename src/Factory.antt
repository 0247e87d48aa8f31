-- ===== src/Factory.antt =====
-- The factory reset (src/factory/factory.c). The messages are not modelled. A status of the program
-- that errx(3) or err(3) gives is the result 1.
pub mod Laws
use infix_lib.Prelude.{
  ℕ, ◌-◌, ◌/◌, ◌%◌, ◌^◌, ℤ, pos, negsuc, ltb_ℤ, String, ◌==◌, Bool, true, false, ◌||◌, ◌&&◌, not,
  ◌=ℕ◌, leb, Option, none, some, List, [], ◌∷◌, is_zero, ◌⊎◌, inl, inr, if◌then◌else◌,
}
use text.Mathlib.Text.{starts_with}
use infix_lib.Machine.Values.{mknod, ttyname, getchar, tcgetattr, tcsetattr}
use infix_lib.Machine.{M, ◌>>=◌, ◌>>◌, pure, system, request, request_text, get_errno}

abbrev is_negative : ℤ → Bool
is_negative n = ltb_ℤ n (pos 0)

-- With the terminal's settings changed.
unfoldable pub read_raw : M ℤ
read_raw = do key ← request getchar; request (tcsetattr false); pure key

unfoldable pub set_raw : M ℤ
unfolding read_raw
set_raw = do
  err ← request (tcsetattr true)
  if is_negative err then (do request (tcsetattr false); pure (negsuc 0)) else read_raw

-- The key is narrowed to a char where it is compared.
unfoldable pub rawgetch : M ℤ
unfolding set_raw
rawgetch = do err ← request tcgetattr; if is_negative err then pure (negsuc 0) else set_raw

-- A char is the remainder of an int by 2 ^ 8.
abbrev pub is_yes : ℤ → Bool
is_yes (pos n) = n % 2 ^ 8 =ℕ b'y' || n % 2 ^ 8 =ℕ b'Y'
is_yes (negsuc n) = let c = 2 ^ 8 - 1 - n % 2 ^ 8 in c =ℕ b'y' || c =ℕ b'Y'

unfoldable pub yorn : M Bool
unfolding rawgetch
yorn = do key ← rawgetch; pure (is_yes key)

-- The low 16 bits of a wait status: WEXITSTATUS is the upper byte, the signal the lower seven bits.
abbrev pub low_bits : ℤ → ℕ
low_bits (pos n) = n % 2 ^ 16
low_bits (negsuc n) = 2 ^ 16 - 1 - n % 2 ^ 16

abbrev pub is_signaled : ℕ → Bool
is_signaled status = not (status % 128 =ℕ 0) && not (status % 128 =ℕ 127)

abbrev pub exit_of : ℕ → ℕ
exit_of status = if is_signaled status && (status / 256 =ℕ 0) then 1 else status / 256

unfoldable pub run : String → M ℤ
run cmd = do status ← system cmd; pure (pos (exit_of (low_bits status)))

abbrev pub resetme : String
resetme = "/mnt/cfg/infix/.reset"

-- The exit status of an option that ends the program, or whether to reboot and whether to take
-- each answer for yes.
unfoldable pub read_options : List ℕ → Bool → Bool → ℤ ⊎ (Bool × Bool)
read_options [] reboot assumed = inr (reboot, assumed)
read_options (c ∷ cs) reboot assumed =
    let no_reboot = read_options cs false assumed in
    let assume_yes = read_options cs reboot true in
    if c =ℕ b'h' || c =ℕ b'?'
    then inl (pos 0)
    else if c =ℕ b'r'
    then no_reboot
    else if c =ℕ b'y'
    then assume_yes
    else inl (pos 1)

unfoldable pub confirm : Bool → M Bool
unfolding yorn
confirm assumed = if assumed then pure true else yorn

abbrev pub eexist : ℕ
eexist = 17

abbrev pub enotty : ℕ
enotty = 25

unfoldable pub reboot_if : Bool → Bool → M ℤ
unfolding confirm run
reboot_if false assumed = pure (pos 0)
reboot_if true assumed = do
  agreed ← confirm assumed
  if agreed then run "/sbin/reboot" else pure (pos 0)

unfoldable pub schedule : Bool → Bool → M ℤ
unfolding reboot_if
schedule reboot assumed = do
  err ← request (mknod resetme)
  errno ← get_errno
  if not (is_zero err) && not (errno =ℕ eexist) then pure (pos 1) else reboot_if reboot assumed

unfoldable pub reset : Bool → Bool → M ℤ
unfolding confirm schedule
reset reboot assumed = do
  agreed ← confirm assumed
  if agreed then schedule reboot assumed else pure (pos 0)

-- A login shell has a name that begins with "-".
abbrev pub is_elsewhere : String → Option String → Bool
is_elsewhere arg0 none = false
is_elsewhere arg0 (some tty) = starts_with arg0 "-" && not (tty == "/dev/console")

abbrev pub is_no_tty : Option String → ℕ → Bool
is_no_tty none errno = errno =ℕ enotty
is_no_tty (some tty) errno = false

unfoldable pub start_reset : String → Bool × Bool → M ℤ
unfolding reset
start_reset arg0 (reboot, assumed) = do
  tty ← request_text ttyname
  errno ← get_errno
  if is_elsewhere arg0 tty then pure (pos 1) else reset reboot (assumed || is_no_tty tty errno)

unfoldable pub main_from : String → ℤ ⊎ (Bool × Bool) → M ℤ
unfolding start_reset
main_from arg0 (inl status) = pure status
main_from arg0 (inr chosen) = start_reset arg0 chosen

unfoldable pub main : String → List ℕ → M ℤ
unfolding main_from read_options
main arg0 options = main_from arg0 (read_options options true false)
