-- ===== src/Helpers.antt =====
-- The file helpers of src/confd/src/lib/helpers.c. The format and its arguments are the text that
-- they print to; memory for it is always there.
pub mod Numbers
use infix_lib.Prelude.{
  ℕ, true, false, ℤ, pos, negsuc, String, ◌<>◌, Bool, ◌||◌, Option, none, some, ltb_ℤ, ◌^◌, ◌-◌,
}
use infix_lib.Prelude.{if◌then◌else◌}
use infix_lib.Text.{show_int, strtoll}
use infix_lib.Machine.{M, ◌>>=◌, ◌>>◌, pure, fopen, fputs, fclose, fgets, access, set_errno}

-- errno values of Linux
abbrev pub erange : ℕ
erange = 34

unfoldable pub fexistf : String → M Bool
fexistf file = access file

unfoldable pub popenf : String → String → M (Option String)
popenf type cmd = fopen cmd type

unfoldable pub open_file : String → String → M (Option String)
open_file mode file = fopen file mode

abbrev checked : ℤ × Bool → M (Option ℤ)
checked (n, true) = do set_errno erange; pure none
checked (n, false) = pure (some n)

abbrev read_line : String → Option String → M (Option ℤ)
read_line fp none = do fclose fp; pure none
read_line fp (some line) = do fclose fp; set_errno 0; checked (strtoll line)

abbrev read_from : Option String → M (Option ℤ)
read_from none = pure none
read_from (some fp) = do line ← fgets fp; read_line fp line

-- `none` stands for the result -1, which leaves `*value` as it was.
unfoldable pub vreadllf : String → M (Option ℤ)
unfolding open_file strtoll
vreadllf file = do fp ← open_file "r" file; read_from fp

unfoldable pub readllf : String → M (Option ℤ)
unfolding vreadllf
readllf file = vreadllf file

abbrev pub int_max : ℤ
int_max = pos (2 ^ 31 - 1)

abbrev pub int_min : ℤ
int_min = negsuc (2 ^ 31 - 1)

abbrev narrow : Option ℤ → Option ℤ
narrow none = none
narrow (some tmp) = if ltb_ℤ tmp int_min || ltb_ℤ int_max tmp then none else some tmp

unfoldable pub readdf : String → M (Option ℤ)
unfolding vreadllf
readdf file = do tmp ← vreadllf file; pure (narrow tmp)

abbrev write_to : Option String → String → M ℤ
write_to none text = pure (negsuc 0)
write_to (some fp) text = do fputs (text <> "\n") fp; fclose fp

unfoldable pub writedf : ℤ → String → String → M ℤ
unfolding open_file show_int
writedf value mode file = do fp ← open_file mode file; write_to fp (show_int value)

unfoldable pub writesf : String → String → String → M ℤ
unfolding open_file
writesf str mode file = do fp ← open_file mode file; write_to fp str
