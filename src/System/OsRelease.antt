-- ===== src/System/OsRelease.antt =====
-- The name and version of the operating system (src/confd/src/confd/ietf-system.c, strip_quotes to
-- os_init, and platform_cb).
pub mod Laws
use Prim.Native.Char.{code}
use text.Mathlib.Text.{starts_with}
use infix_lib.Prelude.{
  ℤ, pos, String, ◌<>◌, Bool, true, false, ◌||◌, ◌=ℕ◌, Option, none, some, List, [], ◌∷◌, is_zero,
  get_or, or_else, if◌then◌else◌,
}
use infix_lib.Text.{is_space, split_last}
use infix_lib.Lyx.Build.{lydx_new_path}
use infix_lib.Machine.Values.{Utsname}
use infix_lib.Machine.{M, ◌>>=◌, ◌>>◌, pure, fopen, fclose, fgets_all, uname}
use infix_lib.Srx.{sr_err_ok, sr_err_internal}
use infix_lib.Interfaces.Addresses.{str}

-- The static variables.
pub record OsInfo : Type 0 where
  pub ver : Option String
  pub rel : Option String
  pub sys : Option String
  pub os : Option String

abbrev pub no_info : OsInfo
no_info = record { ver = none; rel = none; sys = none; os = none }

unfoldable pub skip_quotes : String → String
skip_quotes String.[] = String.[]
skip_quotes (String.◌∷◌ c s) =
    let rest = skip_quotes s in if is_space (code c) || code c =ℕ 34 then rest else String.◌∷◌ c s

-- The text up to its last quote, which is looked for from its second character on.
unfoldable pub cut_quote : String → String
unfolding split_last
cut_quote String.[] = String.[]
cut_quote (String.◌∷◌ c s) = elim (split_last s 34) [
  | some (before, behind) ↦ String.◌∷◌ c before
  | none ↦ String.◌∷◌ c s
]

unfoldable pub strip_quotes : String → String
unfolding skip_quotes cut_quote
strip_quotes text = cut_quote (skip_quotes text)

-- What stands behind the first `=`.
unfoldable pub after_equals : String → Option String
after_equals String.[] = none
after_equals (String.◌∷◌ c s) = let rest = after_equals s in if code c =ℕ b'=' then some s else rest

abbrev pub stripped : Option String → Option String → Option String
stripped none var = var
stripped (some text) var = some (strip_quotes text)

unfoldable pub setvar : String → String → Option String → Option String
unfolding after_equals strip_quotes
setvar line nm var = if starts_with line nm then stripped (after_equals line) var else var

-- `line[strlen(line) - 1] = 0`
unfoldable pub drop_last : String → String
drop_last String.[] = String.[]
drop_last (String.◌∷◌ c String.[]) = String.[]
drop_last (String.◌∷◌ c (String.◌∷◌ d s)) = String.◌∷◌ c (drop_last (String.◌∷◌ d s))

unfoldable pub read_info : String → OsInfo → OsInfo
unfolding setvar
read_info line info = record {
  os = setvar line "NAME" info.os;
  ver = setvar line "VERSION_ID" info.ver;
  rel = setvar line "BUILD_ID" info.rel;
  sys = setvar line "ARCHITECTURE" info.sys;
}

unfoldable pub read_lines : List String → OsInfo → OsInfo
unfolding read_info drop_last
read_lines [] info = info
read_lines (line ∷ lines) info = read_lines lines (read_info (drop_last line) info)

abbrev pub from_uname : Option Utsname → OsInfo
from_uname none = no_info
from_uname (some uts) = record {
  os = some uts.sysname;
  ver = some uts.release;
  rel = some uts.release;
  sys = some uts.machine;
}

unfoldable pub read_release : OsInfo → Option String → M OsInfo
unfolding read_lines
read_release info none = pure info
read_release info (some fp) = do lines ← fgets_all fp 80; fclose fp; pure (read_lines lines info)

unfoldable pub open_release : Option String → M (Option String)
open_release (some fp) = pure (some fp)
open_release none = fopen "/usr/lib/os-release" "r"

unfoldable pub os_init : M OsInfo
unfolding read_release open_release
os_init = do
  uts ← uname
  first ← fopen "/etc/os-release" "r"
  fp ← open_release first
  read_release (from_uname uts) fp

abbrev pub platform_path : String
platform_path = "/ietf-system:system-state/platform"

unfoldable pub platform_nodes : Bool → List (String × Option String) → M ℤ
unfolding lydx_new_path
platform_nodes first [] = pure sr_err_ok
platform_nodes first ((node, val) ∷ nodes) = do
  rc ← lydx_new_path first platform_path node (str val)
  if is_zero rc then platform_nodes false nodes else pure sr_err_internal

unfoldable pub platform_cb : OsInfo → M ℤ
unfolding platform_nodes
platform_cb info = platform_nodes true (
    ("os-name", info.os)
    ∷ ("os-release", info.rel)
    ∷ ("os-version", info.ver)
    ∷ ("machine", info.sys)
    ∷ [])
