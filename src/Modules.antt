-- ===== src/Modules.antt =====
-- Installing the modules that a plugin needs (src/confd/src/lib/srx_module.c). `features` of a
-- requirement is none where the pointer is NULL: C then reads through it if the module is there
-- already; here, no feature is enabled.
pub mod Laws
use infix_lib.Prelude.{
  ℤ, pos, String, ◌<>◌, Option, none, some, List, [], ◌∷◌, get_or, is_zero, ◌=ℕ◌, Bool, true, false,
  if◌then◌else◌,
}
use infix_lib.Text.{concat}
use infix_lib.Machine.Values.{install_module, enable_feature}
use infix_lib.Machine.{M, ◌>>=◌, pure, request}
use infix_lib.Srx.{sr_err_ok}

pub record SrxModuleRequirement : Type 0 where
  pub dir : String
  pub name : String
  pub rev : Option String
  pub features : Option (List String)

abbrev pub is_exists : ℤ → Bool
is_exists (pos n) = n =ℕ 6
is_exists err = false

abbrev pub module_file : SrxModuleRequirement → String
module_file mr = elim mr.rev [
  | none ↦ mr.name <> ".yang"
  | some rev ↦ concat (mr.name ∷ "@" ∷ rev ∷ ".yang" ∷ [])
]

-- Each status replaces the one before it.
unfoldable pub enable_features : String → List String → ℤ → M ℤ
enable_features name [] err = pure err
enable_features name (feature ∷ features) err = do
  err' ← request (enable_feature name feature)
  enable_features name features err'

unfoldable pub srx_require_module : SrxModuleRequirement → M ℤ
unfolding enable_features
srx_require_module mr = do
  err ← request (install_module (module_file mr) mr.dir (get_or mr.features []))
  if is_exists err then enable_features mr.name (get_or mr.features []) sr_err_ok else pure err

unfoldable pub srx_require_modules : List SrxModuleRequirement → M ℤ
unfolding srx_require_module
srx_require_modules [] = pure sr_err_ok
srx_require_modules (mr ∷ mrs) = do
  err ← srx_require_module mr
  if is_zero err then srx_require_modules mrs else pure err
