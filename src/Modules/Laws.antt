-- ===== src/Modules/Laws.antt =====
-- What is left of the errors of the features (src/confd/src/lib/srx_module.c).
use infix_lib.Prelude.{ℤ, String, true, some, List, [], ◌∷◌, ◌++◌, ◌≡◌, refl, ap, ◌∙◌}
use infix_lib.Machine.Values.{Request, enable_feature, install_module}
use infix_lib.Machine.{Env, World, ◌>>=◌, requesting}
use infix_lib.Srx.{sr_err_ok}
use infix_lib.Modules.{
  SrxModuleRequirement, enable_features, srx_require_module, module_file, is_exists,
}

features_lem :
    (name last : String) (features : List String) (err : ℤ) (e : Env) (w : World)
    (reply : Request → ℤ)
    → ((w : World) (r : Request) → e.reply w.calls r ≡ reply r)
    → (enable_features name (features ++ last ∷ []) err e w).0 ≡ reply (enable_feature name last)
unfolding enable_features ◌>>=◌
features_lem name last [] err e w reply h = h w _
features_lem name last (f ∷ fs) err e w reply h = features_lem name last fs _ e _ reply h

required_lem :
    (mr : SrxModuleRequirement) (fs : List String) (e : Env) (w : World)
    → mr.features ≡ some fs
    → is_exists (e.reply w.calls (install_module (module_file mr) mr.dir fs)) ≡ true
    → (srx_require_module mr e w).0
      ≡ (enable_features mr.name fs sr_err_ok e
          (requesting (install_module (module_file mr) mr.dir fs) e w)).0
unfolding srx_require_module ◌>>=◌
required_lem mr fs e w f x = rw f (rw x refl)

-- Where sysrepo answers alike at all times: for a module that is installed already, the result is
-- the status of its last feature, whatever became of those before it.
srx_require_module-last :
    (mr : SrxModuleRequirement) (features : List String) (last : String) (e : Env) (w : World)
    (reply : Request → ℤ)
    → mr.features ≡ some (features ++ last ∷ [])
    → ((w : World) (r : Request) → e.reply w.calls r ≡ reply r)
    → is_exists (reply (install_module (module_file mr) mr.dir (features ++ last ∷ []))) ≡ true
    → (srx_require_module mr e w).0 ≡ reply (enable_feature mr.name last)
srx_require_module-last mr features last e w reply f h x =
    let replied = h w (install_module (module_file mr) mr.dir (features ++ last ∷ [])) in
    required_lem mr (features ++ last ∷ []) e w f (ap is_exists replied ∙ x)
    ∙ features_lem mr.name last features sr_err_ok e _ reply h
