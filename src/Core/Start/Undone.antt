-- ===== src/Core/Start/Undone.antt =====
-- The start of the plugin when something fails (src/confd/src/confd/core.c, sr_plugin_init_cb).
use infix_lib.Prelude.{
  ℤ, Bool, true, false, Option, ◌∷◌, ◌≡◌, refl, arith, is_zero, if◌then◌else◌, ◌⊎◌, inl, inr,
}
use infix_lib.Machine.Values.{unsubscribe}
use infix_lib.Machine.{Env, World, History, M, ◌>>=◌, pure, requested}
use infix_lib.Machine.Requests.{requesting_lem}
use infix_lib.Srx.{sr_err_ok}
use infix_lib.System.OsRelease.{OsInfo}
use infix_lib.Core.Start.{undo}

-- The last call gives the subscriptions back.
abbrev pub undone : History → Bool
undone (requested unsubscribe ∷ h) = true
undone h = false

-- The start succeeds, or ends by giving the subscriptions back.
pub record Undoes (m : M (ℤ × Option OsInfo)) : Type 0 where
  pub at : (e : Env) (w : World) → (is_zero (m e w).0.0 ≡ true) ⊎ (undone (m e w).1.calls ≡ true)

Undoes-undo : (rc : ℤ) (info : Option OsInfo) → Undoes (undo rc info)
unfolding undo ◌>>=◌
Undoes-undo rc info = record { at = λ e w. inr (ground (arith, requesting_lem unsubscribe e w)) }

Undoes-ok : (info : Option OsInfo) → Undoes (pure (sr_err_ok, info))
unfolding pure
Undoes-ok info = record { at = λ e w. inl refl }

Undoes-if :
    (b : Bool) (m n : M (ℤ × Option OsInfo)) → Undoes m → Undoes n → Undoes (if b then m else n)
Undoes-if true m n hm hn = hm
Undoes-if false m n hm hn = hn

Undoes-bind :
    {A : Type 0} (m : M A) (f : A → M (ℤ × Option OsInfo))
    → ((a : A) → Undoes (f a))
    → Undoes (m >>= f)
unfolding ◌>>=◌
Undoes-bind m f h = record { at = λ e w. (h (m e w).0).at e (m e w).1 }

ruleset undo_rules = (Undoes-undo, Undoes-ok, Undoes-if, Undoes-bind)
