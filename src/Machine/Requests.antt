-- ===== src/Machine/Requests.antt =====
-- A request makes one call, whatever errno it leaves.
use infix_lib.Prelude.{ℕ, Option, none, some, ◌∷◌, ◌≡◌, refl}
use infix_lib.Machine.Types.{Env, World, requested}
use infix_lib.Machine.Kernel.{leaving, requesting}
use infix_lib.Machine.Values.{Request}

leaving_lem : (o : Option ℕ) (w : World) → (leaving o w).calls ≡ w.calls
leaving_lem none w = refl
leaving_lem (some n) w = refl

pub requesting_lem :
    (r : Request) (e : Env) (w : World) → (requesting r e w).calls ≡ requested r ∷ w.calls
requesting_lem r e w = leaving_lem (e.reply_errno w.calls r) _
