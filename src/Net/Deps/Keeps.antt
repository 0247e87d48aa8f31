-- ===== src/Net/Deps/Keeps.antt =====
-- The walk over the dependencies of an interface (src/net/src/main.c, deps): what each
-- step keeps, the walk keeps.
use infix_lib.Prelude.{
  ℕ, zero, suc, ◌≡◌, ap, ℤ, String, ◌<>◌, Bool, true, false, Option, none, some, List, [], ◌∷◌,
  arith, contains, inl, inr, Bool-cases, eq_refl,
}
use mathlib.Core.Path.{transport}
use infix_lib.Text.{concat}
use infix_lib.Machine.{Env, World, History, M, ◌>>=◌, pure, kept_of, dir, realpath}
use infix_lib.Net.{Net, addif, findif, savedep, save_in, save_line, dir_filter}
use infix_lib.Net.Deps.{deps, visit_all, visit_at, finish, act_on, go_on}

-- Every entry that a filter keeps was there.
pub kept_lem :
    (keep : String → Bool) (name : String) (files : List String)
    → contains name (kept_of keep files) ≡ true
    → contains name files ≡ true
kept_lem keep name [] h = h
kept_lem keep name (x ∷ xs) h = ground (arith, kept_lem keep name xs)

abbrev pub Holds : {A : Type 0} → (A → Type 0) → Option A → Type 0
Holds P none = Unit {0}
Holds P (some a) = P a

-- The predicate holds of the result, if there is one.
pub record After {A : Type 0} (e : Env) (P : A → Type 0) (m : M (Option A)) : Type 0 where
  pub at : (w : World) → Holds P (m e w).0

pub held : {A : Type 0} (P : A → Type 0) (o : Option A) (a : A) → o ≡ some a → Holds P o → P a
held P o a r h = transport (ap (Holds P) r) h

module _ {A B : Type 0} (e : Env) (P : A → Type 0) (R : B → Type 0) where
  resume :
      (k : A → M (Option B)) (o : Option A) (w : World)
      → Holds P o
      → ((a : A) → P a → After e R (k a))
      → Holds R (go_on o k e w).0
  unfolding go_on pure
  resume k none w h rest = tt
  resume k (some a) w h rest = (rest a h).at w

  pub After-go_on :
      (m : M (Option A)) (k : A → M (Option B))
      → After e P m
      → ((a : A) → P a → After e R (k a))
      → After e R (m >>= λ r. go_on r k)
  unfolding ◌>>=◌
  After-go_on m k h rest = record { at = λ w. resume k (m e w).0 (m e w).1 (h.at w) rest }

-- What holds of the globals before a walk, and of each step that changes them, holds after it.
module _ (e : Env) (P : Net → Type 0) (Q : String → Type 0)
    (names : (h : History) (path name : String) → contains name (e.dir h path) ≡ true → Q name)
    (dep_step : (net : Net) (n : ℕ) → P net → P (record net { dep = n }))
    (add_step : (ifname : String) (net : Net)
      → Q ifname
      → findif ifname net ≡ false
      → P net
      → P (addif ifname net)) where
  save_line_lem :
      (fp ifname : String) (found : Bool) (net : Net) (w : World)
      → P net
      → P (save_line fp ifname found net e w).0
  unfolding save_line ◌>>=◌
  save_line_lem fp ifname true net w h = h
  save_line_lem fp ifname false net w h = dep_step net _ h

  save_in_lem :
      (ifname : String) (fp : Option String) (net : Net) (w : World)
      → P net
      → P (save_in ifname fp net e w).0
  unfolding save_in ◌>>=◌
  save_in_lem ifname none net w h = h
  save_in_lem ifname (some fp) net w h = save_line_lem fp ifname _ net _ h

  savedep_lem : (ipath : String) (net : Net) (w : World) → P net → P (savedep ipath net e w).0
  unfolding savedep ◌>>=◌
  savedep_lem ipath net w h = save_in_lem _ _ net _ h

  act_on_lem :
      (ipath ifname action : String) (net : Net) (w : World)
      → Q ifname
      → P net
      → P (act_on ipath ifname action net e w).0.1
  unfolding act_on ◌>>=◌
  act_on_lem ipath ifname action net w q h = elim (Bool-cases (findif ifname net)) [
    | inl y ↦ rw y h
    | inr n ↦ rw n (add_step ifname net q n h)
  ]

  After-finish :
      (ipath ifname action : String) (net : Net)
      → Q ifname
      → P net
      → After e (λ (r : ℤ × Net). P r.1) (finish ipath ifname action net)
  unfolding finish ◌>>=◌
  After-finish ipath ifname action net q h = record {
    at = λ w. act_on_lem ipath ifname action _ _ q (savedep_lem ipath net w h);
  }

  After-visit_at :
      (visit : String → Net → M (Option (ℤ × Net))) (rp : Option String) (net : Net)
      → ((p : String) → After e (λ (r : ℤ × Net). P r.1) (visit p net))
      → P net
      → After e P (visit_at visit rp net)
  unfolding visit_at pure
  After-visit_at visit none net hv h = record { at = λ w. h }
  After-visit_at visit (some rp) net hv h =
      After-go_on e (λ (r : ℤ × Net). P r.1) P _ _ (hv rp) λ r g. record { at = λ w. g }

  After-visit_all :
      (visit : String → String → Net → M (Option (ℤ × Net))) (path : String) (files : List String)
      (net : Net)
      → ((name p : String) (n : Net)
          → Q name
          → P n
          → After e (λ (r : ℤ × Net). P r.1) (visit name p n))
      → ((name : String) → contains name files ≡ true → Q name)
      → P net
      → After e P (visit_all visit path files net)
  unfolding visit_all ◌>>=◌
  After-visit_all visit path [] net hv hf h = record { at = λ w. h }
  After-visit_all visit path (x ∷ xs) net hv hf h = record {
    at = λ w.
        let v = realpath (concat (path ∷ "/" ∷ x ∷ [])) e w in
        (After-go_on e P P (visit_at (visit x) v.0 net) (visit_all visit path xs)
            (After-visit_at (visit x) v.0 net (λ p. hv x p net (hf x (ground (arith, eq_refl x))) h)
              h)
            λ n g. After-visit_all visit path xs n hv (λ name c. hf name (ground arith)) g).at
          v.1;
  }

  pub After-deps :
      (fuel : ℕ) (action ifname ipath : String) (net : Net)
      → Q ifname
      → P net
      → After e (λ (r : ℤ × Net). P r.1) (deps fuel action ifname ipath net)
  unfolding deps ◌>>=◌
  After-deps zero action ifname ipath net q h = record { at = λ w. tt }
  After-deps (suc fuel) action ifname ipath net q h = record {
    at = λ w.
        let d = dir (ipath <> "/deps") dir_filter e w in
        (After-go_on e P (λ (r : ℤ × Net). P r.1)
            (visit_all (deps fuel action) (ipath <> "/deps") d.0 net) (finish ipath ifname action)
            (After-visit_all (deps fuel action) (ipath <> "/deps") d.0 net
              (λ name p n. After-deps fuel action name p n)
              (λ name c. names w.calls (ipath <> "/deps") name (kept_lem dir_filter name _ c)) h)
            λ n. After-finish ipath ifname action n q).at
          d.1;
  }
