-- ===== src/Net/Deps/Ends.antt =====
-- The walk over the dependencies ends where they have no cycle (src/net/src/main.c, deps).
use infix_lib.Prelude.{
  ℕ, zero, suc, ◌<◌, ◌≡◌, refl, String, ◌<>◌, true, Option, none, some, List, [], ◌∷◌, ℤ, inl, inr,
  arith, contains, is_some, eq_refl, ◌⊎◌,
}
use infix_lib.Text.{concat}
use infix_lib.Machine.{Env, World, History, M, ◌>>=◌, pure, dir, realpath, resolving}
use infix_lib.Net.{Net, dir_filter}
use infix_lib.Net.Deps.{deps, visit_all, visit_at, finish, go_on}
use infix_lib.Net.Deps.Keeps.{kept_lem}

resolved : (o : ℕ ⊎ String) (w : World) (p : String) → (resolving o w).0 ≡ some p → o ≡ inr p
resolved (inl n) w p h = ground arith
resolved (inr q) w p h = ground arith

module _ (e : Env) where
  -- The action has a result.
  pub record Ends {A : Type 0} (m : M (Option A)) : Type 0 where
    pub at : (w : World) → is_some (m e w).0 ≡ true

  pub Ends-go_on :
      {A B : Type 0} (o : Option A) (k : A → M (Option B)) (w : World)
      → is_some o ≡ true
      → ((a : A) → Ends (k a))
      → is_some (go_on o k e w).0 ≡ true
  unfolding go_on
  Ends-go_on (some a) k w h hk = (hk a).at w
  Ends-go_on none k w h hk = ground arith

  Ends-visit_at :
      (visit : String → Net → M (Option (ℤ × Net))) (rp : Option String) (net : Net)
      → ((p : String) → rp ≡ some p → Ends (visit p net))
      → Ends (visit_at visit rp net)
  unfolding visit_at pure ◌>>=◌
  Ends-visit_at visit none net h = record { at = λ w. refl }
  Ends-visit_at visit (some rp) net h = record {
    at = λ w.
        let r = visit rp net e w in
        Ends-go_on r.0 (λ x. pure (some x.1)) r.1 ((h rp refl).at w) λ x. record { at = λ v. refl };
  }

  Ends-visit_all :
      (visit : String → String → Net → M (Option (ℤ × Net))) (path : String) (files : List String)
      (net : Net)
      → ((h : History) (name p : String) (n : Net)
          → contains name files ≡ true
          → e.realpath h (concat (path ∷ "/" ∷ name ∷ [])) ≡ inr p
          → Ends (visit name p n))
      → Ends (visit_all visit path files net)
  unfolding visit_all realpath ◌>>=◌
  Ends-visit_all visit path [] net h = record { at = λ w. refl }
  Ends-visit_all visit path (x ∷ xs) net h = record {
    at = λ w.
        let v = realpath (concat (path ∷ "/" ∷ x ∷ [])) e w in
        let r = visit_at (visit x) v.0 net e v.1 in
        Ends-go_on r.0 (visit_all visit path xs) r.1
          ((Ends-visit_at (visit x) v.0 net
              λ p g. h w.calls x p net (ground (arith, eq_refl x)) (resolved _ _ p g)).at
            v.1)
          λ n. Ends-visit_all visit path xs n λ g name p m c. h g name p m (ground arith);
  }

-- The dependencies have no cycle: a measure of the directories falls from each to those that the
-- links in it resolve to, whenever they are read.
abbrev pub Acyclic : Env → (String → ℕ) → Type 0
Acyclic e rank =
    (h₁ h₂ : History) (ipath name rp : String)
    → contains name (e.dir h₁ (ipath <> "/deps")) ≡ true
    → e.realpath h₂ (concat ((ipath <> "/deps") ∷ "/" ∷ name ∷ [])) ≡ inr rp
    → rank rp < rank ipath

pub Ends-deps :
    (e : Env) (rank : String → ℕ)
    → Acyclic e rank
    → (fuel : ℕ) (action ifname ipath : String) (net : Net) → rank ipath < fuel
    → Ends e (deps fuel action ifname ipath net)
unfolding deps finish ◌>>=◌
Ends-deps e rank falls zero action ifname ipath net h = ground arith
Ends-deps e rank falls (suc fuel) action ifname ipath net h = record {
  at = λ w.
      let d = dir (ipath <> "/deps") dir_filter e w in
      let r = visit_all (deps fuel action) (ipath <> "/deps") d.0 net e d.1 in
      Ends-go_on e r.0 (finish ipath ifname action) r.1
        ((Ends-visit_all e (deps fuel action) (ipath <> "/deps") d.0 net λ g name p n m c.
            let less = falls w.calls g ipath name p (kept_lem dir_filter name _ m) c in
            Ends-deps e rank falls fuel action name p n (ground (arith, less, h))).at
          d.1)
        λ n. record { at = λ v. refl };
}

-- Where the dependencies have no cycle, a walk ends: fuel above the measure of the directory it
-- starts in gives a result, in every state of the world.
pub deps-ends :
    (e : Env) (rank : String → ℕ)
    → Acyclic e rank
    → (fuel : ℕ) (action ifname ipath : String) (net : Net) (w : World) → rank ipath < fuel
    → is_some (deps fuel action ifname ipath net e w).0 ≡ true
deps-ends e rank falls fuel action ifname ipath net w h =
    (Ends-deps e rank falls fuel action ifname ipath net h).at w
