-- ===== src/Net/Deps/Once.antt =====
-- The walk over the dependencies records each interface once (src/net/src/main.c, deps).
use infix_lib.Prelude.{
  ℕ, ◌≡◌, refl, ℤ, String, ◌==◌, Bool, true, false, not, ◌&&◌, ◌||◌, Option, none, some, List, [],
  ◌∷◌, ◌++◌, arith, contains, eq_refl, eq_iff, zero, suc, ◌<>◌, Bool-cases, inl, inr,
}
use infix_lib.Text.{strlcpy}
use infix_lib.Machine.{Env, World, History, ◌>>=◌, dir}
use infix_lib.Net.{Net, addif, findif, ifnamsiz, dir_filter}
use infix_lib.Net.Deps.{deps, visit_all, finish, act_on}
use infix_lib.Net.Deps.Keeps.{Holds, After, After-deps, After-go_on, held}

-- No name stands twice.
abbrev pub distinct : List String → Bool
distinct [] = true
distinct (x ∷ xs) = not (contains x xs) && distinct xs

pub contains-append :
    (k name : String) (xs : List String)
    → contains k (xs ++ name ∷ []) ≡ (contains k xs || name == k)
contains-append k name [] = ground arith
contains-append k name (x ∷ xs) = ground (arith, contains-append k name xs)

distinct-append :
    (name : String) (xs : List String)
    → contains name xs ≡ false
    → distinct xs ≡ true
    → distinct (xs ++ name ∷ []) ≡ true
distinct-append name [] h d = refl
distinct-append name (x ∷ xs) h d =
    grind (arith, contains-append x name xs, distinct-append name xs, eq_iff)

-- A name that fits into the field `ifname` of the list.
abbrev pub Fits : String → Type 0
Fits name = strlcpy ifnamsiz name ≡ name

trivial : (o : Option Net) → Holds (λ n. n ≡ n) o
trivial none = tt
trivial (some n) = refl

module _ (e : Env)
    (names : (h : History) (path name : String)
      → contains name (e.dir h path) ≡ true
      → Fits name) where
  keeps_distinct :
      (ifname : String) (net : Net)
      → Fits ifname
      → findif ifname net ≡ false
      → distinct net.iface_list ≡ true
      → distinct (addif ifname net).iface_list ≡ true
  unfolding addif findif
  keeps_distinct ifname net fits n d = rw fits (distinct-append ifname net.iface_list n d)

  recorded_at :
      (ipath ifname action : String) (net : Net) (w : World)
      → Fits ifname
      → findif ifname (act_on ipath ifname action net e w).0.1 ≡ true
  unfolding act_on addif findif ◌>>=◌
  recorded_at ipath ifname action net w fits = elim (Bool-cases (findif ifname net)) [
    | inl y ↦ rw y y
    | inr n ↦
        rw (n, fits, contains-append ifname ifname net.iface_list) (ground (arith, eq_refl ifname))
  ]

  After-recorded :
      (fuel : ℕ) (action ifname ipath : String) (net : Net)
      → Fits ifname
      → After e (λ (r : ℤ × Net). findif ifname r.1 ≡ true) (deps fuel action ifname ipath net)
  unfolding deps finish ◌>>=◌
  After-recorded zero action ifname ipath net fits = record { at = λ w. tt }
  After-recorded (suc fuel) action ifname ipath net fits = record {
    at = λ w.
        let d = dir (ipath <> "/deps") dir_filter e w in
        (After-go_on e (λ (n : Net). n ≡ n) (λ (r : ℤ × Net). findif ifname r.1 ≡ true)
            (visit_all (deps fuel action) (ipath <> "/deps") d.0 net) (finish ipath ifname action)
            (record {
              at = λ v. trivial (visit_all (deps fuel action) (ipath <> "/deps") d.0 net e v).0;
            })
            λ n _. record { at = λ v. recorded_at ipath ifname action _ _ fits }).at
          d.1;
  }

  -- Where all names of a directory are shorter than IFNAMSIZ, and none stands twice in the list: a
  -- walk that ends, whatever its fuel, has its interface in the list, and none stands twice in it.
  pub deps-distinct :
      (fuel : ℕ) (action ifname ipath : String) (net : Net) (rc : ℤ) (net' : Net) (w : World)
      → Fits ifname
      → distinct net.iface_list ≡ true
      → (deps fuel action ifname ipath net e w).0 ≡ some (rc, net')
      → (findif ifname net' ≡ true) × (distinct net'.iface_list ≡ true)
  deps-distinct fuel action ifname ipath net rc net' w fits d r = (
    held (λ (r : ℤ × Net). findif ifname r.1 ≡ true) _ (rc, net') r
        ((After-recorded fuel action ifname ipath net fits).at w),
    held (λ (r : ℤ × Net). distinct r.1.iface_list ≡ true) _ (rc, net') r
        ((After-deps e (λ (n : Net). distinct n.iface_list ≡ true) Fits names (λ n k h. h)
            keeps_distinct fuel action ifname ipath net fits d).at
          w),
  )
