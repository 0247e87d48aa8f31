-- ===== src/Net/Deps/Order.antt =====
-- The walk over the dependencies records them first (src/net/src/main.c, deps).
use mathlib.Core.List.{append_assoc, append-nil}
use mathlib.Core.Path.{subst}
use infix_lib.Prelude.{
  ℕ, zero, suc, ◌≡◌, refl, ap, sym, ◌∙◌, ℤ, String, ◌<>◌, ◌==◌, Bool, true, ◌&&◌, ◌||◌, Option,
  none, some, List, [], ◌∷◌, ◌++◌, arith, contains, eq_refl, Bool-cases, inl, inr,
}
use infix_lib.Text.{concat}
use infix_lib.Machine.{
  Env, World, History, M, ◌>>=◌, pure, dir, realpath, kept_of, resolving, record_call, asked,
}
use infix_lib.Net.{Net, addif, findif, dir_filter, savedep, save_in, save_line}
use infix_lib.Net.Deps.{deps, visit_at, visit_all, finish, act_on, go_on}
use infix_lib.Net.Deps.Keeps.{Holds, After, After-go_on, held}
use infix_lib.Net.Deps.Once.{Fits, contains-append}

abbrev pub all_in : List String → List String → Bool
all_in [] seen = true
all_in (k ∷ ks) seen = contains k seen && all_in ks seen

-- Each name stands behind those that it depends on.
abbrev pub ordered : (String → List String) → List String → List String → Bool
ordered ds seen [] = true
ordered ds seen (n ∷ ns) = all_in (ds n) seen && ordered ds (seen ++ n ∷ []) ns

ordered-append :
    (ds : String → List String) (seen xs : List String) (n : String)
    → ordered ds seen (xs ++ n ∷ []) ≡ (ordered ds seen xs && all_in (ds n) (seen ++ xs))
ordered-append ds seen [] n = rw (append-nil seen) (ground arith)
ordered-append ds seen (x ∷ xs) n =
    let later = ordered-append ds (seen ++ x ∷ []) xs n in
    let joined : (seen ++ x ∷ []) ++ xs ≡ seen ++ x ∷ xs = append_assoc seen (x ∷ []) xs in
    rw (later, joined) (ground arith)

weaken_at :
    {A : Type 0} (P R : A → Type 0) (o : Option A) → ((r : A) → P r → R r) → Holds P o → Holds R o
weaken_at P R none h p = p
weaken_at P R (some r) h p = h r p

-- The list grows, and stays in order.
pub record Walked (ds : String → List String) (net r : Net) : Type 0 where
  pub grown : (k : String) → findif k net ≡ true → findif k r ≡ true
  pub good : ordered ds [] net.iface_list ≡ true → ordered ds [] r.iface_list ≡ true

-- The directory of an interface, and its link to one that it depends on.
abbrev pub iface_dir : String → String → String
iface_dir gen n = concat (gen ∷ "/" ∷ n ∷ [])

abbrev pub dep_link : String → String → String → String
dep_link gen n k = concat ((iface_dir gen n <> "/deps") ∷ "/" ∷ k ∷ [])

module _ (ds : String → List String) where
  Walked-same : (net r : Net) → r.iface_list ≡ net.iface_list → Walked ds net r
  unfolding findif
  Walked-same net r h = record { grown = λ k f. rw h f; good = λ g. rw h g }

  Walked-trans : (a b c : Net) → Walked ds a b → Walked ds b c → Walked ds a c
  Walked-trans a b c f g = record {
    grown = λ k h. g.grown k (f.grown k h);
    good = λ h. g.good (f.good h);
  }

  Walked-addif :
      (n : String) (net : Net)
      → Fits n
      → all_in (ds n) net.iface_list ≡ true
      → Walked ds net (addif n net) × (findif n (addif n net) ≡ true)
  unfolding addif findif
  Walked-addif n net fits h =
      let now : (k : String)
          → contains k (net.iface_list ++ n ∷ []) ≡ (contains k net.iface_list || n == k) =
        λ k. contains-append k n net.iface_list in
      (
        record {
          grown = λ k f. rw (fits, now k) (ground (arith, f));
          good = λ g. rw (fits, ordered-append ds [] net.iface_list n) (ground (arith, g, h));
        },
        rw (fits, now n) (ground (arith, eq_refl n)),
      )

  module _ (e : Env) where
    savedep-iface_list :
        (ipath : String) (net : Net) (w : World)
        → (savedep ipath net e w).0.iface_list ≡ net.iface_list
    unfolding savedep save_in save_line ◌>>=◌
    savedep-iface_list ipath net w = ground arith

    act_on_lem :
        (ipath n action : String) (net : Net) (w : World)
        → Fits n
        → all_in (ds n) net.iface_list ≡ true
        → let r = (act_on ipath n action net e w).0.1 in Walked ds net r × (findif n r ≡ true)
    unfolding act_on ◌>>=◌
    act_on_lem ipath n action net w fits h = elim (Bool-cases (findif n net)) [
      | inl y ↦ rw y (Walked-same net net refl, y)
      | inr m ↦ rw m (Walked-addif n net fits h)
    ]

    After-finish :
        (ipath n action : String) (net : Net)
        → Fits n
        → all_in (ds n) net.iface_list ≡ true
        → After e
            (λ (r : ℤ × Net). Walked ds net r.1 × (findif n r.1 ≡ true))
            (finish ipath n action net)
    unfolding finish ◌>>=◌
    After-finish ipath n action net fits h = record {
      at = λ w.
          let same = savedep-iface_list ipath net w in
          let saved = (savedep ipath net e w).0 in
          let (walked, found) =
            act_on_lem ipath n action saved (savedep ipath net e w).1 fits
              (ap (all_in (ds n)) same ∙ h) in
          (Walked-trans net saved _ (Walked-same net saved same) walked, found);
    }

  module _ (e : Env) (gen : String)
      (lists : (h : History) (n : String)
        → kept_of dir_filter (e.dir h (iface_dir gen n <> "/deps")) ≡ ds n)
      (links : (h : History) (n k : String)
        → contains k (ds n) ≡ true
        → e.realpath h (dep_link gen n k) ≡ inr (iface_dir gen k))
      (fits : (n k : String) → contains k (ds n) ≡ true → Fits k) where
    -- Each of the names is recorded, and the list has grown in order.
    Recorded : Net → List String → Net → Type 0
    Recorded net ks r = Walked ds net r × (all_in ks r.iface_list ≡ true)

    After-weaken :
        {A : Type 0} (P R : A → Type 0) (m : M (Option A))
        → ((r : A) → P r → R r)
        → After e P m
        → After e R m
    After-weaken P R m h p = record { at = λ w. weaken_at P R _ h (p.at w) }

    resolve_lem :
        (p rp : String) (K : Option String → M (Option Net)) (R : Net → Type 0) (w : World)
        → e.realpath w.calls p ≡ inr rp
        → After e R (K (some rp))
        → Holds R ((realpath p >>= K) e w).0
    unfolding realpath ◌>>=◌
    resolve_lem p rp K R w h after =
        subst (λ o. let r = resolving o (record_call (asked p) w) in Holds R (K r.0 e r.1).0)
          (sym h) (after.at (record_call (asked p) w))

    with_first :
        (k : String) (ks : List String) (net a r : Net)
        → Walked ds net a
        → findif k a ≡ true
        → Recorded a ks r
        → Recorded net (k ∷ ks) r
    unfolding Recorded findif
    with_first k ks net a r walked found (later, rest) =
        (Walked-trans net a r walked later, ground (arith, later.grown k found, rest))

    After-visit_at :
        (visit : String → Net → M (Option (ℤ × Net))) (k rp : String) (net : Net)
        → After e (λ (r : ℤ × Net). Walked ds net r.1 × (findif k r.1 ≡ true)) (visit rp net)
        → After e (λ r. Walked ds net r × (findif k r ≡ true)) (visit_at visit (some rp) net)
    unfolding visit_at pure
    After-visit_at visit k rp net h =
        After-go_on e (λ (r : ℤ × Net). Walked ds net r.1 × (findif k r.1 ≡ true))
          (λ r. Walked ds net r × (findif k r ≡ true)) _ _ h λ r g. record { at = λ w. g }

    After-visits :
        (n : String) (visit : String → String → Net → M (Option (ℤ × Net))) (ks : List String)
        (net : Net)
        → ((k : String) → contains k ks ≡ true → contains k (ds n) ≡ true)
        → ((k : String) (net : Net)
            → Fits k
            → After e
                (λ (r : ℤ × Net). Walked ds net r.1 × (findif k r.1 ≡ true))
                (visit k (iface_dir gen k) net))
        → After e (Recorded net ks) (visit_all visit (iface_dir gen n <> "/deps") ks net)
    unfolding visit_all pure Recorded
    After-visits n visit [] net sub visits = record { at = λ w. (Walked-same net net refl, refl) }
    After-visits n visit (k ∷ ks) net sub visits =
        let path = iface_dir gen n <> "/deps" in
        let here = sub k (ground (arith, eq_refl k)) in
        let P : Net → Type 0 = λ r. Walked ds net r × (findif k r ≡ true) in
        let rest : (a : Net) → P a → After e (Recorded net (k ∷ ks)) (visit_all visit path ks a) =
          λ a g.
            After-weaken (Recorded a ks) (Recorded net (k ∷ ks)) _
              (λ r h. with_first k ks net a r g.0 g.1 h)
              (After-visits n visit ks a (λ j c. sub j (ground (arith, c))) visits) in
        let one = After-visit_at (visit k) k (iface_dir gen k) net (visits k net (fits n k here)) in
        record {
          at = λ w.
              resolve_lem (dep_link gen n k) (iface_dir gen k) _ _ w (links w.calls n k here)
                (After-go_on e P (Recorded net (k ∷ ks)) _ (visit_all visit path ks) one rest);
        }

    -- The interface stands in the list, which has grown in order.
    Reached : Net → String → ℤ × Net → Type 0
    Reached net n r = Walked ds net r.1 × (findif n r.1 ≡ true)

    After-walk :
        (fuel : ℕ) (action n : String) (net : Net)
        → Fits n
        → After e (Reached net n) (deps fuel action n (iface_dir gen n) net)
    unfolding deps dir Recorded Reached ◌>>=◌
    After-walk zero action n net fit = record { at = λ w. tt }
    After-walk (suc fuel) action n net fit =
        let path = iface_dir gen n <> "/deps" in
        let visited =
          After-visits n (deps fuel action) (ds n) net (λ k c. c)
            (λ k a f. After-walk fuel action k a f) in
        let rest : (a : Net)
            → Recorded net (ds n) a
            → After e (Reached net n) (finish (iface_dir gen n) n action a) =
          λ a g.
            After-weaken (Reached a n) (Reached net n) _
              (λ r h. (Walked-trans net a r.1 g.0 h.0, h.1))
              (After-finish e (iface_dir gen n) n action a fit g.1) in
        let whole = After-go_on e (Recorded net (ds n)) (Reached net n) _ _ visited rest in
        record {
          at = λ w.
              subst
                (λ files.
                  Holds (Reached net n)
                    ((visit_all (deps fuel action) path files net >>= λ r.
                        go_on r (finish (iface_dir gen n) n action))
                      e (record_call (asked path) w)).0)
                (sym (lists w.calls n)) (whole.at (record_call (asked path) w));
        }

    -- Where the directory of an interface lists what it depends on, by links to the directories of
    -- these, and all names are shorter than IFNAMSIZ: a walk that ends, whatever its fuel, has its
    -- interface in the list, and a list in which each interface stands behind those that it depends
    -- on stays such a list, so that these are set up first.
    pub deps-ordered :
        (fuel : ℕ) (action n : String) (net : Net) (rc : ℤ) (net' : Net) (w : World)
        → Fits n
        → ordered ds [] net.iface_list ≡ true
        → (deps fuel action n (iface_dir gen n) net e w).0 ≡ some (rc, net')
        → (findif n net' ≡ true) × (ordered ds [] net'.iface_list ≡ true)
    unfolding Reached
    deps-ordered fuel action n net rc net' w fit good r =
        let (walked, found) =
          held (Reached net n) _ (rc, net') r ((After-walk fuel action n net fit).at w) in
        (found, walked.good good)
