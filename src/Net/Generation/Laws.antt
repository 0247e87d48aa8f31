-- ===== src/Net/Generation/Laws.antt =====
-- How the activation of a generation ends (src/net/src/main.c, activate_next).
use infix_lib.Prelude.{
  ℕ, ◌<◌, ◌≡◌, ◌≢◌, refl, Bool, false, ℤ, pos, String, ◌<>◌, true, Option, none, some, List, [],
  ◌∷◌, inl, inr, ◌⊎◌, arith, is_some, is_zero, is_zero→eq, if◌then◌else◌, ◌=ℕ◌, ◌+ℤ◌, Bool-cases,
}
use infix_lib.Text.{concat}
use infix_lib.Machine.{
  Env, World, History, M, ◌>>=◌, pure, opened, wrote, closed, removed, ran, opening, fopen,
}
use infix_lib.Net.{Net}
use infix_lib.Net.Deps.{deps, iter_all, iter, go_on}
use infix_lib.Net.Deps.Ends.{Ends, Ends-go_on, Ends-deps, Acyclic}
use infix_lib.Net.Generation.{
  in_dir, rdeps_command, save_gen, save_to, save_rdeps, remove_next, commit, finish_next, activate,
  activate_from, leave_current, take_next, activate_piped, open_bridge, activate_next,
}

save_to_lem :
    (gen buf : String) (o : Option ℕ) (e : Env) (w : World)
    → let a = opening gen "w" o w in
      let r = save_to a.0 buf e a.1 in
      r.0 ≡ pos 0 → r.1.calls ≡ closed gen ∷ wrote gen (buf <> "\n") ∷ opened gen "w" ∷ w.calls
unfolding save_to ◌>>=◌
save_to_lem gen buf none e w h = ground arith
save_to_lem gen buf (some n) e w h = ground arith

-- The calls that save the number of a generation.
abbrev pub number_saved : String → String → History → History
number_saved gen next h = closed gen ∷ wrote gen (next <> "\n") ∷ opened gen "w" ∷ h

commit_lem :
    (dir next : String) (e : Env) (w : World)
    → let r = commit dir next e w in
      let gen = in_dir dir "gen" in
      r.0 ≡ pos 0
      → (r.1.calls ≡ removed (in_dir dir "next") ∷ number_saved gen next w.calls)
        × (e.remove_status (number_saved gen next w.calls) (in_dir dir "next") ≡ pos 0)
unfolding commit save_gen remove_next ◌>>=◌
commit_lem dir next e w h =
    ground
      (arith, save_to_lem (in_dir dir "gen") next (e.open_errno w.calls (in_dir dir "gen") "w") e w)

-- The end of an activation. After one that failed nothing is done and the status is 1. The status 0
-- says that it succeeded, that then the command that saves the reverse order of the dependencies
-- succeeded, if there are any, that the generation was written to `gen`, and that last of all the
-- removal of `next` succeeded.
pub finish_next_lem :
    (dir next : String) (rc : ℤ) (net : Net) (e : Env) (w : World)
    → let r = finish_next dir next (rc, net) e w in
      let gen = in_dir dir "gen" in
      (rc ≢ pos 0 → r ≡ (pos 1, w))
      × (r.0 ≡ pos 0
          → let h = if net.dep =ℕ 0 then w.calls else ran (rdeps_command dir next) ∷ w.calls in
            (rc ≡ pos 0)
            × ((if net.dep =ℕ 0 then pos 0 else e.status w.calls (rdeps_command dir next)) ≡ pos 0)
            × (r.1.calls ≡ removed (in_dir dir "next") ∷ number_saved gen next h)
            × (e.remove_status (number_saved gen next h) (in_dir dir "next") ≡ pos 0))
unfolding finish_next save_rdeps ◌>>=◌
finish_next_lem dir next rc net e w = (
  λ h. elim (Bool-cases (is_zero rc)) [
    | inl z ↦ ground (arith, h, is_zero→eq rc z)
    | inr z ↦ ground (arith, z)
  ],
  λ h. elim (Bool-cases (is_zero rc)) [
    | inl z ↦
        let saved = save_rdeps dir next e w in
        ground (arith, z, is_zero→eq rc z, commit_lem dir next e w, commit_lem dir next e saved.1)
    | inr z ↦ ground (arith, z)
  ],
)

module _ (e : Env) (rank : String → ℕ) (acyclic : Acyclic e rank) (fuel : ℕ)
    (enough : (path : String) → rank path < fuel) where
  Ends-iter_all :
      (action path : String) (files : List String) (rc : ℤ) (net : Net)
      → Ends e (iter_all fuel action path files rc net)
  unfolding iter_all ◌>>=◌
  Ends-iter_all action path [] rc net = record { at = λ w. refl }
  Ends-iter_all action path (x ∷ xs) rc net = record {
    at = λ w.
        let ipath = concat (path ∷ "/" ∷ x ∷ []) in
        let r = deps fuel action x ipath net e w in
        Ends-go_on e r.0 (λ s. iter_all fuel action path xs (rc +ℤ s.0) s.1) r.1
          ((Ends-deps e rank acyclic fuel action x ipath net (enough ipath)).at w)
          λ s. Ends-iter_all action path xs (rc +ℤ s.0) s.1;
  }

  Ends-bind :
      {A B : Type 0} (m : M (Option A)) (k : A → M (Option B))
      → Ends e m
      → ((a : A) → Ends e (k a))
      → Ends e (m >>= λ r. go_on r k)
  unfolding ◌>>=◌
  Ends-bind m k h hk = record { at = λ w. Ends-go_on e (m e w).0 k (m e w).1 (h.at w) hk }

  Ends-then :
      {A B : Type 0} (m : M A) (k : A → M (Option B)) → ((a : A) → Ends e (k a)) → Ends e (m >>= k)
  unfolding ◌>>=◌
  Ends-then m k hk = record { at = λ w. (hk (m e w).0).at (m e w).1 }

  Ends-pure : {A : Type 0} (a : A) → Ends e (pure (some a))
  unfolding pure
  Ends-pure a = record { at = λ w. refl }

  Ends-iter : (action path : String) (net : Net) → Ends e (iter fuel action path net)
  unfolding iter
  Ends-iter action path net = search (Ends-then, Ends-bind, Ends-pure, Ends-iter_all)

  Ends-activate : (dir gen : String) (net : Net) → Ends e (activate fuel dir gen net)
  unfolding activate
  Ends-activate dir gen net = search (Ends-then, Ends-bind, Ends-pure, Ends-iter)

  Ends-activate_from : (dir next : String) (net : Net) → Ends e (activate_from fuel dir next net)
  unfolding activate_from
  Ends-activate_from dir next net = search (Ends-then, Ends-bind, Ends-pure, Ends-activate)

  Ends-if :
      {A : Type 0} (b : Bool) (m n : M (Option A))
      → Ends e m
      → Ends e n
      → Ends e (if b then m else n)
  Ends-if true m n hm hn = hm
  Ends-if false m n hm hn = hn

  Ends-leave_current :
      (dir next : String) (net : Net) (o : ℕ ⊎ String) → Ends e (leave_current fuel dir next net o)
  unfolding leave_current
  Ends-leave_current dir next net (inl err) = search (Ends-if, Ends-pure, Ends-activate_from)
  Ends-leave_current dir next net (inr curr) =
      search (Ends-if, Ends-then, Ends-pure, Ends-activate_from)

  Ends-take_next : (dir : String) (net : Net) (o : ℕ ⊎ String) → Ends e (take_next fuel dir net o)
  unfolding take_next
  Ends-take_next dir net (inl err) = search Ends-pure
  Ends-take_next dir net (inr next) = search (Ends-then, Ends-leave_current)

  Ends-activate_piped :
      (dir : String) (net : Net) (ip bridge : Option String)
      → Ends e (activate_piped fuel dir net ip bridge)
  unfolding activate_piped
  Ends-activate_piped dir net (some ip) (some bridge) = search (Ends-then, Ends-take_next)
  Ends-activate_piped dir net (some ip) none = search Ends-pure
  Ends-activate_piped dir net none bridge = search Ends-pure

  Ends-open_bridge :
      (dir : String) (net : Net) (ip : Option String) → Ends e (open_bridge fuel dir net ip)
  unfolding open_bridge
  Ends-open_bridge dir net none = search Ends-pure
  Ends-open_bridge dir net (some ip) = search (Ends-then, Ends-activate_piped)

  -- Where the dependencies have no cycle, with fuel above the measure of every directory, the
  -- program ends with an exit status, whatever fails on the way.
  pub activate_next-ends :
      (dir : String) (net : Net) (w : World) → is_some (activate_next fuel dir net e w).0 ≡ true
  unfolding activate_next ◌>>=◌
  activate_next-ends dir net w =
      let r = fopen "ip -batch -" "w" e w in (Ends-open_bridge dir net r.0).at r.1
