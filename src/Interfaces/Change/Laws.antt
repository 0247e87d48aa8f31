-- ===== src/Interfaces/Change/Laws.antt =====
-- A transaction over the interfaces: what the events of ifchange
-- (src/confd/src/confd/ietf-interfaces.c) leave open, and how its steps end.
use infix_lib.Prelude.{
  ◌+◌, ◌≡◌, ◌≢◌, ℤ, pos, String, Option, some, arith, is_zero, is_zero→eq, Bool-cases, inl, inr,
  ◌<>◌, ap, ◌∙◌,
}
use infix_lib.Lyx.Tree.{Forest, Node}
use infix_lib.Machine.Values.{change, done, abort}
use infix_lib.Machine.{Env, World, ◌>>=◌}
use infix_lib.Machine.Streams.{
  Balanced, opens, closes, one_open, Balanced-bind, Balanced-if, Balanced-pure, stream_rules,
}
use infix_lib.Dagger.{Dagger, dagger_claim}
use infix_lib.Dagger.Streams.{
  Closes-dagger_abandon, Closes-dagger_evolve_or_abandon, Balanced-dagger_add_node,
  dagger_claim-lock,
}
use infix_lib.Dagger.Claim.{dagger_claim-ok}
use infix_lib.Srx.{srx_get_diff}
use infix_lib.Interfaces.Addresses.Streams.{Balanced-each}
use infix_lib.Interfaces.Iface.Streams.{netdag_gen_iface-Balanced}
use infix_lib.Interfaces.Change.{
  add_node, netdag_init, gen_iface, gen_all, build_diff, build, build_claimed, ifchange,
}

module _ (p : String) where
  Balanced-add_node : (net : Dagger) (n : Node) → Balanced p (add_node net n)
  unfolding add_node
  Balanced-add_node net n = search (stream_rules, Balanced-dagger_add_node)

  Balanced-netdag_init :
      (net : Dagger) (cifs difs : Option Node) → Balanced p (netdag_init net cifs difs)
  unfolding netdag_init
  Balanced-netdag_init net cifs difs =
      Balanced-bind p _ _ (Balanced-each p _ _ (Balanced-add_node net)) λ err.
        Balanced-if p _ _ _ (Balanced-each p _ _ (Balanced-add_node net)) (Balanced-pure p err)

  Balanced-gen_iface :
      (net : Dagger) (cifs : Option Node) (n : Node) → Balanced p (gen_iface net cifs n)
  unfolding gen_iface
  Balanced-gen_iface net cifs n = netdag_gen_iface-Balanced p net _ _

  Balanced-gen_all : (net : Dagger) (cifs difs : Option Node) → Balanced p (gen_all net cifs difs)
  unfolding gen_all
  Balanced-gen_all net cifs difs = Balanced-bind p _ _ (Balanced-netdag_init net cifs difs) λ err.
      Balanced-if p _ _ _ (Balanced-each p _ _ (Balanced-gen_iface net cifs)) (Balanced-pure p err)

  Balanced-srx_get_diff : Balanced p srx_get_diff
  unfolding srx_get_diff
  Balanced-srx_get_diff = search stream_rules

  Balanced-build_diff : (net : Dagger) (cfg : Forest) → Balanced p (build_diff net cfg)
  unfolding build_diff
  Balanced-build_diff net cfg = search (stream_rules, Balanced-srx_get_diff, Balanced-gen_all)

  Balanced-build : (net : Dagger) → Balanced p (build net)
  unfolding build
  Balanced-build net = search (stream_rules, Balanced-build_diff)

  build_claimed-streams :
      (net : Dagger) {fp : String} (e : Env) (w : World)
      → net.next_fp ≡ some fp
      → let r = build_claimed (pos 0, net) e w in
        (r.0.1 ≡ net)
        × (r.0.0 ≡ pos 0
            → opens p r.1.calls + closes p w.calls ≡ opens p w.calls + closes p r.1.calls)
        × (r.0.0 ≢ pos 0
            → opens p r.1.calls + closes p w.calls + one_open p net.next_fp
              ≡ opens p w.calls + closes p r.1.calls)
  unfolding build_claimed ◌>>=◌
  build_claimed-streams net e w h =
      let (err, w₁) = build net e w in
      ground (arith, (Balanced-build net).at e w, (Closes-dagger_abandon p net h).at e w₁)

  claimed-streams :
      (c : ℤ × Dagger) {fp : String} (e : Env) (w : World)
      → c.0 ≡ pos 0
      → c.1.next_fp ≡ some fp
      → let r = build_claimed c e w in
        (r.0.1 ≡ c.1)
        × (r.0.0 ≡ pos 0
            → opens p r.1.calls + closes p w.calls ≡ opens p w.calls + closes p r.1.calls)
        × (r.0.0 ≢ pos 0
            → opens p r.1.calls + closes p w.calls + one_open p c.1.next_fp
              ≡ opens p w.calls + closes p r.1.calls)
  claimed-streams (n, net) e w h k = rw h (build_claimed-streams net e w k)

  failed_claim : (c : ℤ × Dagger) (e : Env) (w : World) → c.0 ≢ pos 0 → build_claimed c e w ≡ (c, w)
  unfolding build_claimed ◌>>=◌
  failed_claim (n, net) e w h = ground (arith, is_zero→eq n)

  after_claim :
      (e : Env) (w : World)
      → let c = dagger_claim "/run/net" e w in
        let r = build_claimed c.0 e c.1 in
        c.0.0 ≡ pos 0
        → (r.0.0 ≡ pos 0
            → opens p r.1.calls + closes p w.calls
              ≡ opens p w.calls + closes p r.1.calls + one_open p r.0.1.next_fp)
          × (r.0.0 ≢ pos 0
              → opens p r.1.calls + closes p w.calls ≡ opens p w.calls + closes p r.1.calls)
  after_claim e w h =
      let c = dagger_claim "/run/net" e w in
      let (same, kept, failed) = claimed-streams c.0 e c.1 h (dagger_claim-ok "/run/net" e w h).2 in
      let lock = (dagger_claim-lock p "/run/net" e w).1 in
      (λ k. rw same (omega (arith, kept k, lock)), λ k. omega (arith, failed k, lock))

  -- The event CHANGE, whatever was open on `p` before: if it succeeds, the lock file of the claim is
  -- what it leaves open; if the claim succeeds and the rest fails, nothing; and if the claim fails,
  -- its error is the result and nothing else is done, so that a lock file which the claim had opened
  -- stays open.
  pub ifchange-change_streams :
      (net : Dagger) (e : Env) (w : World)
      → let r = ifchange change net e w in
        let c = dagger_claim "/run/net" e w in
        (r.0.0 ≡ pos 0
          → opens p r.1.calls + closes p w.calls
            ≡ opens p w.calls + closes p r.1.calls + one_open p r.0.1.next_fp)
        × (c.0.0 ≡ pos 0
            → r.0.0 ≢ pos 0
            → opens p r.1.calls + closes p w.calls ≡ opens p w.calls + closes p r.1.calls)
        × (c.0.0 ≢ pos 0
            → (r ≡ c)
              × (opens p r.1.calls + closes p w.calls
                  ≡ opens p w.calls + closes p r.1.calls + one_open p c.0.1.next_fp))
  unfolding ifchange ◌>>=◌
  ifchange-change_streams net e w =
      let c = dagger_claim "/run/net" e w in
      let lock = (dagger_claim-lock p "/run/net" e w).1 in
      (
        λ k. elim (Bool-cases (is_zero c.0.0)) [
          | inl z ↦ (after_claim e w (is_zero→eq c.0.0 z)).0 k
          | inr z ↦ ground (arith, failed_claim c.0 e c.1 (λ h. ground arith))
        ],
        λ h k. (after_claim e w h).1 k,
        λ h. (failed_claim c.0 e c.1 h, rw (failed_claim c.0 e c.1 h) lock),
      )

  holds_lock :
      (net : Dagger) (e : Env) (w : World)
      → let r = ifchange change net e w in
        r.0.0 ≡ pos 0 → r.0.1.next_fp ≡ some ("/run/net" <> "/next")
  unfolding ifchange ◌>>=◌
  holds_lock net e w h =
      let c = dagger_claim "/run/net" e w in
      elim (Bool-cases (is_zero c.0.0)) [
        | inl z ↦
            let k = dagger_claim-ok "/run/net" e w (is_zero→eq c.0.0 z) in
            ap (λ (d : Dagger). d.next_fp) (claimed-streams c.0 e c.1 (is_zero→eq c.0.0 z) k.2).0
            ∙ k.2
        | inr z ↦ ground (arith, failed_claim c.0 e c.1 (λ g. ground arith))
      ]

  -- A transaction whose CHANGE succeeds closes, by its DONE or its ABORT, each stream on `p` as often
  -- as it opened one.
  pub transaction_streams :
      (net : Dagger) (e : Env) (w : World)
      → let r = ifchange change net e w in
        let d = ifchange done r.0.1 e r.1 in
        let a = ifchange abort r.0.1 e r.1 in
        r.0.0 ≡ pos 0
        → (opens p d.1.calls + closes p w.calls ≡ opens p w.calls + closes p d.1.calls)
          × (opens p a.1.calls + closes p w.calls ≡ opens p w.calls + closes p a.1.calls)
  unfolding ifchange ◌>>=◌
  transaction_streams net e w h =
      let r = ifchange change net e w in
      let fp = holds_lock net e w h in
      let opened = (ifchange-change_streams net e w).0 h in
      (
        ground (arith, opened, fp, (Closes-dagger_evolve_or_abandon p r.0.1 fp).at e r.1),
        ground (arith, opened, fp, (Closes-dagger_abandon p r.0.1 fp).at e r.1),
      )
