-- ===== src/Dagger/Streams.antt =====
-- Which streams the operations of src/confd/src/confd/dagger.c open and close.
use infix_lib.Prelude.{
  ◌+◌, ◌≡◌, ℕ, ℤ, String, Option, none, some, arith, ◌<>◌, ◌∷◌, ◌&&◌, refl, is_zero, is_some, not,
  if◌then◌else◌,
}
use infix_lib.Machine.{Env, World, ◌>>=◌, pure, ran, record_call, fopen}
use infix_lib.Machine.Streams.{Balanced, Closes, Opens, opens, closes, one_open, stream_rules}
use infix_lib.Machine.Streams.{Balanced-bind, Opens-fopen}
use infix_lib.Helpers.{readdf, vreadllf}
use infix_lib.Dagger.{
  dagger_add_dep, dagger_add_node, dagger_skip_iface, dagger_should_skip, Dagger, put_header, kept,
  prepare, dagger_fopen, dagger_fopen_next, dagger_fopen_current, finish_claim, dagger_abandon,
  dagger_evolve, dagger_evolve_or_abandon, dagger_claim, claim_opened, claim_current, claim_next,
  no_dagger,
}

module _ (p : String) where
  Balanced-put_header : (text fp : String) → Balanced p (put_header text fp)
  unfolding put_header
  Balanced-put_header text fp = search stream_rules

  -- A script that was opened is handed over, and one that is not is closed again.
  pub Opens-dagger_fopen :
      (d : Dagger) (gen : ℤ) (action node : String) (prio : ℕ) (script : String)
      → Opens p (dagger_fopen d gen action node prio script)
  unfolding dagger_fopen prepare kept put_header ◌>>=◌
  Opens-dagger_fopen d gen action node prio script = record { at = λ e w. ground arith }

  pub Opens-dagger_fopen_next :
      (d : Dagger) (action node : String) (prio : ℕ) (script : String)
      → Opens p (dagger_fopen_next d action node prio script)
  unfolding dagger_fopen_next
  Opens-dagger_fopen_next d action node prio script =
      Opens-dagger_fopen d d.next action node prio script

  pub Opens-dagger_fopen_current :
      (d : Dagger) (action node : String) (prio : ℕ) (script : String)
      → Opens p (dagger_fopen_current d action node prio script)
  unfolding dagger_fopen_current ◌>>=◌
  Opens-dagger_fopen_current d action node prio script = record {
    at = λ e w. ground (arith, (Opens-dagger_fopen d d.current action node prio script).at e w);
  }

  pub Balanced-dagger_add_dep :
      (d : Dagger) (depender dependee : String) → Balanced p (dagger_add_dep d depender dependee)
  unfolding dagger_add_dep
  Balanced-dagger_add_dep d depender dependee = search stream_rules

  pub Balanced-dagger_add_node : (d : Dagger) (node : String) → Balanced p (dagger_add_node d node)
  unfolding dagger_add_node
  Balanced-dagger_add_node d node = search stream_rules

  pub Balanced-dagger_skip_iface :
      (d : Dagger) (ifname : String) → Balanced p (dagger_skip_iface d ifname)
  unfolding dagger_skip_iface
  Balanced-dagger_skip_iface d ifname = search stream_rules

  pub Balanced-dagger_should_skip :
      (d : Dagger) (ifname : String) → Balanced p (dagger_should_skip d ifname)
  unfolding dagger_should_skip
  Balanced-dagger_should_skip d ifname = search stream_rules

  Balanced-readdf : (file : String) → Balanced p (readdf file)
  unfolding readdf vreadllf ◌>>=◌
  Balanced-readdf file = record { at = λ e w. ground arith }

  Balanced-claim_next : (d : Dagger) (path : String) → Balanced p (claim_next d path)
  unfolding claim_next
  Balanced-claim_next d path = search stream_rules

  Balanced-claim_current :
      (d : Dagger) (path : String) (o : Option ℤ) → Balanced p (claim_current d path o)
  unfolding claim_current
  Balanced-claim_current d path none = Balanced-claim_next _ path
  Balanced-claim_current d path (some n) = search (stream_rules, Balanced-claim_next)

  pub Closes-dagger_abandon :
      (d : Dagger) {fp : String} → d.next_fp ≡ some fp → Closes p fp (dagger_abandon d)
  unfolding dagger_abandon finish_claim ◌>>=◌
  Closes-dagger_abandon d h = record { at = λ e w. ground arith }

  pub Closes-dagger_evolve_or_abandon :
      (d : Dagger) {fp : String} → d.next_fp ≡ some fp → Closes p fp (dagger_evolve_or_abandon d)
  unfolding dagger_evolve_or_abandon dagger_evolve finish_claim ◌>>=◌
  Closes-dagger_evolve_or_abandon d h = record { at = λ e w. ground arith }

  next_fp-claim_current :
      (d : Dagger) (path : String) (o : Option ℤ) (e : Env) (w : World)
      → (claim_current d path o e w).0.1.next_fp ≡ d.next_fp
  unfolding claim_current claim_next ◌>>=◌
  next_fp-claim_current d path none e w = ground arith
  next_fp-claim_current d path (some n) e w = ground arith

  Balanced-claim_locked :
      (d : Dagger) (path : String)
      → Balanced p (readdf (path <> "/current") >>= claim_current d path)
  Balanced-claim_locked d path =
      Balanced-bind p (readdf (path <> "/current")) (claim_current d path)
        (Balanced-readdf (path <> "/current")) (Balanced-claim_current d path)

  claim_opened-lock :
      (path : String) (o : Option String) (e : Env) (w : World)
      → let r = claim_opened path o e w in
        opens p r.1.calls + closes p w.calls + one_open p o
        ≡ opens p w.calls + closes p r.1.calls + one_open p r.0.1.next_fp
  unfolding claim_opened pure
  claim_opened-lock path none e w = ground arith
  claim_opened-lock path (some fp) e w =
      let d : Dagger = record no_dagger { next_fp = some fp } in
      let (c, w') = readdf (path <> "/current") e w in
      unfold ◌>>=◌ in
      rw (next_fp-claim_current d path c e w')
        (omega (arith, (Balanced-claim_locked d path).at e w))

  next_fp-claim_opened :
      (path : String) (o : Option String) (e : Env) (w : World)
      → (claim_opened path o e w).0.1.next_fp ≡ o
  unfolding claim_opened pure ◌>>=◌
  next_fp-claim_opened path none e w = refl
  next_fp-claim_opened path (some fp) e w =
      next_fp-claim_current (record no_dagger { next_fp = some fp }) path _ e _

  -- However a claim ends, `next_fp` is the lock file <path>/next if mkdir succeeded and the file
  -- could be created, and NULL otherwise; and what the claim leaves open is that stream and no
  -- other. So a claim that fails after it took the lock leaves the lock file open.
  pub dagger_claim-lock :
      (path : String) (e : Env) (w : World)
      → let r = dagger_claim path e w in
        let mkdir : String = "mkdir -p " <> path in
        let taken =
          is_zero (e.status w.calls mkdir)
          && not (is_some (e.open_errno (ran mkdir ∷ w.calls) (path <> "/next") "wx")) in
        (r.0.1.next_fp ≡ (if taken then some (path <> "/next") else none))
        × (opens p r.1.calls + closes p w.calls
            ≡ opens p w.calls + closes p r.1.calls + one_open p r.0.1.next_fp)
  unfolding dagger_claim ◌>>=◌
  dagger_claim-lock path e w =
      let file : String = path <> "/next" in
      let w₁ = record_call (ran ("mkdir -p " <> path)) w in
      let (o, w₂) = fopen file "wx" e w₁ in
      (
        ground (arith, next_fp-claim_opened path o e w₂),
        ground (arith, claim_opened-lock path o e w₂, (Opens-fopen p file "wx").at e w₁),
      )
