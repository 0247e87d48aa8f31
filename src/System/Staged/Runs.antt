-- ===== src/System/Staged/Runs.antt =====
-- The events of sysrepo's transactions, one after another, at the handlers of the clock,
-- of NTP and of DNS (src/confd/src/confd/ietf-system.c, change_clock, change_ntp and change_dns).
use infix_lib.Prelude.{
  ℤ, pos, ◌≡◌, refl, String, Bool, true, false, Option, none, some, List, [], ◌∷◌, is_zero, ◌⊎◌,
  inl, inr, ◌∙◌, sym, arith,
}
use mathlib.Core.Path.{subst}
use infix_lib.Machine.Values.{Event, change, done, abort}
use infix_lib.Machine.{Env, World, History, M}
use infix_lib.System.Staged.{next_of}
use infix_lib.Machine.Files.{Store, after, Truthful}
use infix_lib.System.Staged.Laws.{Slot, slot, committed}
use infix_lib.System.Staged.Handlers.{TwoPhase, handlers-TwoPhase}
use infix_lib.System.Staged.Failures.{failed_changes_lem}
use infix_lib.System.Staged.Refused.{change_clock-cleans}
use infix_lib.System.Clock.{change_clock, timezone_conf}
use infix_lib.System.Ntp.{change_ntp, chrony_conf}
use infix_lib.System.Dns.{change_dns, resolv_conf}

-- Whether a change was accepted, and waits for DONE or ABORT.
pub data Phase : Type 0 where
  idle prepared : Phase

-- The contents that were put in place, the newest first.
abbrev pub extended : Option String → List String → List String
extended none versions = versions
extended (some text) versions = text ∷ versions

-- What a sequence of events leaves behind: the phase, the world, and the contents that were put in
-- place. Sysrepo sends DONE or ABORT after a CHANGE that was accepted, and neither after one that
-- was refused. What happens in between may change everything but the three files.
pub data Run (e : Env) (s : Store) (name : String) (handler : Event → M ℤ) (start : World)
    : Phase → World → List String → Type 0 where
  begin : Run e s name handler start idle start []
  accept :
      {w : World} {versions : List String}
      → Run e s name handler start idle w versions
      → is_zero (handler change e w).0 ≡ true
      → Run e s name handler start prepared (handler change e w).1 versions
  refuse :
      {w : World} {versions : List String}
      → Run e s name handler start idle w versions
      → is_zero (handler change e w).0 ≡ false
      → Run e s name handler start idle (handler change e w).1 versions
  commit :
      {w : World} {versions : List String}
      → Run e s name handler start prepared w versions
      → Run e s name handler start idle
          (handler done e w).1
          (extended (after s w.calls (next_of name)) versions)
  roll_back :
      {w : World} {versions : List String}
      → Run e s name handler start prepared w versions
      → Run e s name handler start idle (handler abort e w).1 versions
  meanwhile :
      {p : Phase} {w v : World} {versions : List String}
      → Run e s name handler start p w versions
      → slot name (after s v.calls) ≡ slot name (after s w.calls)
      → Run e s name handler start p v versions

-- The newest content, and the one before it, with what was there at the start.
abbrev pub newest : Slot → List String → Option String
newest t [] = t.conf
newest t (text ∷ versions) = some text

abbrev pub replaced : Slot → List String → Option String
replaced t [] = t.prev
replaced t (text ∷ versions) = newest t versions

-- The files that a sequence of events is to leave.
abbrev pub IsCurrent : Slot → Slot → Phase → List String → Type 0
IsCurrent begun t p versions =
    (t.conf ≡ newest begun versions)
    × (t.prev ≡ replaced begun versions)
    × ((p ≡ prepared) ⊎ (t.next ≡ none))

-- The prepared file in place, and the old one as its predecessor.
commit-IsCurrent :
    (begun t : Slot) (versions : List String)
    → t.conf ≡ newest begun versions
    → t.prev ≡ replaced begun versions
    → IsCurrent begun (committed t) idle (extended t.next versions)
commit-IsCurrent begun t versions h k =
    elim t.next as (λ o. t.next ≡ o → IsCurrent begun (committed t) idle (extended o versions)) [
      | none ↦ λ waits. ground (arith, waits, h, k)
      | some text ↦ λ waits. ground (arith, waits, h, k)
    ]
      refl

not-refused : (b : Bool) (A : Type 0) → b ≡ false → (b ≡ true) ⊎ A → A
not-refused b A h (inl k) = absurd (ground (arith, h, k))
not-refused b A h (inr a) = a

not-prepared : {A : Type 0} → (idle ≡ prepared) ⊎ A → A
not-prepared (inl p) = absurd (ground (arith, p))
not-prepared (inr a) = a

module _ (e : Env) (s : Store) (name : String) (handler : Event → M ℤ)
    (two : TwoPhase e s name handler)
    (cleans : (w : World)
      → after s w.calls (next_of name) ≡ none
      → (is_zero (handler change e w).0 ≡ true)
        ⊎ (after s (handler change e w).1.calls (next_of name) ≡ none))
    (start : World) (fresh : after s start.calls (next_of name) ≡ none) where
  abbrev Current : Phase → World → List String → Type 0
  Current p w versions =
      IsCurrent (slot name (after s start.calls)) (slot name (after s w.calls)) p versions

  Run-Current :
      (p : Phase) (w : World) (versions : List String)
      → Run e s name handler start p w versions
      → Current p w versions
  Run-Current _ _ _ begin = (refl, refl, inr fresh)
  Run-Current _ _ _ (accept {w} {versions} run ok) =
      let (conf, prev, staged) = Run-Current idle w versions run in
      ((two.on_change w).0 ∙ conf, (two.on_change w).1 ∙ prev, inl refl)
  Run-Current _ _ _ (refuse {w} {versions} run failed) =
      let (conf, prev, staged) = Run-Current idle w versions run in
      (
        (two.on_change w).0 ∙ conf,
        (two.on_change w).1 ∙ prev,
        inr (not-refused _ _ failed (cleans w (not-prepared staged))),
      )
  Run-Current _ _ _ (commit {w} {versions} run) =
      let (conf, prev, staged) = Run-Current prepared w versions run in
      subst
        (λ t.
          IsCurrent (slot name (after s start.calls)) t idle
            (extended (after s w.calls (next_of name)) versions))
        (sym (two.on_done w))
        (commit-IsCurrent (slot name (after s start.calls)) (slot name (after s w.calls)) versions
          conf prev)
  Run-Current _ _ _ (roll_back {w} {versions} run) =
      let (conf, prev, staged) = Run-Current prepared w versions run in
      subst (λ t. IsCurrent (slot name (after s start.calls)) t idle versions)
        (sym (two.on_abort w)) (conf, prev, inr refl)
  Run-Current _ _ _ (meanwhile {p} {w} {v} {versions} run same) =
      subst (λ t. IsCurrent (slot name (after s start.calls)) t p versions) (sym same)
        (Run-Current p w versions run)

-- The three files that no transaction has prepared at the start.
abbrev pub IsFresh : Store → Type 0
IsFresh t =
    (t (next_of timezone_conf) ≡ none)
    × (t (next_of chrony_conf) ≡ none)
    × (t (next_of resolv_conf) ≡ none)

-- Over every sequence of the events that sysrepo sends, where files can be opened and closed,
-- access(2) tells the truth about them, and no file was prepared at the start: in place is what the
-- last commit put there, beside it what was in place before that commit, and outside of a
-- transaction no prepared file is left. This holds of the clock, of NTP and of the resolver,
-- whatever else fails.
pub transactions-IsCurrent :
    (e : Env) (s : Store) (start : World)
    → Truthful e s
    → ((h : History) (path mode : String) → e.open_errno h path mode ≡ none)
    → ((h : History) (fp : String) → e.close_status h fp ≡ pos 0)
    → IsFresh (after s start.calls)
    → (o p q : Phase) (u v w : World) (zones ntps resolvs : List String)
    → Run e s timezone_conf change_clock start o u zones
    → Run e s chrony_conf change_ntp start p v ntps
    → Run e s resolv_conf change_dns start q w resolvs
    → let begun = after s start.calls in
      IsCurrent (slot timezone_conf begun) (slot timezone_conf (after s u.calls)) o zones
      × IsCurrent (slot chrony_conf begun) (slot chrony_conf (after s v.calls)) p ntps
      × IsCurrent (slot resolv_conf begun) (slot resolv_conf (after s w.calls)) q resolvs
transactions-IsCurrent e s start truthful opens closes fresh o p q u v w zones ntps resolvs clock
      ntp dns =
    let (clock_two, ntp_two, dns_two) = handlers-TwoPhase e s truthful in
    let clean = failed_changes_lem s e opens in
    (
      Run-Current e s timezone_conf change_clock clock_two (change_clock-cleans s e opens closes)
          start fresh.0 o u zones clock,
      Run-Current e s chrony_conf change_ntp ntp_two (λ x h. (clean x).0) start fresh.1 p v ntps
          ntp,
      Run-Current e s resolv_conf change_dns dns_two (λ x h. (clean x).1) start fresh.2 q w resolvs
          dns,
    )
