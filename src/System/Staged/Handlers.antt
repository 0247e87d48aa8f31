-- ===== src/System/Staged/Handlers.antt =====
-- The handlers of the clock, of NTP and of DNS as transactions over their files
-- (src/confd/src/confd/ietf-system.c, change_clock, change_ntp and change_dns).
use infix_lib.Prelude.{
  ℤ, ◌≡◌, refl, String, ◌==◌, false, Option, none, some, List, arith, ◌⊎◌, inl, inr, eq_refl,
}
use infix_lib.Machine.Values.{SrVal, Event, change, done, abort}
use infix_lib.Machine.{Env, World, M, ◌>>=◌, ◌>>◌, pure, remove}
use infix_lib.Helpers.{writesf, open_file}
use infix_lib.Srx.{sr_err_ok}
use infix_lib.System.Staged.{install, prev_of, next_of}
use infix_lib.Machine.Files.{
  Store, Leaves, Leaves-open, Leaves-bind, set_file, leave_rules, after, Truthful,
}
use infix_lib.System.Staged.Reads.{read_rules}
use infix_lib.System.Staged.Laws.{Apart, slot, committed, commit-slot, LeavesAll}
use infix_lib.System.Clock.{
  change_clock, stage_clock, stage_timezone, write_timezone, timezone_conf, localtime,
}
use infix_lib.System.Ntp.{
  change_ntp, stage_ntp, stage_servers, write_chrony, restart_chrony, chrony_conf,
}
use infix_lib.System.Dns.{
  change_dns, stage_dns, stage_resolv, close_resolv, update_resolv, resolv_conf,
}
use infix_lib.System.Staged.Writes.{Leaves-put_servers, Leaves-put_settings, Leaves-write_resolv}

-- A handler keeps the file in place, and the one that it replaced, until the event DONE. That
-- puts the prepared file in place, if there is one; ABORT drops it.
pub record TwoPhase (e : Env) (s : Store) (name : String) (handler : Event → M ℤ) : Type 0 where
  pub on_change :
      (w : World)
      → let t = slot name (after s (handler change e w).1.calls) in
        (t.conf ≡ after s w.calls name) × (t.prev ≡ after s w.calls (prev_of name))
  pub on_done :
      (w : World)
      → slot name (after s (handler done e w).1.calls) ≡ committed (slot name (after s w.calls))
  pub on_abort :
      (w : World)
      → slot name (after s (handler abort e w).1.calls)
        ≡ record (slot name (after s w.calls)) { next = none }

module _ (s : Store) (q : String) where
  Leaves-install :
      (conf : String)
      → conf == q ≡ false
      → prev_of conf == q ≡ false
      → next_of conf == q ≡ false
      → Leaves s q (install conf)
  unfolding install
  Leaves-install conf h g k = search leave_rules

  Leaves-write_timezone :
      (timezone : String)
      → next_of timezone_conf == q ≡ false
      → Leaves s q (write_timezone timezone)
  unfolding write_timezone writesf open_file
  Leaves-write_timezone timezone h = search leave_rules depth 9

  Leaves-stage_timezone :
      (timezone : Option String)
      → next_of timezone_conf == q ≡ false
      → next_of localtime == q ≡ false
      → Leaves s q (stage_timezone timezone)
  unfolding stage_timezone
  Leaves-stage_timezone none h k = search leave_rules
  Leaves-stage_timezone (some timezone) h k = search (leave_rules, Leaves-write_timezone)

  Leaves-stage_clock :
      next_of timezone_conf == q ≡ false → next_of localtime == q ≡ false → Leaves s q stage_clock
  unfolding stage_clock
  Leaves-stage_clock h k = search (read_rules, Leaves-stage_timezone)

  Leaves-write_chrony :
      (vals : List SrVal) (fp : String)
      → next_of chrony_conf == q ≡ false
      → fp == q ≡ false
      → Leaves s q (write_chrony vals (some fp))
  unfolding write_chrony
  Leaves-write_chrony vals fp h g =
      search (leave_rules, Leaves-put_servers, Leaves-put_settings) depth 9

  Leaves-stage_servers :
      (vals : ℤ ⊎ List SrVal) → next_of chrony_conf == q ≡ false → Leaves s q (stage_servers vals)
  unfolding stage_servers write_chrony
  Leaves-stage_servers (inl rc) h = search leave_rules
  Leaves-stage_servers (inr vals) h =
      Leaves-open s q (next_of chrony_conf) "w" _ h (search leave_rules)
        (Leaves-write_chrony vals (next_of chrony_conf) h h)

  Leaves-stage_ntp : next_of chrony_conf == q ≡ false → Leaves s q stage_ntp
  unfolding stage_ntp
  Leaves-stage_ntp h = search (leave_rules, Leaves-stage_servers)

  Leaves-close_resolv :
      (fp : String) (rc : ℤ) → next_of resolv_conf == q ≡ false → Leaves s q (close_resolv fp rc)
  unfolding close_resolv
  Leaves-close_resolv fp rc h = search leave_rules

  Leaves-stage_resolv :
      (fp : String)
      → next_of resolv_conf == q ≡ false
      → fp == q ≡ false
      → Leaves s q (stage_resolv (some fp))
  unfolding stage_resolv
  Leaves-stage_resolv fp h g = search (leave_rules, Leaves-write_resolv, Leaves-close_resolv)

  Leaves-stage_dns : next_of resolv_conf == q ≡ false → Leaves s q stage_dns
  unfolding stage_dns stage_resolv
  Leaves-stage_dns h =
      Leaves-open s q (next_of resolv_conf) "w" _ h (search leave_rules)
        (Leaves-stage_resolv (next_of resolv_conf) h h)

  Leaves-restart_chrony : Leaves s q restart_chrony
  unfolding restart_chrony
  Leaves-restart_chrony = search read_rules

  Leaves-update_resolv : Leaves s q update_resolv
  unfolding update_resolv
  Leaves-update_resolv = search read_rules

timezone_Apart : Apart timezone_conf
timezone_Apart = record {
  conf_prev = refl;
  conf_next = refl;
  prev_conf = refl;
  prev_next = refl;
  next_conf = refl;
  next_prev = refl;
}

chrony_Apart : Apart chrony_conf
chrony_Apart = record {
  conf_prev = refl;
  conf_next = refl;
  prev_conf = refl;
  prev_next = refl;
  next_conf = refl;
  next_prev = refl;
}

resolv_Apart : Apart resolv_conf
resolv_Apart = record {
  conf_prev = refl;
  conf_next = refl;
  prev_conf = refl;
  prev_next = refl;
  next_conf = refl;
  next_prev = refl;
}

Leaves-zone : (s : Store) → LeavesAll s timezone_conf (install localtime >> pure sr_err_ok)
Leaves-zone s = (
  Leaves-bind s _ _ _ (Leaves-install s timezone_conf localtime refl refl refl)
      λ _. search leave_rules,
  Leaves-bind s _ _ _ (Leaves-install s (prev_of timezone_conf) localtime refl refl refl)
      λ _. search leave_rules,
  Leaves-bind s _ _ _ (Leaves-install s (next_of timezone_conf) localtime refl refl refl)
      λ _. search leave_rules,
)

-- Dropping the prepared file leaves the two others.
dropped :
    (conf : String) (s : Store)
    → Apart conf
    → slot conf (set_file (next_of conf) none s) ≡ record (slot conf s) { next = none }
dropped conf s a = ground (arith, eq_refl (next_of conf), a.next_conf, a.next_prev)

module _ (e : Env) (s : Store) (truthful : Truthful e s) where
  change_clock-TwoPhase : TwoPhase e s timezone_conf change_clock
  unfolding change_clock remove ◌>>=◌
  change_clock-TwoPhase = record {
    on_change = λ w. (
      (Leaves-stage_clock s timezone_conf refl refl).at e w,
      (Leaves-stage_clock s (prev_of timezone_conf) refl refl).at e w,
    );
    on_done = commit-slot e s truthful timezone_conf timezone_Apart _ (Leaves-zone s);
    on_abort = λ w. dropped timezone_conf (after s w.calls) timezone_Apart;
  }

  change_ntp-TwoPhase : TwoPhase e s chrony_conf change_ntp
  unfolding change_ntp remove ◌>>=◌
  change_ntp-TwoPhase = record {
    on_change = λ w. (
      (Leaves-stage_ntp s chrony_conf refl).at e w,
      (Leaves-stage_ntp s (prev_of chrony_conf) refl).at e w,
    );
    on_done =
        commit-slot e s truthful chrony_conf chrony_Apart restart_chrony
          (Leaves-restart_chrony s _, Leaves-restart_chrony s _, Leaves-restart_chrony s _);
    on_abort = λ w. dropped chrony_conf (after s w.calls) chrony_Apart;
  }

  change_dns-TwoPhase : TwoPhase e s resolv_conf change_dns
  unfolding change_dns remove ◌>>=◌
  change_dns-TwoPhase = record {
    on_change = λ w. (
      (Leaves-stage_dns s resolv_conf refl).at e w,
      (Leaves-stage_dns s (prev_of resolv_conf) refl).at e w,
    );
    on_done =
        commit-slot e s truthful resolv_conf resolv_Apart update_resolv
          (Leaves-update_resolv s _, Leaves-update_resolv s _, Leaves-update_resolv s _);
    on_abort = λ w. dropped resolv_conf (after s w.calls) resolv_Apart;
  }

  -- Where access(2) tells the truth about the files, the handlers of the clock, of NTP and of DNS
  -- are transactions over their files: CHANGE keeps the file in place and its predecessor, whatever
  -- fails; DONE puts the prepared file in place and keeps the old one as the predecessor, or, if
  -- none is prepared, changes nothing of the three; ABORT drops the prepared file alone.
  pub handlers-TwoPhase :
      TwoPhase e s timezone_conf change_clock
      × TwoPhase e s chrony_conf change_ntp
      × TwoPhase e s resolv_conf change_dns
  handlers-TwoPhase = (change_clock-TwoPhase, change_ntp-TwoPhase, change_dns-TwoPhase)
