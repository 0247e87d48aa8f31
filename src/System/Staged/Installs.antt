-- ===== src/System/Staged/Installs.antt =====
-- From the event CHANGE to the event DONE (src/confd/src/confd/ietf-system.c, change_clock).
use infix_lib.Prelude.{
  ◌≡◌, refl, pos, String, ◌<>◌, Option, none, some, ◌∷◌, is_zero, if◌then◌else◌, eq_refl, ap, ◌∙◌,
}
use text.Mathlib.TextLemmas.{nil-append}
use infix_lib.Machine.Values.{change, done}
use infix_lib.Machine.{Env, World, History, ◌>>=◌, opened, wrote, closed, removed}
use infix_lib.Helpers.{writesf, open_file}
use infix_lib.Srx.{srx_get_str, sr_err_ok, sr_err_sys}
use infix_lib.System.Staged.{next_of}
use infix_lib.Machine.Files.{Store, after, Truthful, set_file, append_to}
use infix_lib.System.Staged.Laws.{Slot, slot, committed}
use infix_lib.System.Staged.Handlers.{handlers-TwoPhase}
use infix_lib.System.Clock.{
  change_clock, stage_clock, stage_timezone, write_timezone, timezone_conf, localtime,
}

abbrev pub timezone_name : String
timezone_name = "/ietf-system:system/clock/timezone-name"

appended :
    (file text : String) (s : Store)
    → set_file file
        (append_to (set_file file (some "") s file) text)
        (set_file file (some "") s)
        file
      ≡ some text
appended file text s = rw (eq_refl file) (ap some (nil-append text))

commit_lem :
    (t : Slot) (text : String)
    → t.next ≡ some text
    → committed t ≡ record { conf = some text; prev = t.conf; next = none }
commit_lem t text h = rw h refl

module _ (e : Env) (s : Store) (truthful : Truthful e s)
    (opens : (h : History) (path mode : String) → e.open_errno h path mode ≡ none)
    (runs : (h : History) (cmd : String) → e.status h cmd ≡ pos 0)
    (closes : (h : History) (fp : String) → e.close_status h fp ≡ pos 0) where
  written_lem :
      (text file : String) (w : World)
      → writesf text "w" file e w ≡ (
        pos 0,
        record w { calls = closed file ∷ wrote file (text <> "\n") ∷ opened file "w" ∷ w.calls },
      )
  unfolding writesf open_file ◌>>=◌
  written_lem text file w =
      rw
        (
          opens w.calls file "w",
          closes (wrote file (text <> "\n") ∷ opened file "w" ∷ w.calls) file,
        )
        refl

  write_lem :
      (timezone : String) (w : World)
      → let r = write_timezone timezone e w in
        (r.0 ≡ sr_err_ok) × (after s r.1.calls (next_of timezone_conf) ≡ some (timezone <> "\n"))
  unfolding write_timezone ◌>>=◌
  write_lem timezone w =
      let file = next_of timezone_conf in
      let made = written_lem timezone file w in
      (
        ap (λ r. if is_zero r.0 then sr_err_ok else sr_err_sys) made,
        ap (λ r. after s r.1.calls file) made ∙ appended file (timezone <> "\n") (after s w.calls),
      )

  stage_lem :
      (timezone : String) (w : World)
      → let r = stage_timezone (some timezone) e w in
        (r.0 ≡ sr_err_ok) × (after s r.1.calls (next_of timezone_conf) ≡ some (timezone <> "\n"))
  unfolding stage_timezone ◌>>=◌
  stage_lem timezone w =
      rw
        (runs (removed (next_of localtime) ∷ w.calls)
          ("ln -s /usr/share/zoneinfo/" <> timezone <> " /etc/localtime+"))
        (write_lem timezone _)

  from_name :
      (name : Option String) (timezone : String) (w : World)
      → name ≡ some timezone
      → let r = stage_timezone name e w in
        (r.0 ≡ sr_err_ok) × (after s r.1.calls (next_of timezone_conf) ≡ some (timezone <> "\n"))
  from_name name timezone w h = rw h (stage_lem timezone w)

  -- Where files can be opened and closed, `ln` succeeds, and access(2) tells the truth about the
  -- files: if the configuration names a time zone, the event CHANGE accepts it, and the event DONE
  -- after it leaves the name in /etc/timezone and the old content in /etc/timezone-.
  pub change_clock-installs :
      (timezone : String) (w : World)
      → (srx_get_str timezone_name e w).0 ≡ some timezone
      → let prepared = change_clock change e w in
        let t = slot timezone_conf (after s (change_clock done e prepared.1).1.calls) in
        (prepared.0 ≡ sr_err_ok)
        × (t.conf ≡ some (timezone <> "\n"))
        × (t.prev ≡ after s w.calls timezone_conf)
        × (t.next ≡ none)
  unfolding change_clock stage_clock ◌>>=◌
  change_clock-installs timezone w h =
      let two = (handlers-TwoPhase e s truthful).0 in
      let v = (change_clock change e w).1 in
      let (fine, staged) = from_name _ timezone (srx_get_str timezone_name e w).1 h in
      let (kept, old) = two.on_change w in
      let moved = two.on_done v in
      let slots : slot timezone_conf (after s (change_clock done e v).1.calls) ≡ record {
        conf = some (timezone <> "\n");
        prev = after s v.calls timezone_conf;
        next = none;
      } =
        moved ∙ commit_lem (slot timezone_conf (after s v.calls)) (timezone <> "\n") staged in
      (fine, ap (λ t. t.conf) slots, ap (λ t. t.prev) slots ∙ kept, ap (λ t. t.next) slots)
