-- ===== src/System/Staged/Refused.antt =====
-- What a failed event CHANGE of change_clock leaves behind (src/confd/src/confd/ietf-system.c).
use infix_lib.Prelude.{
  pos, ◌≡◌, refl, ◌∙◌, String, ◌<>◌, true, Option, none, some, ◌∷◌, is_zero, ◌⊎◌, inl, inr,
  Bool-cases,
}
use infix_lib.Machine.Values.{change}
use infix_lib.Machine.{Env, World, History, opened, wrote, removed, ◌>>=◌, pure, remove, system}
use infix_lib.Machine.Files.{Store, after, Leaves}
use infix_lib.Helpers.{writesf, open_file}
use infix_lib.Srx.{srx_get_str}
use infix_lib.System.Staged.{next_of}
use infix_lib.System.Staged.Reads.{read_rules}
use infix_lib.System.Staged.Installs.{timezone_name}
use infix_lib.System.Clock.{
  change_clock, stage_clock, stage_timezone, write_timezone, timezone_conf, localtime,
}

module _ (s : Store) (e : Env)
    (opens : (h : History) (path mode : String) → e.open_errno h path mode ≡ none)
    (closes : (h : History) (fp : String) → e.close_status h fp ≡ pos 0) where
  write_ok : (timezone : String) (w : World) → is_zero (write_timezone timezone e w).0 ≡ true
  unfolding write_timezone writesf open_file ◌>>=◌ pure
  write_ok timezone w =
      let file = next_of timezone_conf in
      rw (opens w.calls file "w")
        (rw (closes (wrote file (timezone <> "\n") ∷ opened file "w" ∷ w.calls) file) refl)

  stage_cleans :
      (timezone : Option String) (w : World)
      → after s w.calls (next_of timezone_conf) ≡ none
      → let r = stage_timezone timezone e w in
        (is_zero r.0 ≡ true) ⊎ (after s r.1.calls (next_of timezone_conf) ≡ none)
  unfolding stage_timezone remove system ◌>>=◌ pure
  stage_cleans none w h = inr h
  stage_cleans (some timezone) w h =
      let cmd = "ln -s /usr/share/zoneinfo/" <> timezone <> " /etc/localtime+" in
      elim (Bool-cases (is_zero (e.status (removed (next_of localtime) ∷ w.calls) cmd))) [
        | inl y ↦ inl (rw y (write_ok timezone _))
        | inr n ↦ inr (rw n h)
      ]

  -- Where files can be opened and closed, a CHANGE of the clock that fails leaves no prepared file,
  -- if there was none before.
  pub change_clock-cleans :
      (w : World)
      → after s w.calls (next_of timezone_conf) ≡ none
      → let r = change_clock change e w in
        (is_zero r.0 ≡ true) ⊎ (after s r.1.calls (next_of timezone_conf) ≡ none)
  unfolding change_clock stage_clock ◌>>=◌
  change_clock-cleans w h =
      let read : Leaves s (next_of timezone_conf) (srx_get_str timezone_name) = search read_rules in
      stage_cleans _ _ (read.at e w ∙ h)
