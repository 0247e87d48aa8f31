-- ===== src/Tests/System.antt =====
-- The system configuration.
use infix_lib.Prelude.{
  ◌≡◌, refl, pos, ◌==◌, true, false, none, some, [], ◌∷◌, is_some, List, String, ◌⊎◌, is_zero,
  if◌then◌else◌,
}
use infix_lib.Text.{has_code, codes}
use infix_lib.Machine.{Env, History, asked, spawned}
use infix_lib.Machine.Values.{Change, created, string_val, change, done}
use infix_lib.System.Staged.{next_of}
use infix_lib.Machine.Files.{Store, after}
use infix_lib.System.Staged.Handlers.{TwoPhase, handlers-TwoPhase}
use infix_lib.System.Staged.Laws.{slot}
use infix_lib.System.Staged.Installs.{timezone_name, change_clock-installs}
use infix_lib.Srx.{srx_get_str}
use infix_lib.System.Staged.Failures.{failed_changes_lem}
use infix_lib.System.Clock.{timezone_conf, change_clock}
use infix_lib.System.Ntp.{chrony_conf, change_ntp}
use infix_lib.System.Dns.{resolv_conf, change_dns}
use infix_lib.System.Users.{is_valid_username, adduser_args}
use infix_lib.System.Users.Laws.{is_valid_username-plain}
use infix_lib.System.Auth.{change_auth}
use infix_lib.System.Auth.Spawns.{spawns_valid}
use infix_lib.System.Auth.Spawns.Checked.{change_auth-spawns}
use infix_lib.System.Auth.Laws.{all_valid, change_auth-accepts}
use infix_lib.System.Datetime.{format_zone, read_format, rpc_set_datetime}
use infix_lib.System.Datetime.Laws.{read_format-format_zone}
use infix_lib.Tests.Fixtures.{start, calm}
use infix_lib.Tests.Running.{srx_run, text_run, datetime_run, auth_run, users_run, lyx_run}

-- A time zone is in place, and another one is prepared.
abbrev zones : Store
zones path =
    if path == "/etc/timezone"
    then some "UTC\n"
    else if path == "/etc/timezone+"
    then some "Europe/Stockholm\n"
    else none

abbrev with_zones : Env
with_zones = record calm { is_there = λ h path. is_some (after zones h path) }

handlers-TwoPhase_example :
    TwoPhase with_zones zones timezone_conf change_clock
    × TwoPhase with_zones zones chrony_conf change_ntp
    × TwoPhase with_zones zones resolv_conf change_dns
handlers-TwoPhase_example = handlers-TwoPhase with_zones zones λ h path. refl

-- The configuration names a zone.
abbrev zone_chosen : Env
zone_chosen = record with_zones { val_to_str = λ v. some "Asia/Tokyo" }

zone_read : (srx_get_str timezone_name zone_chosen start).0 ≡ some "Asia/Tokyo"
unfolding srx_run text_run
zone_read = refl

change_clock-installs_example :
    let prepared = change_clock change zone_chosen start in
    let t = slot timezone_conf (after zones (change_clock done zone_chosen prepared.1).1.calls) in
    (prepared.0 ≡ pos 0)
    × (t.conf ≡ some "Asia/Tokyo\n")
    × (t.prev ≡ some "UTC\n")
    × (t.next ≡ none)
change_clock-installs_example =
    change_clock-installs zone_chosen zones (λ h path. refl) (λ h path mode. refl) (λ h cmd. refl)
      (λ h fp. refl) "Asia/Tokyo" start zone_read

abbrev no_items : Env
no_items = record with_zones { items_error = λ h path. some (pos 1, 5) }

failed_changes_lem_example :
    let ntp = change_ntp change no_items start in
    let dns = change_dns change no_items start in
    ((is_zero ntp.0 ≡ true) ⊎ (after zones ntp.1.calls (next_of chrony_conf) ≡ none))
    × ((is_zero dns.0 ≡ true) ⊎ (after zones dns.1.calls (next_of resolv_conf) ≡ none))
failed_changes_lem_example = failed_changes_lem zones no_items (λ h path mode. refl) start

is_valid_username-plain_example : has_code 47 (codes "admin") ≡ false
unfolding is_valid_username
is_valid_username-plain_example = is_valid_username-plain "admin" 47 refl refl

abbrev new_user : Change
new_user = record {
  op = created;
  old = none;
  new = some (record { xpath = "/system/user[name='admin']"; content = string_val "admin" });
}

abbrev with_user : Env
with_user = record calm { changes = λ h path. new_user ∷ [] }

-- The programs that were started.
abbrev programs : History → List (List String)
programs [] = []
programs (spawned args ∷ h) = args ∷ programs h
programs (_ ∷ h) = programs h

change_auth-accepts_example :
    let r = change_auth "/bin/bash" change with_user start in
    (is_zero r.0 ≡ all_valid with_user (new_user ∷ []))
    × (r.1.calls ≡ asked "/ietf-system:system/authentication/user" ∷ [])
change_auth-accepts_example = change_auth-accepts "/bin/bash" with_user start refl

change_auth-spawns_example :
    let checked = (change_auth "/bin/bash" change with_user start).1 in
    spawns_valid (change_auth "/bin/bash" done with_user checked).1.calls ≡ true
unfolding srx_run text_run auth_run users_run
change_auth-spawns_example =
    let checked = (change_auth "/bin/bash" change with_user start).1 in
    change_auth-spawns "/bin/bash" with_user start checked refl refl refl refl refl

-- The user is added.
added :
    programs (change_auth "/bin/bash" done with_user start).1.calls
    ≡ ("adduser" ∷ "-D" ∷ "-s" ∷ "/bin/bash" ∷ "-S" ∷ "-G" ∷ "wheel" ∷ "admin" ∷ []) ∷ []
unfolding srx_run auth_run users_run text_run lyx_run
added = refl

read_format-format_zone_example :
    read_format (format_zone "2023-05-24T10:00:00+0200") ≡ ("2023-05-24T10:00:00+0200", "%FT%T%z")
read_format-format_zone_example = read_format-format_zone 19 "2023-05-24T10:00:00+0200" refl refl

colon : format_zone "2023-05-24T10:00:00+0200" ≡ "2023-05-24T10:00:00+02:00"
unfolding datetime_run
colon = refl

-- Nothing can be read.
abbrev unreadable : Env
unreadable = record calm { strptime = λ buf fmt. none }

first_call_fails : (rpc_set_datetime (pos 3) "noon" unreadable start).0 ≡ pos 3
unfolding datetime_run text_run
first_call_fails = refl

-- Where the shell is missing, its name stands without the option before it.
missing_shell :
    adduser_args "/bin/bash" false "joe" ≡ "adduser" ∷ "-D" ∷ "/bin/sh" ∷ "/bin/bash" ∷ "joe" ∷ []
missing_shell = refl
