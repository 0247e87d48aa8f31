-- ===== src/System/Auth/Spawns.antt =====
-- The programs that a change of the users starts (src/confd/src/confd/ietf-system.c, change_auth):
-- adduser and deluser, for the users that the check let pass.
pub mod Silent
pub mod Checked
use infix_lib.Prelude.{
  ℤ, pos, Bool, true, false, ◌&&◌, Option, none, some, List, [], ◌∷◌, ◌≡◌, ◌≢◌, refl, arith,
  is_zero, if◌then◌else◌, ◌==◌, ap, ◌∙◌, String, Bool-cases, inl, inr,
}
use infix_lib.Lyx.Tree.{Node}
use infix_lib.Machine.Values.{
  Change, ChangeOp, created, modified, deleted, moved, SrVal, change, done, SrData, string_val,
  Outcome, not_run, exited, signaled,
}
use infix_lib.Machine.{Env, World, History, Call, M, spawned, ◌>>=◌, pure, sr_changes}
use infix_lib.Machine.Views.{
  View, Keeps, keep_rules, Keeps-bind, Keeps-if, Keeps-pure, Keeps-sr_changes, Keeps-whichp,
  Keeps-fputs,
}
use infix_lib.Interfaces.Addresses.{each}
use infix_lib.Systemv.{exit_code, systemv_silent, fsystemv, close_if}
use infix_lib.System.Changes.{sr_change_iter, value_of}
use infix_lib.System.Users.{
  is_valid_username, sys_add_new_user, sys_del_user, adduser_args, with_user, user_op,
  handle_sr_user_update, handle_sr_passwd_update, passwd_update_at, password_op, update_password,
  set_password,
}
use infix_lib.System.Auth.{
  change_auth, change_auth_done, load_users, update_passwords, save_auth, generate_auth_keys,
  keys_in, all_keys, user_keys, write_keys, put_keys,
}
use infix_lib.System.Auth.Laws.{names_valid_at, all_valid, change_auth-accepts}

-- The last argument of a program.
abbrev pub last_of : List String → String
last_of [] = ""
last_of (arg ∷ []) = arg
last_of (arg ∷ next ∷ args) = last_of (next ∷ args)

-- Each program that was started has a valid user name as its last argument.
abbrev pub spawn_valid : Call → Bool
spawn_valid (spawned args) = is_valid_username (last_of args)
spawn_valid c = true

abbrev pub spawns_valid : History → Bool
spawns_valid [] = true
spawns_valid (c ∷ h) = spawn_valid c && spawns_valid h

pub spawns-skip :
    (c : Call) (h : History) → spawn_valid c ≡ true → spawns_valid (c ∷ h) ≡ spawns_valid h
spawns-skip c h k = rw k refl

abbrev pub spawn_view : View Bool
spawn_view = record { read = spawns_valid; skips = spawn_valid; skip = spawns-skip }

Keeps-exit_code : (outcome : Outcome) → Keeps spawn_view (exit_code outcome)
unfolding exit_code
Keeps-exit_code not_run = search keep_rules
Keeps-exit_code (exited n) = search keep_rules
Keeps-exit_code signaled = search keep_rules

Keeps-close_if : (out : Option String) → Keeps spawn_view (close_if out)
unfolding close_if
Keeps-close_if none = search keep_rules
Keeps-close_if (some out) = search keep_rules

Keeps-systemv :
    (args : List String)
    → is_valid_username (last_of args) ≡ true
    → Keeps spawn_view (systemv_silent (some args))
unfolding systemv_silent fsystemv
Keeps-systemv args h = search (keep_rules, Keeps-exit_code, Keeps-close_if) depth 9

last-adduser : (shell name : String) (found : Bool) → last_of (adduser_args shell found name) ≡ name
last-adduser shell name found = elim (Bool-cases (name == "admin")) [
  | inl y ↦ rw y refl
  | inr n ↦ rw n refl
]

pub Keeps-add :
    (shell name : String)
    → is_valid_username name ≡ true
    → Keeps spawn_view (sys_add_new_user shell name)
unfolding sys_add_new_user
Keeps-add shell name h = Keeps-bind spawn_view _ _ (Keeps-whichp spawn_view shell refl) λ found.
    Keeps-bind spawn_view _ _
      (Keeps-systemv (adduser_args shell found name)
        (ap is_valid_username (last-adduser shell name found) ∙ h))
      λ err. search keep_rules

pub Keeps-del :
    (name : String) → is_valid_username name ≡ true → Keeps spawn_view (sys_del_user name)
unfolding sys_del_user
Keeps-del name h = search (keep_rules, Keeps-systemv)
