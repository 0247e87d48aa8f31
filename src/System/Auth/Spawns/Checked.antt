-- ===== src/System/Auth/Spawns/Checked.antt =====
-- From the check of a change of the users to the programs that it starts
-- (src/confd/src/confd/ietf-system.c, change_auth).
use infix_lib.Prelude.{
  pos, or_else, ap, sym, ◌∙◌, refl, ℤ, pos, Bool, true, false, ◌&&◌, Option, none, some, List, [],
  ◌∷◌, ◌≡◌, refl, arith, is_zero, if◌then◌else◌, ap, ◌∙◌, String,
}
use infix_lib.Machine.Values.{
  Change, ChangeOp, created, modified, deleted, moved, SrVal, change, done,
}
use infix_lib.Machine.{sr_changes, Env, World, M, ◌>>=◌, pure, sr_changes}
use infix_lib.Machine.Views.{Keeps}
use infix_lib.Interfaces.Addresses.{each}
use infix_lib.System.Changes.{sr_change_iter}
use infix_lib.System.Users.{
  is_valid_username, sys_add_new_user, sys_del_user, with_user, user_op, handle_sr_user_update,
}
use infix_lib.System.Auth.{change_auth, change_auth_done, load_users}
use infix_lib.System.Auth.{change_auth, change_auth_done, load_users}
use infix_lib.System.Auth.Laws.{change_auth-accepts, names_valid_at, all_valid, change_auth-accepts}
use infix_lib.System.Auth.Spawns.{spawns_valid, spawn_view, Keeps-add, Keeps-del}
use infix_lib.System.Auth.Spawns.Silent.{Keeps-load_users}

-- What is created was not there before.
abbrev pub is_fresh : ChangeOp → Option SrVal → Bool
is_fresh created (some old) = false
is_fresh op old = true

abbrev pub all_fresh : List Change → Bool
all_fresh [] = true
all_fresh (c ∷ cs) = is_fresh c.op c.old && all_fresh cs

abbrev pub users_path : String
users_path = "/ietf-system:system/authentication/user"

module _ (e : Env) (shell : String) where
  with_lem :
      (v : Option SrVal) (handle : String → M ℤ) (w : World)
      → names_valid_at e v ≡ true
      → ((name : String) → is_valid_username name ≡ true → Keeps spawn_view (handle name))
      → spawns_valid (with_user v handle e w).1.calls ≡ spawns_valid w.calls
  unfolding with_user ◌>>=◌
  with_lem none handle w h keep = absurd (ground (arith, h))
  with_lem (some val) handle w h keep = (keep (e.key_value val.xpath "user" "name") h).at e w

  -- The operation of a change that passed the check.
  op_lem :
      (op : ChangeOp) (old new : Option SrVal) (w : World)
      → names_valid_at e (or_else old new) ≡ true
      → is_fresh op old ≡ true
      → spawns_valid (user_op shell op old new e w).1.calls ≡ spawns_valid w.calls
  unfolding user_op with_user pure
  op_lem created none new w h f = with_lem new (sys_add_new_user shell) w h (Keeps-add shell)
  op_lem created (some old) new w h f = absurd (ground (arith, f))
  op_lem deleted none new w h f = refl
  op_lem deleted (some old) new w h f = with_lem (some old) sys_del_user w h Keeps-del
  op_lem modified old new w h f = refl
  op_lem moved old new w h f = refl

  going_on :
      (b : Bool) (m : M ℤ) (rc : ℤ) (w : World) (before : Bool)
      → spawns_valid (m e w).1.calls ≡ before
      → spawns_valid w.calls ≡ before
      → spawns_valid ((if b then m else pure rc) e w).1.calls ≡ before
  unfolding pure
  going_on true m rc w before h k = h
  going_on false m rc w before h k = k

  users_lem :
      (cs : List Change) (w : World)
      → all_valid e cs ≡ true
      → all_fresh cs ≡ true
      → spawns_valid (each (handle_sr_user_update shell) cs e w).1.calls ≡ spawns_valid w.calls
  unfolding each handle_sr_user_update ◌>>=◌
  users_lem [] w h f = refl
  users_lem (c ∷ cs) w h f =
      let here = op_lem c.op c.old c.new w (ground (arith, h)) (ground (arith, f)) in
      let r = handle_sr_user_update shell c e w in
      going_on (is_zero r.0) (each (handle_sr_user_update shell) cs) r.0 r.1 (spawns_valid w.calls)
        (users_lem cs r.1 (ground (arith, h)) (ground (arith, f)) ∙ here) here

  iter_lem :
      (v : World)
      → let changes = e.changes v.calls users_path in
        all_valid e changes ≡ true
        → all_fresh changes ≡ true
        → spawns_valid (sr_change_iter users_path (handle_sr_user_update shell) e v).1.calls
          ≡ spawns_valid v.calls
  unfolding sr_change_iter ◌>>=◌
  iter_lem v valid fresh =
      let got = sr_changes users_path e v in
      going_on (is_zero got.0.0) (each (handle_sr_user_update shell) got.0.1) got.0.0 got.1
        (spawns_valid v.calls) (users_lem got.0.1 got.1 valid fresh) refl

  done_lem :
      (v : World)
      → let changes = e.changes v.calls users_path in
        all_valid e changes ≡ true
        → all_fresh changes ≡ true
        → spawns_valid (change_auth_done shell e v).1.calls ≡ spawns_valid v.calls
  unfolding change_auth_done ◌>>=◌
  done_lem v valid fresh =
      let r = sr_change_iter users_path (handle_sr_user_update shell) e v in
      let users = iter_lem v valid fresh in
      going_on (is_zero r.0) load_users r.0 r.1 (spawns_valid v.calls)
        (Keeps-load_users.at e r.1 ∙ users) users

-- Where the event CHANGE accepts the changes of the users, and the event DONE meets the same ones,
-- of which those that create a user have no old value: each program that DONE starts has a valid
-- user name as its last argument, whatever fails.
pub change_auth-spawns :
    (shell : String) (e : Env) (w v : World)
    → e.changes_status w.calls ≡ pos 0
    → e.changes v.calls users_path ≡ e.changes w.calls users_path
    → all_fresh (e.changes w.calls users_path) ≡ true
    → is_zero (change_auth shell change e w).0 ≡ true
    → spawns_valid v.calls ≡ true
    → spawns_valid (change_auth shell done e v).1.calls ≡ true
unfolding change_auth
change_auth-spawns shell e w v ok same fresh accepted valid =
    let passed = (change_auth-accepts shell e w ok).0 in
    let all : all_valid e (e.changes v.calls users_path) ≡ true =
      ap (all_valid e) same ∙ sym passed ∙ accepted in
    done_lem e shell v all (ap all_fresh same ∙ fresh) ∙ valid
