-- ===== src/System/Auth/Laws.antt =====
-- The check of a change of the users (src/confd/src/confd/ietf-system.c, change_auth).
use infix_lib.Prelude.{
  pos, String, Bool, true, false, ◌&&◌, Option, none, some, List, [], ◌∷◌, ◌≡◌, refl, arith,
  is_zero,
}
use infix_lib.Machine.Values.{Change, SrVal, change}
use infix_lib.Machine.{Env, World, asked, record_call, ◌>>=◌}
use infix_lib.Interfaces.Addresses.{each}
use infix_lib.System.Changes.{sr_change_iter, value_of}
use infix_lib.System.Users.{is_valid_username, user_check_at, check_sr_user_update}
use infix_lib.System.Auth.{change_auth_check, change_auth}

-- The change names a user by a name that is valid.
abbrev pub names_valid_at : Env → Option SrVal → Bool
names_valid_at e none = false
names_valid_at e (some val) = is_valid_username (e.key_value val.xpath "user" "name")

abbrev pub all_valid : Env → List Change → Bool
all_valid e [] = true
all_valid e (c ∷ cs) = names_valid_at e (value_of c) && all_valid e cs

check_at_lem :
    (v : Option SrVal) (e : Env) (w : World)
    → (is_zero (user_check_at v e w).0 ≡ names_valid_at e v) × ((user_check_at v e w).1 ≡ w)
unfolding user_check_at ◌>>=◌
check_at_lem none e w = (refl, refl)
check_at_lem (some val) e w = (ground arith, refl)

each_lem :
    (cs : List Change) (e : Env) (w : World)
    → (is_zero (each check_sr_user_update cs e w).0 ≡ all_valid e cs)
      × ((each check_sr_user_update cs e w).1 ≡ w)
unfolding each check_sr_user_update ◌>>=◌
each_lem [] e w = (refl, refl)
each_lem (c ∷ cs) e w =
    let (here, same) = check_at_lem (value_of c) e w in
    let (later, kept) = each_lem cs e w in ground (arith, here, same, later, kept)

-- Where sysrepo gives the changes, the event CHANGE accepts them if and only if each user that is
-- changed has a valid name, and it makes no call but the one for the changes: the system is as it
-- was.
pub change_auth-accepts :
    (shell : String) (e : Env) (w : World)
    → e.changes_status w.calls ≡ pos 0
    → let r = change_auth shell change e w in
      (is_zero r.0 ≡ all_valid e (e.changes w.calls "/ietf-system:system/authentication/user"))
      × (r.1.calls ≡ asked "/ietf-system:system/authentication/user" ∷ w.calls)
unfolding change_auth change_auth_check sr_change_iter ◌>>=◌
change_auth-accepts shell e w h =
    let found =
      each_lem (e.changes w.calls "/ietf-system:system/authentication/user") e
        (record_call (asked "/ietf-system:system/authentication/user") w) in
    ground (arith, found, h)
