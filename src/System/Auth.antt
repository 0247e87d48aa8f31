-- ===== src/System/Auth.antt =====
-- Authentication (src/confd/src/confd/ietf-system.c, lyx_list_is_empty to change_auth).
pub mod Laws
pub mod Spawns
use infix_lib.Prelude.{
  ℤ, pos, String, Bool, Option, none, some, List, [], ◌∷◌, get_or, is_zero, if◌then◌else◌, ◌=ℕ◌,
  length,
}
use infix_lib.Text.{concat}
use infix_lib.Lyx.Tree.{Forest, Node, first, siblings, named, lyd_child}
use infix_lib.Lyx.{lydx_get_cattr, lydx_get_descendant}
use infix_lib.Machine.Values.{Event, change, done, aug_load, aug_save}
use infix_lib.Machine.{M, ◌>>=◌, ◌>>◌, pure, remove, fopen, fputs, fclose, sr_get_data, request}
use infix_lib.Srx.{sr_err_ok, sr_err_sys, sr_err_internal}
use infix_lib.Interfaces.Addresses.{str}
use infix_lib.System.Changes.{sr_change_iter}
use infix_lib.System.Users.{
  keys_file, check_sr_user_update, handle_sr_user_update, handle_sr_passwd_update,
}

unfoldable pub lyx_list_is_empty : Option Node → String → Bool
lyx_list_is_empty parent list = length (named list (siblings parent)) =ℕ 0

abbrev pub key_line : String → Node → String
key_line username key = concat (
    str (lydx_get_cattr (some key) "algorithm")
    ∷ " "
    ∷ str (lydx_get_cattr (some key) "key-data")
    ∷ " "
    ∷ get_or (lydx_get_cattr (some key) "name") username
    ∷ "\n"
    ∷ [])

abbrev pub keys_of : Node → List Node
keys_of user = named "authorized-key" (siblings (lyd_child (some user)))

unfoldable pub put_keys : String → String → List Node → M Unit
put_keys fp username [] = pure tt
put_keys fp username (key ∷ keys) = do fputs (key_line username key) fp; put_keys fp username keys

unfoldable pub write_keys : String → List Node → Option String → M Unit
unfolding put_keys
write_keys username keys none = pure tt
write_keys username keys (some fp) = do put_keys fp username keys; fclose fp; pure tt

unfoldable pub user_keys : Node → M Unit
unfolding write_keys lyx_list_is_empty
user_keys user =
    let username : String = str (lydx_get_cattr (some user) "name") in
    if lyx_list_is_empty (lyd_child (some user)) "authorized-key"
    then (do remove (keys_file username); pure tt)
    else do fp ← fopen (keys_file username) "w"; write_keys username (keys_of user) fp

unfoldable pub all_keys : List Node → M Unit
unfolding user_keys
all_keys [] = pure tt
all_keys (user ∷ users) = do user_keys user; all_keys users

unfoldable pub keys_in : Option Node → M ℤ
unfolding all_keys
keys_in none = pure sr_err_ok
keys_in (some auth) = do all_keys (named "user" (siblings (lyd_child (some auth)))); pure sr_err_ok

unfoldable pub generate_auth_keys : String → M ℤ
unfolding keys_in
generate_auth_keys xpath = do
  (err, cfg) ← sr_get_data xpath
  if is_zero err
      then keys_in (lydx_get_descendant (first cfg []) ("system" ∷ "authentication" ∷ []))
      else pure err

unfoldable pub change_auth_check : M ℤ
unfolding sr_change_iter check_sr_user_update
change_auth_check = sr_change_iter "/ietf-system:system/authentication/user" check_sr_user_update

unfoldable pub save_auth : M ℤ
unfolding generate_auth_keys
save_auth = do
  err ← request aug_save
  if is_zero err
      then generate_auth_keys "/ietf-system:system/authentication/user//."
      else pure sr_err_sys

unfoldable pub update_passwords : M ℤ
unfolding sr_change_iter handle_sr_passwd_update save_auth
update_passwords = do
  err ← sr_change_iter "/ietf-system:system/authentication/user[*]/password" handle_sr_passwd_update
  if is_zero err then save_auth else pure err

unfoldable pub load_users : M ℤ
unfolding update_passwords
load_users = do
  err ← request aug_load
  if is_zero err then update_passwords else pure sr_err_internal

unfoldable pub change_auth_done : String → M ℤ
unfolding sr_change_iter handle_sr_user_update load_users
change_auth_done login_shell = do
  err ← sr_change_iter "/ietf-system:system/authentication/user" (handle_sr_user_update login_shell)
  if is_zero err then load_users else pure err

unfoldable pub change_auth : String → Event → M ℤ
unfolding change_auth_check change_auth_done
change_auth login_shell change = change_auth_check
change_auth login_shell done = change_auth_done login_shell
change_auth login_shell event = pure sr_err_ok
