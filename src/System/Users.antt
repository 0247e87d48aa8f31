-- ===== src/System/Users.antt =====
-- The users of the system (src/confd/src/confd/ietf-system.c, is_valid_username to
-- handle_sr_user_update). An assertion that fails stops the program: here, the result is then
-- SR_ERR_INTERNAL. `login_shell` is the shell that the build sets.
pub mod Laws
use infix_lib.Prelude.{
  ℕ, ℤ, pos, String, ◌<>◌, ◌==◌, ◌=ℕ◌, Bool, true, false, ◌||◌, ◌&&◌, Option, none, some, List, [],
  ◌∷◌, is_zero, if◌then◌else◌,
}
use infix_lib.Text.{codes, is_alpha, is_alnum, concat}
use infix_lib.Machine.Values.{
  Change, ChangeOp, created, modified, deleted, moved, SrVal, SrData, string_val, aug_set,
}
use infix_lib.Machine.{M, ◌>>=◌, ◌>>◌, pure, remove, whichp, getpwnam, request, sr_xpath_key_value}
use infix_lib.Srx.{sr_err_ok, sr_err_sys, sr_err_internal}
use infix_lib.Systemv.{systemv_silent}
use infix_lib.System.Staged.{sr_err_validation_failed}
use infix_lib.System.Changes.{value_of}

abbrev pub is_name_char : ℕ → Bool
is_name_char c = is_alnum c || c =ℕ b'_' || c =ℕ b'-' || c =ℕ b'.'

abbrev pub all_name_chars : List ℕ → Bool
all_name_chars [] = true
all_name_chars (c ∷ cs) = is_name_char c && all_name_chars cs

abbrev pub valid_codes : List ℕ → Bool
valid_codes [] = false
valid_codes (c ∷ cs) = (is_alpha c || c =ℕ b'_') && all_name_chars cs

unfoldable pub is_valid_username : String → Bool
is_valid_username user = valid_codes (codes user)

abbrev pub keys_file : String → String
keys_file user = concat ("/var/run/sshd/" ∷ user ∷ ".keys" ∷ [])

unfoldable pub sys_del_user : String → M ℤ
unfolding systemv_silent
sys_del_user user = do
  remove (keys_file user)
  err ← systemv_silent (some ("deluser" ∷ user ∷ []))
  pure (if is_zero err then sr_err_ok else sr_err_sys)

-- The arguments after "adduser" "-D". Where the shell is not found, "/bin/sh" replaces `args[2]`.
abbrev pub flag_for : Bool → String
flag_for found = if found then "-s" else "/bin/sh"

abbrev pub adduser_args : String → Bool → String → List String
adduser_args shell found name =
    "adduser"
    ∷ "-D"
    ∷ flag_for found
    ∷ shell
    ∷ (if name == "admin" then "-S" ∷ "-G" ∷ "wheel" ∷ name ∷ [] else name ∷ [])

unfoldable pub sys_add_new_user : String → String → M ℤ
unfolding systemv_silent
sys_add_new_user login_shell name = do
  found ← whichp login_shell
  err ← systemv_silent (some (adduser_args login_shell found name))
  pure (if is_zero err then sr_err_ok else sr_err_sys)

abbrev pub password_path : String → String
password_path user = concat ("etc/shadow/" ∷ user ∷ "/password" ∷ [])

unfoldable pub set_password : String → String → M ℤ
set_password user hash = do
  err ← request (aug_set (password_path user) hash)
  pure (if is_zero err then sr_err_ok else sr_err_sys)

unfoldable pub update_password : String → Option SrVal → M ℤ
unfolding set_password
update_password user none = pure sr_err_internal
update_password user (some val) = elim val.content [
  | string_val hash ↦ if hash == "" then pure sr_err_internal else set_password user hash
  | _ ↦ pure sr_err_internal
]

unfoldable pub password_op : String → ChangeOp → Option SrVal → M ℤ
unfolding update_password set_password
password_op user created new = update_password user new
password_op user modified new = update_password user new
password_op user deleted new = set_password user "!"
password_op user moved new = pure sr_err_ok

unfoldable pub passwd_update_at : Change → Option SrVal → M ℤ
unfolding password_op
passwd_update_at c none = pure sr_err_internal
passwd_update_at c (some val) = do
  user ← sr_xpath_key_value val.xpath "user" "name"
  there ← getpwnam user
  if there then password_op user c.op c.new else pure sr_err_ok

unfoldable pub handle_sr_passwd_update : Change → M ℤ
unfolding passwd_update_at
handle_sr_passwd_update c = passwd_update_at c (value_of c)

unfoldable pub user_check_at : Option SrVal → M ℤ
unfolding is_valid_username
user_check_at none = pure sr_err_internal
user_check_at (some val) = do
  name ← sr_xpath_key_value val.xpath "user" "name"
  pure (if is_valid_username name then sr_err_ok else sr_err_validation_failed)

unfoldable pub check_sr_user_update : Change → M ℤ
unfolding user_check_at
check_sr_user_update c = user_check_at (value_of c)

-- The handler, for the user that the value names.
unfoldable pub with_user : Option SrVal → (String → M ℤ) → M ℤ
with_user none handle = pure sr_err_internal
with_user (some val) handle = do name ← sr_xpath_key_value val.xpath "user" "name"; handle name

unfoldable pub user_op : String → ChangeOp → Option SrVal → Option SrVal → M ℤ
unfolding with_user sys_add_new_user sys_del_user
user_op login_shell created old new = with_user new (sys_add_new_user login_shell)
user_op login_shell deleted old new = with_user old sys_del_user
user_op login_shell moved old new = pure sr_err_ok
user_op login_shell modified old new = pure sr_err_ok

unfoldable pub handle_sr_user_update : String → Change → M ℤ
unfolding user_op
handle_sr_user_update login_shell c = user_op login_shell c.op c.old c.new
