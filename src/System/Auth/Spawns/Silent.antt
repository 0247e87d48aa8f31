-- ===== src/System/Auth/Spawns/Silent.antt =====
-- The passwords and the keys of a change of the users (src/confd/src/confd/ietf-system.c,
-- change_auth): no program is started for them.
use infix_lib.Prelude.{ℤ, Option, none, some, List, [], ◌∷◌, refl, String}
use infix_lib.Lyx.Tree.{Node}
use infix_lib.Machine.Values.{
  Change, ChangeOp, created, modified, deleted, moved, SrVal, SrData, string_val,
}
use infix_lib.Machine.{M}
use infix_lib.Machine.Views.{
  Keeps, keep_rules, Keeps-bind, Keeps-if, Keeps-pure, Keeps-sr_changes, Keeps-fputs,
}
use infix_lib.Interfaces.Addresses.{each}
use infix_lib.System.Changes.{sr_change_iter, value_of}
use infix_lib.System.Users.{
  handle_sr_passwd_update, passwd_update_at, password_op, update_password, set_password,
}
use infix_lib.System.Auth.{
  load_users, update_passwords, save_auth, generate_auth_keys, keys_in, all_keys, user_keys,
  write_keys, put_keys,
}
use infix_lib.System.Auth.Spawns.{spawn_view}

Keeps-each :
    {A : Type 0} (body : A → M ℤ) (xs : List A)
    → ((x : A) → Keeps spawn_view (body x))
    → Keeps spawn_view (each body xs)
unfolding each
Keeps-each body [] h = search keep_rules
Keeps-each body (x ∷ xs) h =
    Keeps-bind spawn_view _ _ (h x)
      λ err. Keeps-if spawn_view _ _ _ (Keeps-each body xs h) (Keeps-pure spawn_view err)

Keeps-set_password : (user hash : String) → Keeps spawn_view (set_password user hash)
unfolding set_password
Keeps-set_password user hash = search keep_rules

Keeps-hash :
    (user xpath : String) (d : SrData)
    → Keeps spawn_view (update_password user (some (record { xpath = xpath; content = d })))
unfolding update_password
Keeps-hash user xpath (string_val hash) = search (keep_rules, Keeps-set_password)
Keeps-hash user xpath _ = search keep_rules

Keeps-update_password :
    (user : String) (v : Option SrVal) → Keeps spawn_view (update_password user v)
unfolding update_password
Keeps-update_password user none = search keep_rules
Keeps-update_password user (some val) = Keeps-hash user val.xpath val.content

Keeps-password_op :
    (user : String) (op : ChangeOp) (v : Option SrVal) → Keeps spawn_view (password_op user op v)
unfolding password_op
Keeps-password_op user created v = Keeps-update_password user v
Keeps-password_op user modified v = Keeps-update_password user v
Keeps-password_op user deleted v = Keeps-set_password user "!"
Keeps-password_op user moved v = search keep_rules

Keeps-passwd : (c : Change) (v : Option SrVal) → Keeps spawn_view (passwd_update_at c v)
unfolding passwd_update_at
Keeps-passwd c none = search keep_rules
Keeps-passwd c (some val) = search (keep_rules, Keeps-password_op)

Keeps-handle_passwd : (c : Change) → Keeps spawn_view (handle_sr_passwd_update c)
unfolding handle_sr_passwd_update
Keeps-handle_passwd c = Keeps-passwd c (value_of c)

Keeps-put_keys :
    (fp username : String) (keys : List Node) → Keeps spawn_view (put_keys fp username keys)
unfolding put_keys
Keeps-put_keys fp username [] = search keep_rules
Keeps-put_keys fp username (key ∷ keys) =
    Keeps-bind spawn_view _ _ (Keeps-fputs spawn_view _ fp refl)
      λ u. Keeps-put_keys fp username keys

Keeps-write_keys :
    (username : String) (keys : List Node) (fp : Option String)
    → Keeps spawn_view (write_keys username keys fp)
unfolding write_keys
Keeps-write_keys username keys none = search keep_rules
Keeps-write_keys username keys (some fp) = search (keep_rules, Keeps-put_keys)

Keeps-user_keys : (user : Node) → Keeps spawn_view (user_keys user)
unfolding user_keys
Keeps-user_keys user = search (keep_rules, Keeps-write_keys)

Keeps-all_keys : (users : List Node) → Keeps spawn_view (all_keys users)
unfolding all_keys
Keeps-all_keys [] = search keep_rules
Keeps-all_keys (user ∷ users) =
    Keeps-bind spawn_view _ _ (Keeps-user_keys user) λ u. Keeps-all_keys users

Keeps-keys_in : (auth : Option Node) → Keeps spawn_view (keys_in auth)
unfolding keys_in
Keeps-keys_in none = search keep_rules
Keeps-keys_in (some auth) = search (keep_rules, Keeps-all_keys)

Keeps-save_auth : Keeps spawn_view save_auth
unfolding save_auth generate_auth_keys
Keeps-save_auth = search (keep_rules, Keeps-keys_in) depth 9

Keeps-iter :
    (xpath : String) (cb : Change → M ℤ)
    → ((c : Change) → Keeps spawn_view (cb c))
    → Keeps spawn_view (sr_change_iter xpath cb)
unfolding sr_change_iter
Keeps-iter xpath cb h =
    Keeps-bind spawn_view _ _ (Keeps-sr_changes spawn_view xpath refl)
      λ got. Keeps-if spawn_view _ _ _ (Keeps-each cb got.1 h) (Keeps-pure spawn_view got.0)

pub Keeps-load_users : Keeps spawn_view load_users
unfolding load_users update_passwords
Keeps-load_users = search (keep_rules, Keeps-iter, Keeps-handle_passwd, Keeps-save_auth) depth 9
