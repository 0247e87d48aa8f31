-- ===== src/Statd.antt =====
-- The operational state of the interfaces (src/confd/src/statd/core.c).
pub mod Laws
use Prim.Native.Char.{Char, code}
use infix_lib.Prelude.{
  ℕ, ◌+◌, ℤ, pos, String, ◌<>◌, Bool, true, false, ◌=ℕ◌, Option, none, some, List, [], ◌∷◌, is_zero,
  is_some, if◌then◌else◌,
}
use infix_lib.Text.{concat, show_int}
use infix_lib.Lyx.Build.{lydx_new_path}
use infix_lib.Machine.Values.{
  Json, string, integer, array, object, Items, nil, cons, json_object_get, oper_get_subscribe,
  get_connection, acquire_context, session_start, operational,
}
use infix_lib.Machine.{M, ◌>>=◌, ◌>>◌, pure, fclose, json_loadf, request, else_do}
use infix_lib.Helpers.{popenf}
use infix_lib.Srx.{sr_err_ok, sr_err_ly, sr_err_sys, sr_err_internal}

-- tolower(3), by the letters of either case.
unfoldable pub lower_in : String → String → Char → Char
lower_in (String.◌∷◌ upper us) (String.◌∷◌ lower ls) c =
    let rest = lower_in us ls c in if code c =ℕ code upper then lower else rest
lower_in us ls c = c

unfoldable pub to_lowercase : String → String
unfolding lower_in
to_lowercase String.[] = String.[]
to_lowercase (String.◌∷◌ c s) =
    String.◌∷◌ (lower_in "ABCDEFGHIJKLMNOPQRSTUVWXYZ" "abcdefghijklmnopqrstuvwxyz" c)
      (to_lowercase s)

abbrev pub link_show : Option String → String
link_show none = "ip -d -j link show 2>/dev/null"
link_show (some ifname) = concat ("ip -d -j link show dev " ∷ ifname ∷ " 2>/dev/null" ∷ [])

-- The items of an array; NULL for any other value.
abbrev pub array_items : Option Json → Option Items
array_items none = none
array_items (some j) = elim j [ array items ↦ some items | _ ↦ none ]

unfoldable pub read_links : Option String → M (Option Items)
read_links none = pure none
read_links (some proc) = do root ← json_loadf proc; fclose proc; pure (array_items root)

unfoldable pub get_ip_link_json : Option String → M (Option Items)
unfolding read_links popenf
get_ip_link_json ifname = do proc ← popenf "re" (link_show ifname); read_links proc

abbrev pub or_ly : ℤ → ℤ
or_ly err = if is_zero err then sr_err_ok else sr_err_ly

unfoldable pub add_status : String → Option Json → M ℤ
unfolding lydx_new_path to_lowercase
add_status xpath none = pure sr_err_sys
add_status xpath (some val) = elim val [
  | string s ↦ (do err ← lydx_new_path false xpath "oper-status" (to_lowercase s); pure (or_ly err))
  | _ ↦ pure sr_err_sys
]

unfoldable pub add_index : String → Json → Option Json → M ℤ
unfolding add_status lydx_new_path
add_index xpath iface none = pure sr_err_sys
add_index xpath iface (some val) = elim val [
  | integer n ↦ (do
    err ← lydx_new_path true xpath "if-index" (show_int n)
    if is_zero err then add_status xpath (json_object_get iface "operstate") else pure sr_err_ly)
  | _ ↦ pure sr_err_sys
]

unfoldable pub add_ip_link_data : String → Json → M ℤ
unfolding add_index
add_ip_link_data xpath iface = add_index xpath iface (json_object_get iface "ifindex")

abbrev pub iface_path : String → String
iface_path ifname = concat ("/ietf-interfaces:interfaces/interface[name='" ∷ ifname ∷ "']" ∷ [])

-- The array has exactly one interface.
unfoldable pub add_single : String → Option Items → M ℤ
unfolding add_ip_link_data
add_single ifname (some (cons iface nil)) = add_ip_link_data (iface_path ifname) iface
add_single ifname items = pure sr_err_sys

unfoldable pub add_ip_link : String → M ℤ
unfolding get_ip_link_json add_single
add_ip_link ifname = do items ← get_ip_link_json (some ifname); add_single ifname items

unfoldable pub subscribe : Option Json → M ℤ
subscribe none = pure sr_err_ok
subscribe (some name) = elim name [
  | string ifname ↦ request (oper_get_subscribe (iface_path ifname))
  | _ ↦ pure sr_err_ok
]

-- An interface without a name is left out; the first error ends the loop.
unfoldable pub subscribe_all : Items → M ℤ
unfolding subscribe
subscribe_all nil = pure sr_err_ok
subscribe_all (cons iface ifaces) = do
  err ← subscribe (json_object_get iface "ifname")
  if is_zero err then subscribe_all ifaces else pure err

unfoldable pub subscribe_items : Option Items → M ℤ
unfolding subscribe_all
subscribe_items none = pure sr_err_sys
subscribe_items (some items) = subscribe_all items

unfoldable pub reg_iface_handlers : M ℤ
unfolding get_ip_link_json subscribe_items
reg_iface_handlers = do items ← get_ip_link_json none; subscribe_items items

-- The context of the connection, each NULL where its reply is not 0.
unfoldable pub iface_cb : String → M ℤ
unfolding add_ip_link
iface_cb ifname = do
  con ← request get_connection
  ctx ← else_do con (request acquire_context)
  if is_zero ctx then add_ip_link ifname else pure sr_err_internal

unfoldable pub start_oper : M ℤ
unfolding reg_iface_handlers
start_oper = do
  err ← request (session_start operational)
  if is_zero err then reg_iface_handlers else pure err

unfoldable pub sr_plugin_init_cb : M ℤ
unfolding start_oper
sr_plugin_init_cb = do
  conn ← request get_connection
  if is_zero conn then start_oper else pure sr_err_internal
