-- ===== src/Dhcp/Services.antt =====
-- What the commands for DHCP clients make of them (src/confd/src/confd/infix-dhcp.c, add and del).
pub mod Changed
use mathlib.Core.Path.{subst}
use text.Mathlib.TextLemmas.{append_cancel_left}
use text.Mathlib.TextPositions.{slice-append_left}
use Prim.Native.String.{slice, len}
use infix_lib.Text.Equal.{differs, eq-append, eq_swap}
use infix_lib.Prelude.{
  ◌≡◌, ◌≢◌, refl, ap, sym, ◌∙◌, String, ◌<>◌, ◌==◌, Bool, true, false, not, ◌&&◌, ◌||◌, Option,
  none, some, List, [], ◌∷◌, arith, is_some, is_zero, if◌then◌else◌, eq_iff, eq_refl, Bool-cases,
  inl, inr,
}
use infix_lib.Lyx.Tree.{Forest, Node, named, siblings}
use infix_lib.Lyx.{lydx_get_cattr, lydx_get_op, lydx_is_enabled}
use infix_lib.Machine.{Env, World, History, ran, opening, opened, wrote, closed, sr_get_data, ◌>>=◌}
use infix_lib.Machine.Values.{done}
use infix_lib.Srx.{srx_get_diff}
use infix_lib.Interfaces.Addresses.{is_delete}
use infix_lib.Dhcp.{
  service_line, conf_file, put_client, add, del, find_client, set_client, change_client,
  change_clients, if_name, delete_command, enable_command, clients_in, is_on, change_from,
  change_all, client_change,
}

-- Whether the client of each interface is enabled.
abbrev pub Services : Type 0
Services = String → Bool

-- What the commands of a history make of the clients: the latest that names one decides.
abbrev pub services : Services → History → Services
services s [] name = s name
services s (ran cmd ∷ h) name =
    if cmd == enable_command name
    then true
    else if cmd == delete_command name
    then false
    else services s h name
services s (_ ∷ h) name = services s h name

-- The two commands are of one length, and differ before the name.
enable≢delete : (a b : String) → (enable_command a == delete_command b) ≡ false
enable≢delete a b = differs (enable_command a) (delete_command b) λ path.
    let same : "initctl -bfq enable dhcp-" ≡ "initctl -bfq delete dhcp-" =
      sym (slice-append_left "initctl -bfq enable dhcp-" a)
      ∙ ap (λ t. slice t 0 25) path
      ∙ slice-append_left "initctl -bfq delete dhcp-" b in
    absurd (ground (arith, (eq_iff "initctl -bfq enable dhcp-" "initctl -bfq delete dhcp-").1 same))

-- After the command for one interface.
pub enabled_lem :
    (s : Services) (h : History) (a name : String)
    → services s (ran (enable_command a) ∷ h) name ≡ (if a == name then true else services s h name)
enabled_lem s h a name =
    rw (eq-append "initctl -bfq enable dhcp-" a name) (rw (enable≢delete a name) refl)

pub deleted_lem :
    (s : Services) (h : History) (a name : String)
    → services s (ran (delete_command a) ∷ h) name
      ≡ (if a == name then false else services s h name)
deleted_lem s h a name =
    rw
      (
        eq_swap (delete_command a) (enable_command name),
        enable≢delete name a,
        eq-append "initctl -bfq delete dhcp-" a name,
      )
      refl
