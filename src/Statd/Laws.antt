-- ===== src/Statd/Laws.antt =====
-- The subscriptions of the interfaces (src/confd/src/statd/core.c, reg_iface_handlers).
use infix_lib.Prelude.{
  ℤ, pos, String, Option, none, some, ◌∷◌, ◌≡◌, ap, ◌∙◌, refl, arith, is_zero, if◌then◌else◌,
}
use infix_lib.Machine.Values.{
  Request, oper_get_subscribe, Json, string, array, Items, nil, cons, json_object_get,
}
use infix_lib.Machine.{Env, World, History, requested, opened, closed, got, M, ◌>>=◌, pure, request}
use infix_lib.Statd.{
  subscribe, subscribe_all, subscribe_items, iface_path, link_show, read_links, get_ip_link_json,
  reg_iface_handlers,
}
use infix_lib.Helpers.{popenf}

-- The calls that subscribe to each interface that has a name, the latest first.
abbrev pub subscription : Option Json → History → History
subscription none h = h
subscription (some name) h = elim name [
  | string ifname ↦ requested (oper_get_subscribe (iface_path ifname)) ∷ h
  | _ ↦ h
]

abbrev pub subscriptions : Items → History → History
subscriptions nil h = h
subscriptions (cons iface ifaces) h =
    subscriptions ifaces (subscription (json_object_get iface "ifname") h)

subscribe_lem :
    (name : Option Json) (e : Env) (w : World)
    → ((h : History) (r : Request) → e.reply h r ≡ pos 0)
    → ((subscribe name e w).0 ≡ pos 0) × ((subscribe name e w).1.calls ≡ subscription name w.calls)
unfolding subscribe pure request
subscribe_lem none e w ok = (refl, refl)
subscribe_lem (some (string s)) e w ok = (ok w.calls _, ground arith)
subscribe_lem (some _) e w ok = (refl, refl)

go_on_lem :
    (m k : M ℤ) (e : Env) (w : World)
    → (m e w).0 ≡ pos 0
    → (m >>= λ err. if is_zero err then k else pure err) e w ≡ k e (m e w).1
unfolding ◌>>=◌
go_on_lem m k e w h = rw h refl

all_lem :
    (ifaces : Items) (e : Env) (w : World)
    → ((h : History) (r : Request) → e.reply h r ≡ pos 0)
    → ((subscribe_all ifaces e w).0 ≡ pos 0)
      × ((subscribe_all ifaces e w).1.calls ≡ subscriptions ifaces w.calls)
unfolding subscribe_all ◌>>=◌ subscribe
all_lem nil e w ok = (refl, refl)
all_lem (cons iface ifaces) e w ok =
    let (zero_status, here) = subscribe_lem (json_object_get iface "ifname") e w ok in
    let next = (subscribe (json_object_get iface "ifname") e w).1 in
    let (fine, later) = all_lem ifaces e next ok in
    let step =
      go_on_lem (subscribe (json_object_get iface "ifname")) (subscribe_all ifaces) e w
        zero_status in
    (ap (λ r. r.0) step ∙ fine, ap (λ r. r.1.calls) step ∙ later ∙ ap (subscriptions ifaces) here)

-- The stream of `ip`, read and closed.
abbrev pub links_read : World → World
links_read w =
    let cmd = link_show none in
    record w { calls = closed cmd ∷ got cmd ∷ opened cmd "re" ∷ w.calls }

read_lem :
    (ifaces : Items) (e : Env) (w : World)
    → ((h : History) (path mode : String) → e.open_errno h path mode ≡ none)
    → ((h : History) (fp : String) → e.json h fp ≡ some (array ifaces))
    → get_ip_link_json none e w ≡ (some ifaces, links_read w)
unfolding get_ip_link_json popenf read_links ◌>>=◌
read_lem ifaces e w opens prints =
    rw
      (
        opens w.calls (link_show none) "re",
        prints (opened (link_show none) "re" ∷ w.calls) (link_show none),
      )
      refl

-- Where `ip` runs and prints an array, and sysrepo accepts each subscription: the daemon subscribes
-- to each interface that has a name, in their order, and passes over one without.
pub reg_iface_handlers-subscribes :
    (ifaces : Items) (e : Env) (w : World)
    → ((h : History) (path mode : String) → e.open_errno h path mode ≡ none)
    → ((h : History) (fp : String) → e.json h fp ≡ some (array ifaces))
    → ((h : History) (r : Request) → e.reply h r ≡ pos 0)
    → let r = reg_iface_handlers e w in
      let cmd = link_show none in
      (r.0 ≡ pos 0)
      × (r.1.calls ≡ subscriptions ifaces (closed cmd ∷ got cmd ∷ opened cmd "re" ∷ w.calls))
unfolding reg_iface_handlers subscribe_items ◌>>=◌
reg_iface_handlers-subscribes ifaces e w opens prints ok =
    let read = read_lem ifaces e w opens prints in
    let (fine, all) = all_lem ifaces e (links_read w) ok in
    let run : reg_iface_handlers e w ≡ subscribe_all ifaces e (links_read w) =
      ap (λ r. subscribe_items r.0 e r.1) read in
    (ap (λ r. r.0) run ∙ fine, ap (λ r. r.1.calls) run ∙ all)
