-- ===== src/Klinfix/Laws.antt =====
-- The connections and the datastores of the commands (src/klinfix/src/klinfix.c).
use infix_lib.Prelude.{
  ℕ, suc, ◌+◌, ℤ, pos, String, Bool, true, false, ◌&&◌, Option, none, some, [], ◌∷◌, ◌≡◌, refl,
  arith, is_zero, negsuc, if◌then◌else◌,
}
use infix_lib.Machine.Values.{
  Datastore, startup, running, candidate, operational, factory_default, connect, disconnect,
  session_start, copy_config,
}
use infix_lib.Machine.{Env, World, History, Call, requested, ◌>>=◌, pure, requesting}
use infix_lib.Machine.Requests.{requesting_lem}
use infix_lib.Klinfix.{
  klix_ds_from_str, is_source, is_destination, leave, copy_in_session, copy_connected, copy_between,
  copy_named, klix_copy,
}

-- How many connections are made, and how many are ended.
abbrev pub connected : Env → History → ℕ
connected e [] = 0
connected e (requested connect ∷ h) =
    if is_zero (e.reply h connect) then suc (connected e h) else connected e h
connected e (_ ∷ h) = connected e h

abbrev pub disconnected : History → ℕ
disconnected [] = 0
disconnected (requested disconnect ∷ h) = suc (disconnected h)
disconnected (_ ∷ h) = disconnected h

-- A session is only opened on startup or running, and a copy is only made from startup, running or
-- the factory default.
abbrev pub permitted_call : Call → Bool
permitted_call (requested (session_start startup)) = true
permitted_call (requested (session_start running)) = true
permitted_call (requested (session_start ds)) = false
permitted_call (requested (copy_config startup)) = true
permitted_call (requested (copy_config running)) = true
permitted_call (requested (copy_config factory_default)) = true
permitted_call (requested (copy_config ds)) = false
permitted_call _ = true

abbrev pub permitted : History → Bool
permitted [] = true
permitted (c ∷ h) = permitted_call c && permitted h

is_source-permitted :
    (ds : Datastore) → is_source ds ≡ true → permitted_call (requested (copy_config ds)) ≡ true
is_source-permitted startup h = refl
is_source-permitted running h = refl
is_source-permitted factory_default h = refl
is_source-permitted candidate h = absurd (ground (arith, h))
is_source-permitted operational h = absurd (ground (arith, h))

is_destination-permitted :
    (ds : Datastore)
    → is_destination ds ≡ true
    → permitted_call (requested (session_start ds)) ≡ true
is_destination-permitted startup h = refl
is_destination-permitted running h = refl
is_destination-permitted factory_default h = absurd (ground (arith, h))
is_destination-permitted candidate h = absurd (ground (arith, h))
is_destination-permitted operational h = absurd (ground (arith, h))

leave_lem : (rc : ℤ) (e : Env) (w : World) → (leave rc e w).1.calls ≡ requested disconnect ∷ w.calls
unfolding leave ◌>>=◌
leave_lem rc e w = requesting_lem disconnect e w

in_session_lem :
    (src : Datastore) (e : Env) (w : World)
    → (copy_in_session src e w).1.calls
      ≡ requested disconnect ∷ requested (copy_config src) ∷ w.calls
unfolding copy_in_session ◌>>=◌
in_session_lem src e w =
    let copied = requesting_lem (copy_config src) e w in
    let next = requesting (copy_config src) e w in
    ground (arith, copied, leave_lem (pos 0) e next, leave_lem (negsuc 0) e next)

connected_lem :
    (src dst : Datastore) (e : Env) (w : World)
    → (copy_connected src dst e w).1.calls
      ≡ requested disconnect
        ∷ (if is_zero (e.reply w.calls (session_start dst))
            then requested (copy_config src) ∷ requested (session_start dst) ∷ w.calls
            else requested (session_start dst) ∷ w.calls)
unfolding copy_connected ◌>>=◌
connected_lem src dst e w =
    let opened = requesting_lem (session_start dst) e w in
    let next = requesting (session_start dst) e w in
    ground (arith, opened, in_session_lem src e next, leave_lem (negsuc 0) e next)

-- What a copy between two datastores leaves in the history.
abbrev pub copy_calls : Datastore → Datastore → Env → History → History
copy_calls src dst e h =
    if is_zero (e.reply h connect)
    then requested disconnect
      ∷ (if is_zero (e.reply (requested connect ∷ h) (session_start dst))
          then requested (copy_config src) ∷ requested (session_start dst) ∷ requested connect ∷ h
          else requested (session_start dst) ∷ requested connect ∷ h)
    else requested connect ∷ h

between_lem :
    (src dst : Datastore) (e : Env) (w : World)
    → (copy_between src dst e w).1.calls
      ≡ (if is_source src && is_destination dst then copy_calls src dst e w.calls else w.calls)
unfolding copy_between ◌>>=◌
between_lem src dst e w =
    let made = requesting_lem connect e w in
    let next = requesting connect e w in ground (arith, made, connected_lem src dst e next)

-- A copy keeps both counts in step and makes permitted calls only.
copies_lem :
    (src dst : Datastore) (e : Env) (h : History)
    → (connected e (copy_calls src dst e h) + disconnected h
        ≡ connected e h + disconnected (copy_calls src dst e h))
      × (is_source src ≡ true
          → is_destination dst ≡ true
          → permitted (copy_calls src dst e h) ≡ permitted h)
copies_lem src dst e h =
    (ground arith, λ s d. ground (arith, is_source-permitted src s, is_destination-permitted dst d))

named_lem :
    (src dst : Option Datastore) (e : Env) (w : World)
    → let h = (copy_named src dst e w).1.calls in
      (connected e h + disconnected w.calls ≡ connected e w.calls + disconnected h)
      × (permitted h ≡ permitted w.calls)
unfolding copy_named pure
named_lem none dst e w = (refl, refl)
named_lem (some src) none e w = (refl, refl)
named_lem (some src) (some dst) e w =
    let made = between_lem src dst e w in
    let (counts, kept) = copies_lem src dst e w.calls in
    (ground (arith, made, counts), ground (arith, made, kept))

-- Whatever the two names are and whatever fails, a copy ends each connection that it makes, opens
-- a session on startup or running only, and copies from startup, running or the factory default
-- only.
pub klix_copy-permitted :
    (src dst : Option String) (e : Env) (w : World)
    → let h = (klix_copy src dst e w).1.calls in
      (connected e h + disconnected w.calls ≡ connected e w.calls + disconnected h)
      × (permitted h ≡ permitted w.calls)
unfolding klix_copy pure
klix_copy-permitted none dst e w = (refl, refl)
klix_copy-permitted (some src) none e w = (refl, refl)
klix_copy-permitted (some src) (some dst) e w =
    named_lem (klix_ds_from_str src) (klix_ds_from_str dst) e w
