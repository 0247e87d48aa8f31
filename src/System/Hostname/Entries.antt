-- ===== src/System/Hostname/Entries.antt =====
-- The entries of /etc/hosts that are renamed (src/confd/src/confd/ietf-system.c, change_hostname).
use infix_lib.Prelude.{
  ℤ, pos, ◌≡◌, refl, sym, ap, ◌∙◌, String, ◌==◌, Bool, true, false, ◌||◌, Option, none, some, List,
  [], ◌∷◌, arith, if◌then◌else◌, eq_iff, Bool-cases, inl, inr,
}
use infix_lib.Machine.Values.{aug_get, aug_set}
use infix_lib.Machine.{Env, World, ◌>>=◌, request, request_text, requesting, pure}
use infix_lib.System.Hostname.Augeas.{Values, augeas, Answers, asked_lem, set_lem}
use infix_lib.System.Hostname.{rename_host, rename_hosts}

abbrev pub contains : String → List String → Bool
contains p [] = false
contains p (entry ∷ entries) = entry == p || contains p entries

-- A canonical name that is the current one becomes the new one.
abbrev pub renamed : String → String → Option String → Option String
renamed current nm none = none
renamed current nm (some host) = if host == current then some nm else some host

renamed_twice :
    (current nm : String) (o : Option String)
    → renamed current nm (renamed current nm o) ≡ renamed current nm o
renamed_twice current nm none = refl
renamed_twice current nm (some host) = ground arith

-- One entry more.
entry_lem :
    (current nm : String) (here later : Bool) (o : Option String)
    → (let o' = (if here then renamed current nm o else o) in
        if later then renamed current nm o' else o')
      ≡ (if here || later then renamed current nm o else o)
entry_lem current nm true true o = renamed_twice current nm o
entry_lem current nm true false o = refl
entry_lem current nm false later o = refl

-- An entry that is renamed, and one that stays.
here_lem :
    (current nm entry p : String) (t : Values) (o after : Option String)
    → o ≡ t entry
    → after ≡ renamed current nm o
    → (if entry == p then after else t p) ≡ (if entry == p then renamed current nm (t p) else t p)
here_lem current nm entry p t o after h k = elim (Bool-cases (entry == p)) [
  | inl y ↦ rw y (k ∙ ap (renamed current nm) (h ∙ ap t ((eq_iff entry p).0 y)))
  | inr n ↦ rw n refl
]

kept_lem :
    (entry p : String) (t : Values) (o : Option String)
    → o ≡ t entry
    → t p ≡ (if entry == p then o else t p)
kept_lem entry p t o h = elim (Bool-cases (entry == p)) [
  | inl y ↦ rw y (sym (h ∙ ap t ((eq_iff entry p).0 y)))
  | inr n ↦ rw n refl
]

module _ (e : Env) (s : Values) (hosts : List String) (answers : Answers e s hosts) where
  set_if :
      (current nm entry p host : String) (b : Bool) (w : World)
      → host == current ≡ b
      → some host ≡ augeas s w.calls entry
      → let r = (if b then request (aug_set entry nm) else pure (pos 0)) e w in
        (r.0 ≡ pos 0)
        × (augeas s r.1.calls p
            ≡ (if entry == p then renamed current nm (augeas s w.calls p) else augeas s w.calls p))
  unfolding pure
  set_if current nm entry p host true w b h =
      let (ok, after) = set_lem e s hosts answers entry nm p w in
      (
        ok,
        after
            ∙ here_lem current nm entry p (augeas s w.calls) (some host) (some nm) h
                (ground (arith, b)),
      )
  set_if current nm entry p host false w b h = (
    refl,
    kept_lem entry p (augeas s w.calls) (some host) h
        ∙ here_lem current nm entry p (augeas s w.calls) (some host) (some host) h
            (ground (arith, b)),
  )

  host_lem :
      (current nm entry p : String) (o : Option String) (w : World)
      → o ≡ augeas s w.calls entry
      → let r = rename_host current nm entry o (pos 0) e w in
        (r.0 ≡ pos 0)
        × (augeas s r.1.calls p
            ≡ (if entry == p then renamed current nm (augeas s w.calls p) else augeas s w.calls p))
  unfolding rename_host pure
  host_lem current nm entry p none w h = (
    refl,
    kept_lem entry p (augeas s w.calls) none h
        ∙ here_lem current nm entry p (augeas s w.calls) none none h refl,
  )
  host_lem current nm entry p (some host) w h = set_if current nm entry p host _ w refl h

  pub hosts_lem :
      (current nm p : String) (entries : List String) (err : ℤ) (w : World)
      → err ≡ pos 0
      → let r = rename_hosts current nm entries err e w in
        (r.0 ≡ pos 0)
        × (augeas s r.1.calls p ≡ (
            if contains p entries
            then renamed current nm (augeas s w.calls p)
            else augeas s w.calls p))
  unfolding rename_hosts request_text ◌>>=◌ pure
  hosts_lem current nm p [] err w h = (h, refl)
  hosts_lem current nm p (entry ∷ entries) err w h =
      let v = requesting (aug_get entry) e w in
      let o = e.answer w.calls (aug_get entry) in
      let seen : o ≡ augeas s v.calls entry =
        answers.gets w.calls entry ∙ sym (asked_lem e s (aug_get entry) entry w λ u. refl) in
      let (ok, here) = host_lem current nm entry p o v seen in
      let u = rename_host current nm entry o (pos 0) e v in
      let (fine, later) = hosts_lem current nm p entries u.0 u.1 ok in
      let same = asked_lem e s (aug_get entry) p w λ h. refl in
      let step : augeas s u.1.calls p
          ≡ (if entry == p then renamed current nm (augeas s w.calls p) else augeas s w.calls p) =
        here ∙ ap (λ t. if entry == p then renamed current nm t else t) same in
      rw h (
        fine,
        later
            ∙ ap (λ t. if contains p entries then renamed current nm t else t) step
            ∙ entry_lem current nm (entry == p) (contains p entries) (augeas s w.calls p),
      )
