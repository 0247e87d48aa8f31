-- ===== src/System/Hostname/Laws.antt =====
-- The names of the host after a change (src/confd/src/confd/ietf-system.c, change_hostname).
use infix_lib.Prelude.{
  ℤ, pos, ◌≡◌, refl, ap, ◌∙◌, String, ◌==◌, Bool, true, false, Option, some, List, ◌∷◌, arith,
  is_zero, get_or, if◌then◌else◌,
}
use infix_lib.Machine.Values.{aug_get, aug_set, aug_match, aug_save, sethostname, done}
use infix_lib.Machine.{
  Env, World, ◌>>=◌, request, request_text, request_list, system, requesting, pure, ran,
}
use infix_lib.Machine.Requests.{requesting_lem}
use infix_lib.Srx.{srx_get_str, sr_err_ok, sr_err_sys}
use infix_lib.Srx.Keeps.{Keeps-srx_get_str}
use infix_lib.System.Hostname.Augeas.{
  Values, augeas, on_disk, Answers, value_view, asked_lem, set_lem,
}
use infix_lib.System.Hostname.{
  hostname_path, rename_hosts, activate_host, sys_reload_services, set_host, change_hostname,
}
use infix_lib.System.Hostname.Entries.{contains, renamed, hosts_lem}

new_stays : (current nm : String) → renamed current nm (some nm) ≡ some nm
new_stays current nm = ground arith

first_name :
    (current nm : String) (named listed : Bool) (t : Option String)
    → (let o = if named then some nm else t in if listed then renamed current nm o else o)
      ≡ (if named then some nm else if listed then renamed current nm t else t)
first_name current nm true true t = new_stays current nm
first_name current nm true false t = refl
first_name current nm false listed t = refl

module _ (e : Env) (s : Values) (hosts : List String) (answers : Answers e s hosts) where
  activate_lem :
      (p : String) (err : ℤ) (w : World)
      → err ≡ pos 0
      → let r = activate_host err e w in
        (r.0 ≡ sr_err_ok) × (on_disk s r.1.calls p ≡ augeas s w.calls p)
  unfolding activate_host sys_reload_services system request ◌>>=◌ pure
  activate_lem p err w h =
      let v = requesting aug_save e w in
      rw h (
        ap (λ b. if is_zero b then sr_err_ok else sr_err_sys)
            (answers.runs v.calls "initctl -nbq touch sysklogd lldpd"),
        ap (λ h'. on_disk s (ran "initctl -nbq touch sysklogd lldpd" ∷ h') p)
            (requesting_lem aug_save e w),
      )

  -- The whole of it, once the names are read.
  set_host_lem :
      (current nm p : String) (w : World)
      → let r = set_host nm (some current) e w in
        (r.0 ≡ sr_err_ok)
        × (on_disk s r.1.calls p ≡ (
            let o = if hostname_path == p then some nm else augeas s w.calls p in
            if contains p hosts then renamed current nm o else o))
  unfolding set_host ◌>>=◌ request_list
  set_host_lem current nm p w =
      let called = request (sethostname nm) e w in
      let v = called.1 in
      let set = request (aug_set hostname_path nm) e v in
      let (set_ok, named) = set_lem e s hosts answers hostname_path nm p v in
      let matched = request_list (aug_match "etc/hosts/*/canonical") e set.1 in
      let (ok, changed) =
        hosts_lem e s hosts answers current nm p matched.0 set.0 matched.1 set_ok in
      let r = rename_hosts current nm matched.0 set.0 e matched.1 in
      let (fine, kept) = activate_lem p r.0 r.1 ok in
      rw (answers.replies w.calls (sethostname nm)) (
        fine,
        kept
            ∙ changed
            ∙ ap (λ o. if contains p matched.0 then renamed current nm o else o)
                (asked_lem e s (aug_match "etc/hosts/*/canonical") p set.1 (λ h. refl)
                  ∙ named
                  ∙ ap (λ o. if hostname_path == p then some nm else o)
                      (asked_lem e s (sethostname nm) p w λ h. refl))
            ∙ ap
                (λ entries.
                  let o = if hostname_path == p then some nm else augeas s w.calls p in
                  if contains p entries then renamed current nm o else o)
                (answers.matches set.1.calls),
      )

  -- Where augeas gives back what was set, aug_save writes what augeas holds to the files, and no
  -- call fails: after the change of the host name from `current`, the file /etc/hostname holds the
  -- new name, "infix" if none is configured; so does, in /etc/hosts, each entry whose canonical name
  -- was `current`, and every other value in the files is what augeas held for it.
  pub change_hostname-renames :
      (xpath current p : String) (w : World)
      → augeas s w.calls hostname_path ≡ some current
      → let nm = get_or (srx_get_str xpath e w).0 "infix" in
        let r = change_hostname xpath done e w in
        (r.0 ≡ sr_err_ok)
        × (on_disk s r.1.calls p ≡ (
            if hostname_path == p
            then some nm
            else if contains p hosts
            then renamed current nm (augeas s w.calls p)
            else augeas s w.calls p))
  unfolding change_hostname request_text ◌>>=◌
  change_hostname-renames xpath current p w h =
      let read = srx_get_str xpath e w in
      let nm = get_or read.0 "infix" in
      let v = requesting (aug_get hostname_path) e read.1 in
      let seen =
        answers.gets read.1.calls hostname_path
        ∙ (Keeps-srx_get_str (value_view s hostname_path) xpath refl).at e w
        ∙ h in
      let same =
        asked_lem e s (aug_get hostname_path) p read.1 (λ u. refl)
        ∙ (Keeps-srx_get_str (value_view s p) xpath refl).at e w in
      let (ok, after) = set_host_lem current nm p v in
      rw seen (
        ok,
        after
            ∙ first_name current nm (hostname_path == p) (contains p hosts) (augeas s v.calls p)
            ∙ ap
                (λ t.
                  if hostname_path == p
                  then some nm
                  else if contains p hosts
                  then renamed current nm t
                  else t)
                same,
      )
