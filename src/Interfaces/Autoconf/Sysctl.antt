-- ===== src/Interfaces/Autoconf/Sysctl.antt =====
-- The script of the settings of an interface (src/confd/src/confd/ietf-interfaces.c,
-- netdag_gen_sysctl).
use infix_lib.Prelude.{
  ◌≡◌, refl, pos, String, ◌<>◌, Bool, true, false, ◌&&◌, Option, none, some, List, [], ◌∷◌, is_some,
  if◌then◌else◌, ◌++◌, Bool-cases, inl, inr,
}
use infix_lib.Lyx.Tree.{Node}
use infix_lib.Lyx.{LydxDiff, lydx_get_diff, lydx_get_cattr}
use infix_lib.Machine.{
  Env, World, History, ran, opened, wrote, chmodded, closed, ◌>>=◌, pure, system, fopen, fputs,
  fchmod, fclose,
}
use infix_lib.Text.{rindex}
use infix_lib.Dagger.{
  Dagger, action_dir, dagger_fopen, dagger_fopen_next, prepare, put_header, kept, interpreter,
}
use infix_lib.Dagger.Files.{script_file}
use infix_lib.Interfaces.Addresses.{str}
use infix_lib.Interfaces.Autoconf.{
  put_sysctl, open_sysctl, netdag_gen_sysctl_bool, close_sysctl, forwarding, forwarding_node,
  sysctl_ipv6, netdag_gen_sysctl, has_text,
}

-- Commands succeed, and files can be opened and get their mode.
pub record Works (e : Env) : Type 0 where
  pub runs : (h : History) (cmd : String) → e.status h cmd ≡ pos 0
  pub opens : (h : History) (path mode : String) → e.open_errno h path mode ≡ none
  pub chmods : (h : History) (fp : String) → e.chmod_errno h fp ≡ none

abbrev pub sysctl_file : Dagger → String → String
sysctl_file net ifname = script_file net net.next "init" ifname 60 "init.sysctl"

-- What opening the script does.
abbrev pub opened_calls : Dagger → String → History → History
opened_calls net ifname h =
    chmodded (sysctl_file net ifname) 0o774
    ∷ wrote (sysctl_file net ifname) "#!/sbin/sysctl -p\n\n"
    ∷ opened (sysctl_file net ifname) "w"
    ∷ ran ("mkdir -p " <> action_dir net net.next "init" ifname)
    ∷ h

-- A key, and whether it is switched on.
abbrev pub Setting : Type 0
Setting = String × Bool

abbrev pub setting_of : LydxDiff → String → List Setting
setting_of nd key = if nd.modified then (key, is_some nd.new && has_text "true" nd.val) ∷ [] else []

-- The settings of a difference.
abbrev pub settings_of : String → Option Node → List Setting
settings_of ifname dif =
    setting_of (lydx_get_diff (forwarding_node "ipv4" dif)) (forwarding "ipv4" ifname)
    ++ setting_of (lydx_get_diff (forwarding_node "ipv6" dif)) (forwarding "ipv6" ifname)

-- One line for each, in order.
abbrev pub lines_calls : String → List Setting → History → History
lines_calls fp [] h = h
lines_calls fp ((key, on) ∷ settings) h =
    lines_calls fp settings (wrote fp (if on then " = 1\n" else " = 0\n") ∷ wrote fp key ∷ h)

-- Without a setting there is no script.
abbrev pub script_calls : Dagger → String → List Setting → History → History
script_calls net ifname [] h = h
script_calls net ifname (setting ∷ settings) h =
    let fp = sysctl_file net ifname in
    closed fp ∷ lines_calls fp (setting ∷ settings) (opened_calls net ifname h)

module _ (e : Env) (works : Works e) (net : Dagger) (ifname : String) where
  opened_lem :
      (w : World)
      → open_sysctl net ifname none e w
        ≡ (some (sysctl_file net ifname), record w { calls = opened_calls net ifname w.calls })
  unfolding open_sysctl dagger_fopen_next dagger_fopen prepare put_header kept interpreter ◌>>=◌
      system fopen fputs fchmod pure rindex
  opened_lem w = rw (works.runs w.calls _) (rw (works.opens _ _ _) (rw (works.chmods _ _) refl))

  -- One setting: as it is, the first one, and another one.
  same_lem :
      (n : Option Node) (key : String) (fpp : Option String) (w : World)
      → (lydx_get_diff n).modified ≡ false
      → netdag_gen_sysctl_bool net ifname fpp n key e w ≡ ((pos 0, fpp), w)
  unfolding netdag_gen_sysctl_bool pure
  same_lem n key fpp w h = rw h refl

  first_lem :
      (n : Option Node) (key : String) (w : World)
      → (lydx_get_diff n).modified ≡ true
      → netdag_gen_sysctl_bool net ifname none n key e w ≡ (
        (pos 0, some (sysctl_file net ifname)),
        record w {
          calls =
              lines_calls
                (sysctl_file net ifname)
                (setting_of (lydx_get_diff n) key)
                (opened_calls net ifname w.calls);
        },
      )
  unfolding netdag_gen_sysctl_bool put_sysctl fputs ◌>>=◌ pure
  first_lem n key w h = rw h (rw (opened_lem w) refl)

  next_lem :
      (n : Option Node) (key fp : String) (w : World)
      → (lydx_get_diff n).modified ≡ true
      → netdag_gen_sysctl_bool net ifname (some fp) n key e w ≡ (
        (pos 0, some fp),
        record w { calls = lines_calls fp (setting_of (lydx_get_diff n) key) w.calls },
      )
  unfolding netdag_gen_sysctl_bool open_sysctl put_sysctl fputs ◌>>=◌ pure
  next_lem n key fp w h = rw h refl

  -- The second family, with the script open or not.
  opened_then :
      (dif : Option Node) (fp : String) (w : World)
      → let r = sysctl_ipv6 net ifname dif (pos 0, some fp) e w in
        (r.0 ≡ pos 0)
        × (r.1.calls
            ≡ closed fp
              ∷ lines_calls fp
                  (setting_of
                    (lydx_get_diff (forwarding_node "ipv6" dif))
                    (forwarding "ipv6" ifname))
                  w.calls)
  unfolding sysctl_ipv6 close_sysctl fclose ◌>>=◌ pure
  opened_then dif fp w = elim (Bool-cases (lydx_get_diff (forwarding_node "ipv6" dif)).modified) [
    | inl y ↦
        rw (next_lem (forwarding_node "ipv6" dif) (forwarding "ipv6" ifname) fp w y) (refl, refl)
    | inr n ↦
        rw (same_lem (forwarding_node "ipv6" dif) (forwarding "ipv6" ifname) (some fp) w n)
          (rw n (refl, refl))
  ]

  closed_then :
      (dif : Option Node) (w : World)
      → let r = sysctl_ipv6 net ifname dif (pos 0, none) e w in
        (r.0 ≡ pos 0)
        × (r.1.calls
            ≡ script_calls net ifname
                (setting_of (lydx_get_diff (forwarding_node "ipv6" dif)) (forwarding "ipv6" ifname))
                w.calls)
  unfolding sysctl_ipv6 close_sysctl fclose ◌>>=◌ pure
  closed_then dif w = elim (Bool-cases (lydx_get_diff (forwarding_node "ipv6" dif)).modified) [
    | inl y ↦
        rw (first_lem (forwarding_node "ipv6" dif) (forwarding "ipv6" ifname) w y)
          (rw y (refl, refl))
    | inr n ↦
        rw (same_lem (forwarding_node "ipv6" dif) (forwarding "ipv6" ifname) none w n)
          (rw n (refl, refl))
  ]

-- Where commands succeed and files can be opened: the settings of the difference that changed are
-- written, in order, to one script of the next generation, which is closed once; without such a
-- setting there is no script, and nothing is done at all.
pub netdag_gen_sysctl_lem :
    (e : Env) (net : Dagger) (dif : Option Node) (w : World)
    → Works e
    → let ifname : String = str (lydx_get_cattr dif "name") in
      let r = netdag_gen_sysctl net dif e w in
      (r.0 ≡ pos 0) × (r.1.calls ≡ script_calls net ifname (settings_of ifname dif) w.calls)
unfolding netdag_gen_sysctl ◌>>=◌
netdag_gen_sysctl_lem e net dif w works =
    let ifname : String = str (lydx_get_cattr dif "name") in
    let node4 = forwarding_node "ipv4" dif in
    elim (Bool-cases (lydx_get_diff node4).modified) [
      | inl y ↦
          rw (first_lem e works net ifname node4 (forwarding "ipv4" ifname) w y)
            (rw y (opened_then e works net ifname dif (sysctl_file net ifname) _))
      | inr n ↦
          rw (same_lem e works net ifname node4 (forwarding "ipv4" ifname) none w n)
            (rw n (closed_then e works net ifname dif w))
    ]
