-- ===== src/Interfaces/Autoconf.antt =====
-- Autoconfiguration and the sysctl script of an interface
-- (src/confd/src/confd/ietf-interfaces.c, netdag_exit_reload, netdag_gen_ipv6_autoconf to
-- netdag_gen_sysctl).
pub mod Sysctl
use infix_lib.Prelude.{
  ℤ, pos, String, ◌==◌, ◌=ℕ◌, Bool, false, not, ◌&&◌, ◌||◌, Option, none, some, [], ◌∷◌, is_zero,
  is_some, if◌then◌else◌,
}
use infix_lib.Text.{concat}
use infix_lib.Lyx.Tree.{Node, lyd_child}
use infix_lib.Lyx.{
  LydxDiff, lydx_get_op, lydx_get_diff, lydx_get_child, lydx_get_descendant, lydx_get_cattr,
  lydx_is_enabled,
}
use infix_lib.Machine.{M, ◌>>=◌, ◌>>◌, pure, fputs, fclose, get_errno}
use infix_lib.Dagger.{Dagger, dagger_fopen_next, dagger_fopen_current, eunatch}
use infix_lib.Interfaces.Addresses.{str, e_io, is_off, is_replace}

abbrev pub has_text : String → Option String → Bool
has_text t none = false
has_text t (some s) = s == t

-- A stream that was opened gets one text and is closed; `err` is the result without a stream.
unfoldable pub reload_script : Option String → M ℤ
reload_script none = pure e_io
reload_script (some initctl) = do
  fputs "initctl -bnq reload\n" initctl
  fclose initctl
  pure (pos 0)

unfoldable pub netdag_exit_reload : Dagger → M ℤ
netdag_exit_reload net = do
  initctl ← dagger_fopen_current net "exit" "@post" 90 "reload.sh"
  reload_script initctl

-- The three outcomes of the two autoconf functions.
pub data Autoconf : Type 0 where
  enable disable leave : Autoconf

-- Which of them it is. The path below `autoconf` starts at that node itself, so that `name` is
-- looked for among its siblings.
unfoldable pub choose_autoconf : String → (LydxDiff → Bool) → Option Node → Option Node → Autoconf
choose_autoconf name wanted ipconf ipdiff =
    let enabled_changed = is_replace (lydx_get_op (lydx_get_child ipdiff "enabled")) in
    let autoconf = lydx_get_child ipconf "autoconf" in
    let nd = lydx_get_diff (lydx_get_descendant (lydx_get_child ipdiff "autoconf") (name ∷ [])) in
    if is_off ipconf
    then disable
    else if enabled_changed
    then if is_some autoconf && lydx_is_enabled autoconf name then enable else disable
    else if nd.modified
    then if wanted nd then enable else disable
    else leave

unfoldable pub put_autoconf : String → Autoconf → M ℤ
put_autoconf ip enable = do fputs " addrgenmode eui64" ip; pure (pos 0)
put_autoconf ip disable = do fputs " addrgenmode none" ip; pure (pos 0)
put_autoconf ip leave = pure (pos 0)

unfoldable pub netdag_gen_ipv6_autoconf : String → Option Node → Option Node → M ℤ
netdag_gen_ipv6_autoconf ip cif dif = put_autoconf ip (
    choose_autoconf "create-global-addresses" (λ nd. not (is_some nd.new) || has_text "true" nd.val)
      (lydx_get_child cif "ipv6") (lydx_get_child dif "ipv6"))

unfoldable pub zeroconf_up : String → Option String → M ℤ
zeroconf_up ifname none = pure e_io
zeroconf_up ifname (some initctl) = do
  fputs (concat ("initctl -bnq enable zeroconf@" ∷ ifname ∷ ".conf\n" ∷ [])) initctl
  fclose initctl
  pure (pos 0)

-- Without a current generation there is nothing to take down.
unfoldable pub zeroconf_down : Dagger → String → Option String → M ℤ
zeroconf_down net ifname none = do
  errno ← get_errno
  pure (if errno =ℕ eunatch then pos 0 else e_io)
zeroconf_down net ifname (some initctl) = do
  fputs (concat ("initctl -bnq disable zeroconf@" ∷ ifname ∷ ".conf\n" ∷ [])) initctl
  err ← netdag_exit_reload net
  fclose initctl
  pure err

unfoldable pub set_zeroconf : Dagger → String → Autoconf → M ℤ
set_zeroconf net ifname enable = do
  initctl ← dagger_fopen_next net "init" ifname 60 "zeroconf-up.sh"
  zeroconf_up ifname initctl
set_zeroconf net ifname disable = do
  initctl ← dagger_fopen_current net "exit" ifname 40 "zeroconf-down.sh"
  zeroconf_down net ifname initctl
set_zeroconf net ifname leave = pure (pos 0)

unfoldable pub netdag_gen_ipv4_autoconf : Dagger → Option Node → Option Node → M ℤ
netdag_gen_ipv4_autoconf net cif dif = set_zeroconf net (str (lydx_get_cattr dif "name")) (
    choose_autoconf "enabled" (λ nd. is_some nd.new && has_text "true" nd.val)
      (lydx_get_child cif "ipv4") (lydx_get_child dif "ipv4"))

-- The error and `*fpp`: the stream is opened for the first setting that changed.
unfoldable pub put_sysctl : String → Bool → Option String → M (ℤ × Option String)
put_sysctl key on none = pure (e_io, none)
put_sysctl key on (some fp) = do
  fputs key fp
  fputs (if on then " = 1\n" else " = 0\n") fp
  pure (pos 0, some fp)

unfoldable pub open_sysctl : Dagger → String → Option String → M (Option String)
open_sysctl net ifname none = dagger_fopen_next net "init" ifname 60 "init.sysctl"
open_sysctl net ifname (some fp) = pure (some fp)

unfoldable pub netdag_gen_sysctl_bool :
    Dagger → String → Option String → Option Node → String → M (ℤ × Option String)
netdag_gen_sysctl_bool net ifname fpp node key =
    let nd = lydx_get_diff node in
    if nd.modified
    then (do
      fp ← open_sysctl net ifname fpp
      put_sysctl key (is_some nd.new && has_text "true" nd.val) fp)
    else pure (pos 0, fpp)

unfoldable pub close_sysctl : Option String → ℤ → M ℤ
close_sysctl none err = pure err
close_sysctl (some fp) err = do fclose fp; pure err

abbrev pub forwarding : String → String → String
forwarding family ifname = concat ("net." ∷ family ∷ ".conf." ∷ ifname ∷ ".forwarding" ∷ [])

abbrev pub forwarding_node : String → Option Node → Option Node
forwarding_node family dif = lydx_get_descendant (lyd_child dif) (family ∷ "forwarding" ∷ [])

unfoldable pub sysctl_ipv6 : Dagger → String → Option Node → ℤ × Option String → M ℤ
sysctl_ipv6 net ifname dif (err, sysctl) =
    if is_zero err
    then (do
      (err, sysctl) ←
          netdag_gen_sysctl_bool net ifname sysctl (forwarding_node "ipv6" dif)
            (forwarding "ipv6" ifname)
      close_sysctl sysctl err)
    else close_sysctl sysctl err

unfoldable pub netdag_gen_sysctl : Dagger → Option Node → M ℤ
netdag_gen_sysctl net dif =
    let ifname : String = str (lydx_get_cattr dif "name") in
    do
      first ←
          netdag_gen_sysctl_bool net ifname none (forwarding_node "ipv4" dif)
            (forwarding "ipv4" ifname)
      sysctl_ipv6 net ifname dif first
