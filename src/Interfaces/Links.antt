-- ===== src/Interfaces/Links.antt =====
-- The kinds of an interface (src/confd/src/confd/ietf-interfaces.c,
-- netdag_gen_veth to netdag_must_del).
pub mod Laws
pub mod Veth
use Prim.Native.Nat.{bit_or}
use infix_lib.Prelude.{
  ℕ, ◌%◌, ◌^◌, ℤ, pos, negsuc, String, ◌<>◌, ◌==◌, ◌=ℕ◌, Bool, true, false, not, ◌&&◌, ◌||◌, Option,
  none, some, List, [], ◌∷◌, is_zero, is_some, or_else, if◌then◌else◌,
}
use infix_lib.Text.{concat, show_int}
use infix_lib.Lyx.Tree.{Node, leaf_of, lyd_child, siblings, named}
use infix_lib.Lyx.{
  LydxDiff, lydx_get_op, lydx_get_diff, lydx_get_child, lydx_get_descendant, lydx_get_cattr,
  lydx_is_enabled,
}
use infix_lib.Machine.{M, ◌>>=◌, ◌>>◌, pure, fputs, fclose, get_errno, union_value}
use infix_lib.Dagger.{
  Dagger, dagger_fopen_next, dagger_fopen_current, dagger_add_dep, dagger_skip_iface,
  dagger_should_skip, eunatch,
}
use infix_lib.Srx.{to_int}
use infix_lib.Interfaces.Infer.{type_veth, type_bridge, type_vlan}
use infix_lib.Interfaces.Addresses.{str, e_io, e_inval, is_off, is_replace}
use infix_lib.Interfaces.Autoconf.{
  has_text, reload_script, netdag_exit_reload, choose_autoconf, put_autoconf,
  netdag_gen_ipv6_autoconf, zeroconf_up, zeroconf_down, set_zeroconf, netdag_gen_ipv4_autoconf,
  put_sysctl, open_sysctl, netdag_gen_sysctl_bool, close_sysctl, forwarding, forwarding_node,
  sysctl_ipv6, netdag_gen_sysctl, Autoconf, enable, disable, leave,
}

abbrev pub e_nosys : ℤ
e_nosys = negsuc 37

-- The end of a pair that was created by its peer only waits for it.
unfoldable pub veth_with : Dagger → String → String → String → Bool → M ℤ
veth_with net ifname peer ip true = dagger_add_dep net ifname peer
veth_with net ifname peer ip false = do
  dagger_skip_iface net peer
  fputs (concat ("link add dev " ∷ ifname ∷ " down type veth peer " ∷ peer ∷ "\n" ∷ [])) ip
  pure (pos 0)

unfoldable pub veth_at : Dagger → String → String → Option Node → M ℤ
veth_at net ifname ip none = pure e_inval
veth_at net ifname ip (some node) = do
  skip ← dagger_should_skip net ifname
  veth_with net ifname (str (lydx_get_cattr (some node) "peer")) ip skip

unfoldable pub netdag_gen_veth : Dagger → Option Node → String → M ℤ
netdag_gen_veth net cif ip =
    veth_at net (str (lydx_get_cattr cif "name")) ip
      (lydx_get_descendant (lyd_child cif) ("veth" ∷ []))

abbrev pub c_vlan : String
c_vlan = "ieee802-dot1q-types:c-vlan"

abbrev pub s_vlan : String
s_vlan = "ieee802-dot1q-types:s-vlan"

unfoldable pub put_vlan_id : LydxDiff → String → M ℤ
put_vlan_id vidd ip = do
  if vidd.modified then fputs (" id " <> str vidd.new) ip else pure tt
  fputs "\n" ip
  pure (pos 0)

unfoldable pub put_vlan : LydxDiff → LydxDiff → String → M ℤ
put_vlan typed vidd ip =
    if typed.modified
    then if has_text c_vlan typed.new
      then (do fputs " proto 802.1Q" ip; put_vlan_id vidd ip)
      else if has_text s_vlan typed.new
      then (do fputs " proto 802.1ad" ip; put_vlan_id vidd ip)
      else pure e_nosys
    else put_vlan_id vidd ip

unfoldable pub vlan_tagged : String → String → Option Node → String → M ℤ
vlan_tagged ifname parent none ip = pure (pos 0)
vlan_tagged ifname parent (some otag) ip = do
  fputs (concat ("link add dev " ∷ ifname ∷ " down link " ∷ parent ∷ " type vlan" ∷ [])) ip
  put_vlan (lydx_get_diff (lydx_get_child (some otag) "tag-type"))
      (lydx_get_diff (lydx_get_child (some otag) "vlan-id")) ip

abbrev pub outer_tag_of : Option Node → Option Node
outer_tag_of n =
    lydx_get_descendant (lyd_child n) ("encapsulation" ∷ "dot1q-vlan" ∷ "outer-tag" ∷ [])

unfoldable pub netdag_gen_vlan : Dagger → Option Node → Option Node → String → M ℤ
netdag_gen_vlan net dif cif ip =
    let parent : String = str (lydx_get_cattr cif "parent-interface") in
    let ifname : String = str (lydx_get_cattr cif "name") in
    do
      err ← dagger_add_dep net ifname parent
      if is_zero err
          then vlan_tagged ifname parent (outer_tag_of (or_else dif cif)) ip
          else pure err

abbrev pub with_bit : ℕ → Option ℕ → ℕ
with_bit mask none = mask
with_bit mask (some val) = bit_or mask (2 ^ val % 2 ^ 32)

unfoldable pub fwd_mask : ℕ → List Node → M ℕ
fwd_mask mask [] = pure mask
fwd_mask mask (n ∷ ns) = do val ← union_value (leaf_of n.this); fwd_mask (with_bit mask val) ns

unfoldable pub mask_of : Option Node → M ℕ
mask_of none = pure 0
mask_of (some node) = fwd_mask 0 (named "ieee-group-forward" (siblings (lyd_child (some node))))

-- The bits of the 32-bit `int`.
unfoldable pub netdag_get_bridge_fwd_mask : Option Node → M ℕ
netdag_get_bridge_fwd_mask cif = mask_of (lydx_get_descendant (lyd_child cif) ("bridge" ∷ []))

-- `link <verb> dev <ifname> type bridge group_fwd_mask <mask>`
unfoldable pub put_bridge : String → Option Node → String → M ℤ
put_bridge verb cif ip = do
  mask ← netdag_get_bridge_fwd_mask cif
  fputs
      (concat (
        "link "
        ∷ verb
        ∷ " dev "
        ∷ str (lydx_get_cattr cif "name")
        ∷ " type bridge group_fwd_mask "
        ∷ show_int (to_int (pos mask))
        ∷ "\n"
        ∷ []))
      ip
  pure (pos 0)

unfoldable pub netdag_set_bridge : Option Node → String → M ℤ
unfolding put_bridge
netdag_set_bridge cif ip = put_bridge "set" cif ip

unfoldable pub netdag_gen_afspec_add : Dagger → Option Node → String → M ℤ
unfolding put_bridge
netdag_gen_afspec_add net cif ip =
    let iftype : String = str (lydx_get_cattr cif "type") in
    if iftype == type_bridge
    then put_bridge "add" cif ip
    else if iftype == type_veth
    then netdag_gen_veth net cif ip
    else if iftype == type_vlan
    then netdag_gen_vlan net none cif ip
    else pure e_nosys

unfoldable pub netdag_gen_afspec_set : Dagger → Option Node → Option Node → String → M ℤ
netdag_gen_afspec_set net dif cif ip =
    let iftype : String = str (lydx_get_cattr cif "type") in
    if iftype == type_bridge
    then netdag_set_bridge cif ip
    else if iftype == type_vlan
    then netdag_gen_vlan net dif cif ip
    else if iftype == type_veth
    then pure (pos 0)
    else pure e_nosys

unfoldable pub links_at : Dagger → String → String → Option Node → M ℤ
links_at net ifname ip none = pure (pos 0)
links_at net ifname ip (some node) =
    let brname : String = str (lydx_get_cattr (some node) "bridge") in
    do fputs (" master " <> brname) ip; dagger_add_dep net ifname brname

unfoldable pub netdag_bridge_links : Dagger → Option Node → Option Node → String → M ℤ
netdag_bridge_links net dif cif ip =
    links_at net (str (lydx_get_cattr cif "name")) ip
      (lydx_get_descendant (lyd_child cif) ("bridge-port" ∷ []))

unfoldable pub netdag_must_del : Option Node → Option Node → Bool
netdag_must_del dif cif =
    let iftype : String = str (lydx_get_cattr cif "type") in
    if iftype == type_bridge
    then false
    else if iftype == type_vlan
    then is_some (lydx_get_cattr dif "parent-interface") || is_some (outer_tag_of dif)
    else if iftype == type_veth
    then is_some (lydx_get_descendant (lyd_child dif) ("peer" ∷ []))
    else false
