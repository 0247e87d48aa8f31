-- ===== src/Interfaces/Iface/Streams/Parts.antt =====
-- The parts of a script that open and close streams of their own
-- (src/confd/src/confd/ietf-interfaces.c, netdag_exit_reload to netdag_bridge_links).
use infix_lib.Prelude.{
  ◌+◌, ◌≡◌, arith, ℕ, ℤ, String, Bool, true, false, Option, none, some, List, [], ◌∷◌,
}
use infix_lib.Lyx.Tree.{Node}
use infix_lib.Lyx.{LydxDiff}
use infix_lib.Dagger.{Dagger}
use infix_lib.Dagger.Streams.{
  Opens-dagger_fopen_next, Opens-dagger_fopen_current, Balanced-dagger_add_dep,
  Balanced-dagger_skip_iface, Balanced-dagger_should_skip,
}
use infix_lib.Machine.{Env, World, ◌>>=◌}
use infix_lib.Machine.Streams.{Balanced, Closes, opens, closes, one_open, stream_rules}
use infix_lib.Machine.Streams.{Balanced-bind, Balanced-union_value}
use infix_lib.Interfaces.Autoconf.{
  reload_script, netdag_exit_reload, Autoconf, enable, disable, leave, put_autoconf,
  netdag_gen_ipv6_autoconf, zeroconf_up, zeroconf_down, set_zeroconf, netdag_gen_ipv4_autoconf,
  put_sysctl, open_sysctl, netdag_gen_sysctl_bool, close_sysctl, sysctl_ipv6, netdag_gen_sysctl,
}
use infix_lib.Interfaces.Links.{
  veth_with, netdag_gen_veth, put_vlan_id, put_vlan, vlan_tagged, netdag_gen_vlan, fwd_mask,
  netdag_get_bridge_fwd_mask, put_bridge, netdag_set_bridge, netdag_gen_afspec_add,
  netdag_gen_afspec_set, netdag_bridge_links, with_bit, veth_at, mask_of, links_at,
}

module _ (p : String) where
  Closes-reload_script : (fp : String) → Closes p fp (reload_script (some fp))
  unfolding reload_script
  Closes-reload_script fp = search stream_rules

  Balanced-reload_none : Balanced p (reload_script none)
  unfolding reload_script
  Balanced-reload_none = search stream_rules

  Balanced-netdag_exit_reload : (net : Dagger) → Balanced p (netdag_exit_reload net)
  unfolding netdag_exit_reload
  Balanced-netdag_exit_reload net =
      search (stream_rules, Opens-dagger_fopen_current, Closes-reload_script, Balanced-reload_none)

  Balanced-put_autoconf : (ip : String) (a : Autoconf) → Balanced p (put_autoconf ip a)
  unfolding put_autoconf
  Balanced-put_autoconf ip enable = search stream_rules
  Balanced-put_autoconf ip disable = search stream_rules
  Balanced-put_autoconf ip leave = search stream_rules

  pub Balanced-netdag_gen_ipv6_autoconf :
      (ip : String) (cif dif : Option Node) → Balanced p (netdag_gen_ipv6_autoconf ip cif dif)
  unfolding netdag_gen_ipv6_autoconf
  Balanced-netdag_gen_ipv6_autoconf ip cif dif = Balanced-put_autoconf ip _

  Closes-zeroconf_up : (ifname fp : String) → Closes p fp (zeroconf_up ifname (some fp))
  unfolding zeroconf_up
  Closes-zeroconf_up ifname fp = search stream_rules

  Balanced-zeroconf_up-none : (ifname : String) → Balanced p (zeroconf_up ifname none)
  unfolding zeroconf_up
  Balanced-zeroconf_up-none ifname = search stream_rules

  Closes-zeroconf_down :
      (net : Dagger) (ifname fp : String) → Closes p fp (zeroconf_down net ifname (some fp))
  unfolding zeroconf_down
  Closes-zeroconf_down net ifname fp = search (stream_rules, Balanced-netdag_exit_reload)

  Balanced-zeroconf_down-none :
      (net : Dagger) (ifname : String) → Balanced p (zeroconf_down net ifname none)
  unfolding zeroconf_down
  Balanced-zeroconf_down-none net ifname = search stream_rules

  Balanced-set_zeroconf :
      (net : Dagger) (ifname : String) (a : Autoconf) → Balanced p (set_zeroconf net ifname a)
  unfolding set_zeroconf
  Balanced-set_zeroconf net ifname enable =
      search (stream_rules, Opens-dagger_fopen_next, Closes-zeroconf_up, Balanced-zeroconf_up-none)
  Balanced-set_zeroconf net ifname disable =
      search (
        stream_rules, Opens-dagger_fopen_current, Closes-zeroconf_down, Balanced-zeroconf_down-none,
      )
  Balanced-set_zeroconf net ifname leave = search stream_rules

  pub Balanced-netdag_gen_ipv4_autoconf :
      (net : Dagger) (cif dif : Option Node) → Balanced p (netdag_gen_ipv4_autoconf net cif dif)
  unfolding netdag_gen_ipv4_autoconf
  Balanced-netdag_gen_ipv4_autoconf net cif dif = Balanced-set_zeroconf net _ _

  -- The stream of the sysctl script stays open from one setting to the next.
  sysctl_bool-stream :
      (net : Dagger) (ifname : String) (fpp : Option String) (n : Option Node) (key : String)
      (e : Env) (w : World)
      → let r = netdag_gen_sysctl_bool net ifname fpp n key e w in
        opens p r.1.calls + closes p w.calls + one_open p fpp
        ≡ opens p w.calls + closes p r.1.calls + one_open p r.0.1
  unfolding netdag_gen_sysctl_bool open_sysctl put_sysctl ◌>>=◌
  sysctl_bool-stream net ifname none n key e w =
      ground (arith, (Opens-dagger_fopen_next p net "init" ifname 60 "init.sysctl").at e w)
  sysctl_bool-stream net ifname (some fp) n key e w = ground arith

  close_sysctl-stream :
      (o : Option String) (err : ℤ) (e : Env) (w : World)
      → let r = close_sysctl o err e w in
        opens p r.1.calls + closes p w.calls + one_open p o ≡ opens p w.calls + closes p r.1.calls
  unfolding close_sysctl ◌>>=◌
  close_sysctl-stream none err e w = ground arith
  close_sysctl-stream (some fp) err e w = ground arith

  sysctl_ipv6-stream :
      (net : Dagger) (ifname : String) (dif : Option Node) (before : ℤ × Option String) (e : Env)
      (w : World)
      → let r = sysctl_ipv6 net ifname dif before e w in
        opens p r.1.calls + closes p w.calls + one_open p before.1
        ≡ opens p w.calls + closes p r.1.calls
  unfolding sysctl_ipv6 ◌>>=◌
  sysctl_ipv6-stream net ifname dif before e w =
      grind (arith, sysctl_bool-stream, close_sysctl-stream)

  pub Balanced-netdag_gen_sysctl :
      (net : Dagger) (dif : Option Node) → Balanced p (netdag_gen_sysctl net dif)
  unfolding netdag_gen_sysctl ◌>>=◌
  Balanced-netdag_gen_sysctl net dif = record {
    at = λ e w. grind (arith, sysctl_bool-stream, sysctl_ipv6-stream);
  }

  Balanced-veth_with :
      (net : Dagger) (ifname peer ip : String) (b : Bool)
      → Balanced p (veth_with net ifname peer ip b)
  unfolding veth_with
  Balanced-veth_with net ifname peer ip true = Balanced-dagger_add_dep p net ifname peer
  Balanced-veth_with net ifname peer ip false = search (stream_rules, Balanced-dagger_skip_iface)

  veth_node :
      (net : Dagger) (ifname ip : String) (o : Option Node) → Balanced p (veth_at net ifname ip o)
  unfolding veth_at
  veth_node net ifname ip none = search stream_rules
  veth_node net ifname ip (some n) =
      search (stream_rules, Balanced-dagger_should_skip, Balanced-veth_with)

  Balanced-netdag_gen_veth :
      (net : Dagger) (cif : Option Node) (ip : String) → Balanced p (netdag_gen_veth net cif ip)
  unfolding netdag_gen_veth
  Balanced-netdag_gen_veth net cif ip = veth_node net _ ip _

  Balanced-put_vlan_id : (d : LydxDiff) (ip : String) → Balanced p (put_vlan_id d ip)
  unfolding put_vlan_id
  Balanced-put_vlan_id d ip = search stream_rules

  Balanced-put_vlan : (t d : LydxDiff) (ip : String) → Balanced p (put_vlan t d ip)
  unfolding put_vlan
  Balanced-put_vlan t d ip = search (stream_rules, Balanced-put_vlan_id)

  Balanced-vlan_tagged :
      (ifname parent : String) (o : Option Node) (ip : String)
      → Balanced p (vlan_tagged ifname parent o ip)
  unfolding vlan_tagged
  Balanced-vlan_tagged ifname parent none ip = search stream_rules
  Balanced-vlan_tagged ifname parent (some n) ip = search (stream_rules, Balanced-put_vlan)

  Balanced-netdag_gen_vlan :
      (net : Dagger) (dif cif : Option Node) (ip : String)
      → Balanced p (netdag_gen_vlan net dif cif ip)
  unfolding netdag_gen_vlan
  Balanced-netdag_gen_vlan net dif cif ip =
      search (stream_rules, Balanced-dagger_add_dep, Balanced-vlan_tagged)

  Balanced-fwd_mask : (mask : ℕ) (ns : List Node) → Balanced p (fwd_mask mask ns)
  unfolding fwd_mask
  Balanced-fwd_mask mask [] = search stream_rules
  Balanced-fwd_mask mask (n ∷ ns) =
      Balanced-bind p _ _ (Balanced-union_value p _)
        (λ val. Balanced-fwd_mask (with_bit mask val) ns)

  Balanced-mask_of : (o : Option Node) → Balanced p (mask_of o)
  unfolding mask_of
  Balanced-mask_of none = search stream_rules
  Balanced-mask_of (some n) = Balanced-fwd_mask 0 _

  Balanced-put_bridge :
      (verb : String) (cif : Option Node) (ip : String) → Balanced p (put_bridge verb cif ip)
  unfolding put_bridge netdag_get_bridge_fwd_mask
  Balanced-put_bridge verb cif ip = search (stream_rules, Balanced-mask_of)

  pub Balanced-netdag_gen_afspec_add :
      (net : Dagger) (cif : Option Node) (ip : String)
      → Balanced p (netdag_gen_afspec_add net cif ip)
  unfolding netdag_gen_afspec_add
  Balanced-netdag_gen_afspec_add net cif ip =
      search (stream_rules, Balanced-put_bridge, Balanced-netdag_gen_veth, Balanced-netdag_gen_vlan)

  Balanced-netdag_set_bridge :
      (cif : Option Node) (ip : String) → Balanced p (netdag_set_bridge cif ip)
  unfolding netdag_set_bridge
  Balanced-netdag_set_bridge cif ip = Balanced-put_bridge "set" cif ip

  pub Balanced-netdag_gen_afspec_set :
      (net : Dagger) (dif cif : Option Node) (ip : String)
      → Balanced p (netdag_gen_afspec_set net dif cif ip)
  unfolding netdag_gen_afspec_set
  Balanced-netdag_gen_afspec_set net dif cif ip =
      search (stream_rules, Balanced-netdag_set_bridge, Balanced-netdag_gen_vlan)

  Balanced-links_at :
      (net : Dagger) (ifname ip : String) (o : Option Node) → Balanced p (links_at net ifname ip o)
  unfolding links_at
  Balanced-links_at net ifname ip none = search stream_rules
  Balanced-links_at net ifname ip (some n) = search (stream_rules, Balanced-dagger_add_dep)

  pub Balanced-netdag_bridge_links :
      (net : Dagger) (dif cif : Option Node) (ip : String)
      → Balanced p (netdag_bridge_links net dif cif ip)
  unfolding netdag_bridge_links
  Balanced-netdag_bridge_links net dif cif ip = Balanced-links_at net _ ip _
