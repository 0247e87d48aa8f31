-- ===== src/Interfaces/Iface/Streams.antt =====
-- Every stream that netdag_gen_iface of src/confd/src/confd/ietf-interfaces.c opens is closed by the
-- time that it returns.
pub mod Parts
use infix_lib.Prelude.{ℤ, String, Bool, true, false, Option, none, some}
use infix_lib.Lyx.Tree.{Node}
use infix_lib.Lyx.{LydxOp}
use infix_lib.Dagger.{Dagger}
use infix_lib.Dagger.Streams.{Opens-dagger_fopen_next, Opens-dagger_fopen_current}
use infix_lib.Machine.{M}
use infix_lib.Helpers.{popenf}
use infix_lib.Machine.Streams.{
  Balanced, Closes, Opens, Opens-fopen, Balanced-bind, Balanced-if, Balanced-pure, Balanced-open,
  stream_rules,
}
use infix_lib.Interfaces.Infer.{iface_is_phys, read_link}
use infix_lib.Interfaces.Addresses.Streams.{Balanced-netdag_gen_ip_addrs}
use infix_lib.Interfaces.Iface.{
  ◌then_do◌, put_exit, netdag_gen_iface_del, put_up, put, gen_init, with_init, gen_next, gen_by_op,
  netdag_gen_iface,
}
use Parts.{
  Balanced-netdag_gen_ipv4_autoconf, Balanced-netdag_gen_ipv6_autoconf,
  Balanced-netdag_bridge_links, Balanced-netdag_gen_afspec_add, Balanced-netdag_gen_afspec_set,
  Balanced-netdag_gen_sysctl,
}

module _ (p : String) where
  Balanced-then_do : (m n : M ℤ) → Balanced p m → Balanced p n → Balanced p (m then_do n)
  unfolding ◌then_do◌
  Balanced-then_do m n hm hn =
      Balanced-bind p m _ hm λ err. Balanced-if p _ _ _ hn (Balanced-pure p err)

  Closes-put_exit :
      (ifname : String) (fixed : Bool) (fp : String) → Closes p fp (put_exit ifname fixed (some fp))
  unfolding put_exit
  Closes-put_exit ifname true fp = search stream_rules
  Closes-put_exit ifname false fp = search stream_rules

  Balanced-put_exit-none :
      (ifname : String) (fixed : Bool) → Balanced p (put_exit ifname fixed none)
  unfolding put_exit
  Balanced-put_exit-none ifname true = search stream_rules
  Balanced-put_exit-none ifname false = search stream_rules

  Balanced-netdag_gen_iface_del :
      (net : Dagger) (dif : Option Node) (fixed : Bool)
      → Balanced p (netdag_gen_iface_del net dif fixed)
  unfolding netdag_gen_iface_del
  Balanced-netdag_gen_iface_del net dif fixed =
      search (stream_rules, Opens-dagger_fopen_current, Closes-put_exit, Balanced-put_exit-none)

  Balanced-put_up : (o : Option String) (ifname ip : String) → Balanced p (put_up o ifname ip)
  unfolding put_up
  Balanced-put_up none ifname ip = search stream_rules
  Balanced-put_up (some attr) ifname ip = search stream_rules

  Balanced-put : (text ip : String) → Balanced p (put text ip)
  unfolding put
  Balanced-put text ip = search stream_rules

  Balanced-gen_init :
      (net : Dagger) (ifname : String) (op : LydxOp) (fixed : Bool) (dif cif : Option Node)
      (ip : String)
      → Balanced p (gen_init net ifname op fixed dif cif ip)
  unfolding gen_init
  Balanced-gen_init net ifname op fixed dif cif ip =
      search
        (
          Balanced-then_do, Balanced-if, Balanced-pure, Balanced-put, Balanced-put_up,
          Balanced-netdag_gen_ip_addrs, Balanced-netdag_gen_ipv4_autoconf,
          Balanced-netdag_gen_ipv6_autoconf, Balanced-netdag_bridge_links,
          Balanced-netdag_gen_afspec_add, Balanced-netdag_gen_afspec_set,
          Balanced-netdag_gen_sysctl,
        )
        depth 16

  Closes-with_init :
      (net : Dagger) (ifname : String) (op : LydxOp) (fixed : Bool) (dif cif : Option Node)
      (ip : String)
      → Closes p ip (with_init net ifname op fixed dif cif (some ip))
  unfolding with_init
  Closes-with_init net ifname op fixed dif cif ip = search (stream_rules, Balanced-gen_init)

  Balanced-with_init-none :
      (net : Dagger) (ifname : String) (op : LydxOp) (fixed : Bool) (dif cif : Option Node)
      → Balanced p (with_init net ifname op fixed dif cif none)
  unfolding with_init
  Balanced-with_init-none net ifname op fixed dif cif = search stream_rules

  Balanced-gen_next :
      (net : Dagger) (ifname : String) (op : LydxOp) (fixed : Bool) (dif cif : Option Node)
      → Balanced p (gen_next net ifname op fixed dif cif)
  unfolding gen_next
  Balanced-gen_next net ifname op fixed dif cif =
      search (stream_rules, Opens-dagger_fopen_next, Closes-with_init, Balanced-with_init-none)

  Balanced-gen_by_op :
      (net : Dagger) (op : LydxOp) (fixed : Bool) (dif cif : Option Node)
      → Balanced p (gen_by_op net op fixed dif cif)
  unfolding gen_by_op
  Balanced-gen_by_op net op fixed dif cif =
      search (Balanced-if, Balanced-then_do, Balanced-gen_next, Balanced-netdag_gen_iface_del)

  Closes-read_link : (proc : String) → Closes p proc (read_link (some proc))
  unfolding read_link
  Closes-read_link proc = search stream_rules

  Balanced-read_link-none : Balanced p (read_link none)
  unfolding read_link
  Balanced-read_link-none = search stream_rules

  Opens-popenf : (type cmd : String) → Opens p (popenf type cmd)
  unfolding popenf
  Opens-popenf type cmd = Opens-fopen p cmd type

  Balanced-iface_is_phys : (ifname : String) → Balanced p (iface_is_phys ifname)
  unfolding iface_is_phys
  Balanced-iface_is_phys ifname = search (stream_rules, Closes-read_link)

  -- On every path, errors included, netdag_gen_iface closes each stream on `p` as often as it opens
  -- one.
  pub netdag_gen_iface-Balanced :
      (net : Dagger) (dif cif : Option Node) → Balanced p (netdag_gen_iface net dif cif)
  unfolding netdag_gen_iface
  netdag_gen_iface-Balanced net dif cif =
      search (stream_rules, Balanced-iface_is_phys, Balanced-gen_by_op)
