-- ===== src/Interfaces/Addresses/Streams.antt =====
-- The addresses of an interface are written without opening a stream
-- (src/confd/src/confd/ietf-interfaces.c, netdag_gen_ip_addrs and below).
use infix_lib.Prelude.{ℤ, String, Bool, Option, none, some, List, [], ◌∷◌}
use infix_lib.Lyx.Tree.{Node}
use infix_lib.Lyx.{LydxOp, LydxDiff}
use infix_lib.Machine.{M}
use infix_lib.Machine.Streams.{Balanced, Balanced-bind, Balanced-if, Balanced-pure, stream_rules}
use infix_lib.Interfaces.Addresses.{
  is_std_lo_addr, add_address, change_address, address_parts, netdag_gen_diff_addr, each,
  netdag_gen_diff_addrs, set_conf_addr, netdag_set_conf_addrs, Family, flush, netdag_gen_ip_addrs,
}

module _ (p : String) where
  pub Balanced-each :
      {A : Type 0} (body : A → M ℤ) (xs : List A)
      → ((x : A) → Balanced p (body x))
      → Balanced p (each body xs)
  unfolding each
  Balanced-each body [] h = search stream_rules
  Balanced-each body (x ∷ xs) h =
      Balanced-bind p (body x) _ (h x)
        λ err. Balanced-if p _ _ _ (Balanced-each body xs h) (Balanced-pure p err)

  Balanced-is_std_lo_addr : (ifname ip pf : String) → Balanced p (is_std_lo_addr ifname ip pf)
  unfolding is_std_lo_addr
  Balanced-is_std_lo_addr ifname ip pf = search stream_rules

  Balanced-add_address :
      (ip ifname : String) (created : Bool) (adrd pfxd : LydxDiff)
      → Balanced p (add_address ip ifname created adrd pfxd)
  unfolding add_address
  Balanced-add_address ip ifname created adrd pfxd = search (stream_rules, Balanced-is_std_lo_addr)

  Balanced-change_address :
      (ip ifname : String) (op : LydxOp) (adrd pfxd : LydxDiff)
      → Balanced p (change_address ip ifname op adrd pfxd)
  unfolding change_address
  Balanced-change_address ip ifname op adrd pfxd = search (stream_rules, Balanced-add_address)

  Balanced-address_parts :
      (ip ifname : String) (op : LydxOp) (adr pfx : Option Node)
      → Balanced p (address_parts ip ifname op adr pfx)
  unfolding address_parts
  Balanced-address_parts ip ifname op (some adr) (some pfx) =
      search (stream_rules, Balanced-change_address)
  Balanced-address_parts ip ifname op (some adr) none = search stream_rules
  Balanced-address_parts ip ifname op none pfx = search stream_rules

  Balanced-netdag_gen_diff_addr :
      (ip ifname : String) (addr : Node) → Balanced p (netdag_gen_diff_addr ip ifname addr)
  unfolding netdag_gen_diff_addr
  Balanced-netdag_gen_diff_addr ip ifname addr = search (stream_rules, Balanced-address_parts)

  Balanced-set_conf_addr :
      (ip ifname : String) (addr : Node) → Balanced p (set_conf_addr ip ifname addr)
  unfolding set_conf_addr
  Balanced-set_conf_addr ip ifname addr = search stream_rules

  Balanced-netdag_set_conf_addrs :
      (ip ifname : String) (n : Option Node) → Balanced p (netdag_set_conf_addrs ip ifname n)
  unfolding netdag_set_conf_addrs
  Balanced-netdag_set_conf_addrs ip ifname n = Balanced-each _ _ (Balanced-set_conf_addr ip ifname)

  Balanced-netdag_gen_diff_addrs :
      (ip ifname : String) (n : Option Node) → Balanced p (netdag_gen_diff_addrs ip ifname n)
  unfolding netdag_gen_diff_addrs
  Balanced-netdag_gen_diff_addrs ip ifname n =
      Balanced-each _ _ (Balanced-netdag_gen_diff_addr ip ifname)

  Balanced-flush : (f : Family) (ifname : String) → Balanced p (flush f ifname)
  unfolding flush
  Balanced-flush f ifname = search stream_rules

  pub Balanced-netdag_gen_ip_addrs :
      (ip : String) (f : Family) (cif dif : Option Node)
      → Balanced p (netdag_gen_ip_addrs ip f cif dif)
  unfolding netdag_gen_ip_addrs
  Balanced-netdag_gen_ip_addrs ip f cif dif =
      search (
        stream_rules, Balanced-netdag_set_conf_addrs, Balanced-netdag_gen_diff_addrs,
        Balanced-flush,
      )
