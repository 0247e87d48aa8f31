-- ===== src/Interfaces/Links/Laws.antt =====
-- Autoconf, sysctl settings, VLAN tags and the need to recreate an interface
-- (src/confd/src/confd/ietf-interfaces.c, netdag_gen_ipv4_autoconf to netdag_must_del).
use infix_lib.Prelude.{
  ◌≡◌, refl, pos, String, Bool, true, false, Option, none, some, [], ◌∷◌, arith,
}
use infix_lib.Lyx.Tree.{Node, lyd_child}
use infix_lib.Lyx.{
  LydxDiff, lydx_get_op, lydx_get_diff, lydx_get_child, lydx_get_sibling, lydx_get_cattr,
  lydx_get_descendant, descend,
}
use infix_lib.Machine.{Env, World, ◌>>=◌}
use infix_lib.Dagger.{Dagger}
use infix_lib.Interfaces.Infer.{type_veth, type_bridge, type_vlan}
use infix_lib.Interfaces.Addresses.{is_replace, is_off}
use infix_lib.Interfaces.Autoconf.{choose_autoconf, leave, set_zeroconf, netdag_gen_ipv4_autoconf}
use infix_lib.Interfaces.Links.{netdag_must_del}

choose_autoconf-leave :
    (name : String) (wanted : LydxDiff → Bool) (ipconf ipdiff : Option Node) (a : Node)
    → is_off ipconf ≡ false
    → is_replace (lydx_get_op (lydx_get_child ipdiff "enabled")) ≡ false
    → lydx_get_child ipdiff "autoconf" ≡ some a
    → lydx_get_sibling (some a) name ≡ none
    → choose_autoconf name wanted ipconf ipdiff ≡ leave
unfolding choose_autoconf lydx_get_descendant lydx_get_diff
choose_autoconf-leave name wanted ipconf ipdiff a on same there missing =
    rw (on, same, there) (rw missing (ground arith))

-- While IPv4 stays enabled, a change of the leaf `enabled` below `autoconf` does nothing: the leaf is
-- looked for among the siblings that follow `autoconf`, and if none of these has its name, nothing is
-- written, whatever the children of `autoconf` say.
netdag_gen_ipv4_autoconf-ignores :
    (net : Dagger) (cif dif : Option Node) (a : Node) (e : Env) (w : World)
    → is_off (lydx_get_child cif "ipv4") ≡ false
    → is_replace (lydx_get_op (lydx_get_child (lydx_get_child dif "ipv4") "enabled")) ≡ false
    → lydx_get_child (lydx_get_child dif "ipv4") "autoconf" ≡ some a
    → lydx_get_sibling (some a) "enabled" ≡ none
    → netdag_gen_ipv4_autoconf net cif dif e w ≡ (pos 0, w)
unfolding netdag_gen_ipv4_autoconf set_zeroconf ◌>>=◌
netdag_gen_ipv4_autoconf-ignores net cif dif a e w on same there missing =
    rw (choose_autoconf-leave "enabled" _ _ _ a on same there missing)

-- When an interface must be recreated: a bridge never; a VLAN if the diff has a parent or an outer
-- tag; and a veth only if `peer` stands in the diff as a child of the interface itself. In the model
-- of the data the peer stands below `veth`, so that a change of it there does not count.
netdag_must_del_lem :
    (dif cif : Option Node)
    → (lydx_get_cattr cif "type" ≡ some type_bridge → netdag_must_del dif cif ≡ false)
      × ((parent : String)
          → lydx_get_cattr cif "type" ≡ some type_vlan
          → lydx_get_cattr dif "parent-interface" ≡ some parent
          → netdag_must_del dif cif ≡ true)
      × ((tag : Node)
          → lydx_get_cattr cif "type" ≡ some type_vlan
          → lydx_get_descendant (lyd_child dif) ("encapsulation" ∷ "dot1q-vlan" ∷ "outer-tag" ∷ [])
            ≡ some tag
          → netdag_must_del dif cif ≡ true)
      × ((peer : Node)
          → lydx_get_cattr cif "type" ≡ some type_veth
          → lydx_get_descendant (lyd_child dif) ("veth" ∷ "peer" ∷ []) ≡ some peer
          → lydx_get_child dif "peer" ≡ none
          → netdag_must_del dif cif ≡ false)
unfolding netdag_must_del lydx_get_child lydx_get_descendant descend
netdag_must_del_lem dif cif = (
  λ t. rw (t, netdag_must_del),
  λ p t h. rw (t, h, netdag_must_del),
  λ n t h. rw (t, netdag_must_del) (rw h (ground arith)),
  λ n t h k. rw (t, netdag_must_del) (rw k refl),
)
