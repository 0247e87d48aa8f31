-- ===== src/Interfaces/Addresses/Laws.antt =====
-- The lines that change the addresses of an interface (src/confd/src/confd/ietf-interfaces.c,
-- netdag_gen_diff_addr).
use infix_lib.Prelude.{
  ◌≡◌, ◌≢◌, pos, String, none, some, ◌∷◌, ◌⊎◌, inl, inr, refl, arith, if◌then◌else◌,
}
use infix_lib.Lyx.Tree.{Node}
use infix_lib.Lyx.{
  LydxOp, LydxDiff, none_op, create, delete, replace, lydx_get_op, lydx_get_diff, lydx_get_child,
}
use infix_lib.Machine.{record_call, Env, World, wrote, ◌>>=◌}
use infix_lib.Interfaces.Addresses.{
  str, e_inval, address_line, is_std_lo_addr, add_address, change_address, address_parts,
  netdag_gen_diff_addr,
}

module _ (ip ifname : String) (addr : Node) (e : Env) (w : World) where
  is_std_lo_addr-quiet : (name a p : String) (v : World) → (is_std_lo_addr name a p e v).1 ≡ v
  unfolding is_std_lo_addr ◌>>=◌
  is_std_lo_addr-quiet name a p v = ground arith

  change_address_lem :
      (op : LydxOp) (a p : LydxDiff)
      → let r = change_address ip ifname op a p e w in
        let std = (is_std_lo_addr ifname (str a.new) (str p.new) e w).0 in
        let removed = wrote ip (address_line "delete" a.old p.old ifname) in
        (r.0 ≡ pos 0)
        × (op ≡ delete → r.1.calls ≡ removed ∷ w.calls)
        × (op ≡ create
            → r.1.calls
              ≡ wrote ip (address_line (if std then "replace" else "add") a.new p.new ifname)
                ∷ w.calls)
        × (op ≢ delete
            → op ≢ create
            → r.1.calls ≡ wrote ip (address_line "add" a.new p.new ifname) ∷ removed ∷ w.calls)
  unfolding change_address add_address ◌>>=◌
  change_address_lem delete a p = (refl, λ h. refl, λ h. cc, λ h k. absurd (h refl))
  change_address_lem create a p =
      let q = is_std_lo_addr-quiet ifname (str a.new) (str p.new) w in
      (refl, λ h. cc, λ h. ground (arith, q), λ h k. absurd (k refl))
  change_address_lem none_op a p =
      let v = record_call (wrote ip (address_line "delete" a.old p.old ifname)) w in
      let q = is_std_lo_addr-quiet ifname (str a.new) (str p.new) v in
      (refl, λ h. cc, λ h. cc, λ h k. ground (arith, q))
  change_address_lem replace a p =
      let v = record_call (wrote ip (address_line "delete" a.old p.old ifname)) w in
      let q = is_std_lo_addr-quiet ifname (str a.new) (str p.new) v in
      (refl, λ h. cc, λ h. cc, λ h k. ground (arith, q))

  -- An entry of the diff with an address and a prefix: a deleted one gives the line that deletes the
  -- old address, a created one the line that adds the new one, which is `replace` for a standard
  -- address of `lo`, and any other the deletion of the old address followed by the addition of the
  -- new one. The result is 0.
  pub netdag_gen_diff_addr_lem :
      (adr pfx : Node)
      → let op = lydx_get_op (some addr) in
        let a = lydx_get_diff (some adr) in
        let p = lydx_get_diff (some pfx) in
        let r = netdag_gen_diff_addr ip ifname addr e w in
        let std = (is_std_lo_addr ifname (str a.new) (str p.new) e w).0 in
        let removed = wrote ip (address_line "delete" a.old p.old ifname) in
        lydx_get_child (some addr) "ip" ≡ some adr
        → lydx_get_child (some addr) "prefix-length" ≡ some pfx
        → (r.0 ≡ pos 0)
          × (op ≡ delete → r.1.calls ≡ removed ∷ w.calls)
          × (op ≡ create
              → r.1.calls
                ≡ wrote ip (address_line (if std then "replace" else "add") a.new p.new ifname)
                  ∷ w.calls)
          × (op ≢ delete
              → op ≢ create
              → r.1.calls ≡ wrote ip (address_line "add" a.new p.new ifname) ∷ removed ∷ w.calls)
  unfolding netdag_gen_diff_addr address_parts
  netdag_gen_diff_addr_lem adr pfx ha hp =
      rw (ha, hp)
        (change_address_lem (lydx_get_op (some addr)) (lydx_get_diff (some adr))
          (lydx_get_diff (some pfx)))

  -- Without an address or without a prefix the entry is -EINVAL, and nothing is written.
  pub netdag_gen_diff_addr-incomplete :
      (lydx_get_child (some addr) "ip" ≡ none) ⊎ (lydx_get_child (some addr) "prefix-length" ≡ none)
      → netdag_gen_diff_addr ip ifname addr e w ≡ (e_inval, w)
  unfolding netdag_gen_diff_addr address_parts ◌>>=◌
  netdag_gen_diff_addr-incomplete (inl h) = ground arith
  netdag_gen_diff_addr-incomplete (inr h) = ground arith
