-- ===== src/Interfaces/Iface.antt =====
-- One interface of a diff (src/confd/src/confd/ietf-interfaces.c, netdag_gen_iface_del and
-- netdag_gen_iface).
pub mod Laws
pub mod Streams
use infix_lib.Prelude.{
  ℤ, pos, String, ◌<>◌, ◌==◌, Bool, true, false, not, ◌&&◌, ◌||◌, Option, none, some, List, [], ◌∷◌,
  ◌++◌, is_zero, if◌then◌else◌,
}
use infix_lib.Text.{concat}
use infix_lib.Lyx.Tree.{Leaf, Tree, node, Node, leaf_of, children}
use infix_lib.Lyx.{LydxOp, create, delete, lydx_get_op, lydx_get_cattr}
use infix_lib.Machine.{M, ◌>>=◌, ◌>>◌, pure, fputs, fclose}
use infix_lib.Dagger.{Dagger, dagger_fopen_next, dagger_fopen_current}
use infix_lib.Srx.{sr_err_ok, sr_err_internal}
use infix_lib.Interfaces.Infer.{iface_is_phys}
use infix_lib.Interfaces.Addresses.{
  str, e_io, is_create, is_delete, ipv4, ipv6, netdag_gen_ip_addrs,
}
use infix_lib.Interfaces.Autoconf.{
  has_text, netdag_gen_ipv4_autoconf, netdag_gen_ipv6_autoconf, netdag_gen_sysctl,
}
use infix_lib.Interfaces.Links.{
  netdag_bridge_links, netdag_gen_afspec_add, netdag_gen_afspec_set, netdag_must_del,
}

-- A step and, unless it fails, the next: `if (err) goto …`.
infixr 6 ◌then_do◌
unfoldable pub ◌then_do◌ : M ℤ → M ℤ → M ℤ
m then_do next = do err ← m; if is_zero err then next else pure err

-- What can be taken down but not removed is flushed.
unfoldable pub put_exit : String → Bool → Option String → M ℤ
put_exit ifname fixed none = pure e_io
put_exit ifname true (some ip) = do
  fputs (concat ("link set dev " ∷ ifname ∷ " down\n" ∷ [])) ip
  fputs (concat ("addr flush dev " ∷ ifname ∷ "\n" ∷ [])) ip
  fclose ip
  pure (pos 0)
put_exit ifname false (some ip) = do
  fputs (concat ("link del dev " ∷ ifname ∷ "\n" ∷ [])) ip
  fclose ip
  pure (pos 0)

unfoldable pub netdag_gen_iface_del : Dagger → Option Node → Bool → M ℤ
netdag_gen_iface_del net dif fixed =
    let ifname : String = str (lydx_get_cattr dif "name") in
    do ip ← dagger_fopen_current net "exit" ifname 50 "exit.ip"; put_exit ifname fixed ip

-- `lyd_new_meta(…, "yang:operation", "create", …)`: the whole configuration becomes a diff.
abbrev pub with_create : Leaf → Leaf
with_create l = record l { metas = l.metas ++ ("yang:operation", "create") ∷ [] }

unfoldable pub as_created : Option Node → Option Node
as_created none = none
as_created (some n) =
    some (record n { this = node (with_create (leaf_of n.this)) (children n.this) })

unfoldable pub put_up : Option String → String → String → M ℤ
put_up none ifname ip = do fputs (concat ("link set dev " ∷ ifname ∷ " up\n" ∷ [])) ip; pure (pos 0)
put_up (some attr) ifname ip =
    if attr == "true"
    then (do fputs (concat ("link set dev " ∷ ifname ∷ " up\n" ∷ [])) ip; pure (pos 0))
    else pure (pos 0)

unfoldable pub put : String → String → M ℤ
put text ip = do fputs text ip; pure (pos 0)

-- What is written while the script `ip` is open.
unfoldable pub gen_init : Dagger → String → LydxOp → Bool → Option Node → Option Node → String → M ℤ
unfolding ◌then_do◌
gen_init net ifname op fixed dif cif ip =
    (if not fixed && is_create op then netdag_gen_afspec_add net cif ip else pure (pos 0))
    then_do put (concat ("link set dev " ∷ ifname ∷ " down" ∷ [])) ip
    then_do netdag_gen_ipv4_autoconf net cif dif
    then_do netdag_gen_ipv6_autoconf ip cif dif
    then_do netdag_bridge_links net dif cif ip
    then_do put "\n" ip
    then_do (if not fixed && not (is_create op)
        then netdag_gen_afspec_set net dif cif ip
        else pure (pos 0))
    then_do netdag_gen_ip_addrs ip ipv4 cif dif
    then_do netdag_gen_ip_addrs ip ipv6 cif dif
    then_do put_up (lydx_get_cattr cif "enabled") ifname ip
    then_do netdag_gen_sysctl net dif

unfoldable pub with_init :
    Dagger → String → LydxOp → Bool → Option Node → Option Node → Option String → M ℤ
with_init net ifname op fixed dif cif none = pure e_io
with_init net ifname op fixed dif cif (some ip) = do
  err ← gen_init net ifname op fixed dif cif ip
  fclose ip
  pure err

-- The `init` script of the next generation.
unfoldable pub gen_next : Dagger → String → LydxOp → Bool → Option Node → Option Node → M ℤ
gen_next net ifname op fixed dif cif = do
  ip ← dagger_fopen_next net "init" ifname 50 "init.ip"
  with_init net ifname op fixed dif cif ip

unfoldable pub gen_by_op : Dagger → LydxOp → Bool → Option Node → Option Node → M ℤ
unfolding ◌then_do◌
gen_by_op net op fixed dif cif =
    let ifname : String = str (lydx_get_cattr dif "name") in
    if is_delete op
    then netdag_gen_iface_del net dif fixed
    else if not (is_create op) && netdag_must_del dif cif
    then netdag_gen_iface_del net dif fixed
      then_do gen_next net ifname create fixed (as_created cif) (as_created cif)
    else gen_next net ifname op fixed dif cif

-- Every error becomes SR_ERR_INTERNAL.
unfoldable pub netdag_gen_iface : Dagger → Option Node → Option Node → M ℤ
netdag_gen_iface net dif cif =
    let ifname : String = str (lydx_get_cattr dif "name") in
    do
      phys ← iface_is_phys ifname
      err ← gen_by_op net (lydx_get_op dif) (phys || ifname == "lo") dif cif
      pure (if is_zero err then sr_err_ok else sr_err_internal)
