-- ===== src/Interfaces/Addresses.antt =====
-- The addresses of an interface (src/confd/src/confd/ietf-interfaces.c, is_std_lo_addr to
-- netdag_gen_ip_addrs). `ip` is the stream of commands for ip(8), `cif` the configuration of the
-- interface and `dif` its part of the diff.
pub mod Laws
pub mod Streams
use infix_lib.Prelude.{
  ℕ, ℤ, pos, negsuc, String, ◌==◌, ◌=ℕ◌, Bool, true, false, not, ◌&&◌, Option, none, some, List, [],
  ◌∷◌, get_or, is_zero, if◌then◌else◌,
}
use infix_lib.Text.{concat}
use infix_lib.Lyx.Tree.{Node, lyd_child, siblings, named}
use infix_lib.Lyx.{
  LydxOp, create, delete, replace, LydxDiff, lydx_get_op, lydx_get_diff, lydx_get_child,
  lydx_get_cattr, lydx_is_enabled,
}
use infix_lib.Machine.{M, ◌>>=◌, ◌>>◌, pure, system, fputs, if_nametoindex, inet_pton4, inet_pton6}

-- A null text as glibc prints it.
abbrev pub str : Option String → String
str s = get_or s "(null)"

-- errno values of Linux, negated
abbrev pub e_io : ℤ
e_io = negsuc 4

abbrev pub e_inval : ℤ
e_inval = negsuc 21

abbrev pub inaddr_loopback : ℕ
inaddr_loopback = 0x7f000001

abbrev same_number : Option ℕ → Option ℕ → Bool
same_number (some a) (some b) = a =ℕ b
same_number _ _ = false

unfoldable pub is_std_lo_addr : String → String → String → M Bool
is_std_lo_addr ifname ip pf =
    if ifname == "lo"
    then (do
      in4 ← inet_pton4 ip
      in6 ← inet_pton6 ip
      lo6 ← inet_pton6 "::1"
      pure (elim in4 [
        | some addr ↦ (addr =ℕ inaddr_loopback) && pf == "8"
        | none ↦ same_number in6 lo6 && pf == "128"
      ]))
    else pure false

-- `address <command> <ip>/<prefix> dev <ifname>`
abbrev pub address_line : String → Option String → Option String → String → String
address_line command ip prefix ifname =
    concat ("address " ∷ command ∷ " " ∷ str ip ∷ "/" ∷ str prefix ∷ " dev " ∷ ifname ∷ "\n" ∷ [])

unfoldable pub is_create : LydxOp → Bool
is_create create = true
is_create _ = false

unfoldable pub is_delete : LydxOp → Bool
is_delete delete = true
is_delete _ = false

unfoldable pub is_replace : LydxOp → Bool
is_replace replace = true
is_replace _ = false

-- The line that adds the new address; the kernel adds the standard ones of `lo` by itself, so that
-- those are replaced.
unfoldable pub add_address : String → String → Bool → LydxDiff → LydxDiff → M ℤ
add_address ip ifname created adrd pfxd = do
  std ← is_std_lo_addr ifname (str adrd.new) (str pfxd.new)
  fputs (address_line (if created && std then "replace" else "add") adrd.new pfxd.new ifname) ip
  pure (pos 0)

unfoldable pub change_address : String → String → LydxOp → LydxDiff → LydxDiff → M ℤ
unfolding is_create is_delete
change_address ip ifname op adrd pfxd =
    if is_create op then add_address ip ifname true adrd pfxd else do
      fputs (address_line "delete" adrd.old pfxd.old ifname) ip
      if is_delete op then pure (pos 0) else add_address ip ifname false adrd pfxd

unfoldable pub address_parts : String → String → LydxOp → Option Node → Option Node → M ℤ
address_parts ip ifname op (some adr) (some pfx) =
    change_address ip ifname op (lydx_get_diff (some adr)) (lydx_get_diff (some pfx))
address_parts ip ifname op (some adr) none = pure e_inval
address_parts ip ifname op none pfx = pure e_inval

unfoldable pub netdag_gen_diff_addr : String → String → Node → M ℤ
netdag_gen_diff_addr ip ifname addr =
    address_parts ip ifname (lydx_get_op (some addr)) (lydx_get_child (some addr) "ip")
      (lydx_get_child (some addr) "prefix-length")

-- A loop that its first error ends.
unfoldable pub each : {A : Type 0} → (A → M ℤ) → List A → M ℤ
each body [] = pure (pos 0)
each body (x ∷ xs) = do err ← body x; if is_zero err then each body xs else pure err

unfoldable pub netdag_gen_diff_addrs : String → String → Option Node → M ℤ
unfolding each netdag_gen_diff_addr
netdag_gen_diff_addrs ip ifname ipvx =
    each (netdag_gen_diff_addr ip ifname) (named "address" (siblings (lyd_child ipvx)))

unfoldable pub set_conf_addr : String → String → Node → M ℤ
set_conf_addr ip ifname addr = do
  fputs
      (address_line "add" (lydx_get_cattr (some addr) "ip")
        (lydx_get_cattr (some addr) "prefix-length") ifname)
      ip
  pure (pos 0)

unfoldable pub netdag_set_conf_addrs : String → String → Option Node → M ℤ
unfolding each set_conf_addr
netdag_set_conf_addrs ip ifname ipvx =
    each (set_conf_addr ip ifname) (named "address" (siblings (lyd_child ipvx)))

-- `!ipconf || !lydx_is_enabled(ipconf, "enabled")`
unfoldable pub is_off : Option Node → Bool
is_off none = true
is_off (some ipconf) = not (lydx_is_enabled (some ipconf) "enabled")

pub data Family : Type 0 where
  ipv4 ipv6 : Family

abbrev pub family_name : Family → String
family_name ipv4 = "ipv4"
family_name ipv6 = "ipv6"

-- `proto[3]`
abbrev pub family_digit : Family → String
family_digit ipv4 = "4"
family_digit ipv6 = "6"

unfoldable pub flush : Family → String → M ℤ
flush proto ifname = do
  there ← if_nametoindex ifname
  if there
      then (do
        system (concat ("ip -" ∷ family_digit proto ∷ " addr flush dev " ∷ ifname ∷ "\n" ∷ []))
        pure (pos 0))
      else pure (pos 0)

unfoldable pub netdag_gen_ip_addrs : String → Family → Option Node → Option Node → M ℤ
netdag_gen_ip_addrs ip proto cif dif =
    let ipconf = lydx_get_child cif (family_name proto) in
    let ipdiff = lydx_get_child dif (family_name proto) in
    let ifname : String = str (lydx_get_cattr dif "name") in
    if is_off ipconf
    then flush proto ifname
    else if is_replace (lydx_get_op (lydx_get_child ipdiff "enabled"))
    then netdag_set_conf_addrs ip ifname ipconf
    else netdag_gen_diff_addrs ip ifname ipdiff
