-- ===== src/Interfaces/Change.antt =====
-- A change of the running configuration (src/confd/src/confd/ietf-interfaces.c, netdag_init and
-- ifchange).
pub mod Laws
use infix_lib.Prelude.{
  ℤ, pos, String, ◌==◌, Bool, Option, none, some, List, [], ◌∷◌, is_zero, if◌then◌else◌,
}
use infix_lib.Lyx.Tree.{Forest, Node, first, siblings, named}
use infix_lib.Lyx.{lydx_get_cattr, lydx_get_descendant}
use infix_lib.Machine.Values.{Event, change, done, abort}
use infix_lib.Machine.{M, ◌>>=◌, ◌>>◌, pure, sr_get_data}
use infix_lib.Dagger.{
  Dagger, dagger_claim, dagger_abandon, dagger_add_node, dagger_evolve_or_abandon,
}
use infix_lib.Srx.{srx_get_diff, sr_err_internal}
use infix_lib.Interfaces.Addresses.{str, each}
use infix_lib.Interfaces.Iface.{netdag_gen_iface}

abbrev pub name_of : Node → String
name_of n = str (lydx_get_cattr (some n) "name")

unfoldable pub add_node : Dagger → Node → M ℤ
add_node net iface = do
  err ← dagger_add_node net (name_of iface)
  pure (if is_zero err then pos 0 else sr_err_internal)

abbrev pub interfaces_of : Option Node → List Node
interfaces_of ifs = named "interface" (siblings ifs)

unfoldable pub netdag_init : Dagger → Option Node → Option Node → M ℤ
unfolding each add_node
netdag_init net cifs difs = do
  err ← each (add_node net) (interfaces_of cifs)
  if is_zero err then each (add_node net) (interfaces_of difs) else pure err

-- The inner loop of ifchange; NULL where the configuration has no such interface.
unfoldable pub find_iface : String → List Node → Option Node
find_iface name [] = none
find_iface name (cif ∷ cifs) = if name == name_of cif then some cif else find_iface name cifs

unfoldable pub gen_iface : Dagger → Option Node → Node → M ℤ
unfolding find_iface
gen_iface net cifs dif =
    netdag_gen_iface net (some dif) (find_iface (name_of dif) (interfaces_of cifs))

unfoldable pub gen_all : Dagger → Option Node → Option Node → M ℤ
unfolding each gen_iface
gen_all net cifs difs = do
  err ← netdag_init net cifs difs
  if is_zero err then each (gen_iface net cifs) (interfaces_of difs) else pure err

abbrev pub interfaces_in : Forest → Option Node
interfaces_in f = lydx_get_descendant (first f []) ("interfaces" ∷ "interface" ∷ [])

-- The work between the claim and the label `err_abandon`.
unfoldable pub build_diff : Dagger → Forest → M ℤ
build_diff net cfg = do
  (err, diff) ← srx_get_diff
  if is_zero err then gen_all net (interfaces_in cfg) (interfaces_in diff) else pure err

unfoldable pub build : Dagger → M ℤ
build net = do
  (err, cfg) ← sr_get_data "/interfaces/interface"
  if is_zero err then build_diff net cfg else pure err

unfoldable pub build_claimed : ℤ × Dagger → M (ℤ × Dagger)
build_claimed (claim_err, net) =
    if is_zero claim_err
    then (do
      err ← build net
      if is_zero err then pure (err, net) else do dagger_abandon net; pure (err, net))
    else pure (claim_err, net)

-- The result, and the structure `netdag` after it.
unfoldable pub ifchange : Event → Dagger → M (ℤ × Dagger)
ifchange change net = do claimed ← dagger_claim "/run/net"; build_claimed claimed
ifchange abort net = do err ← dagger_abandon net; pure (err, net)
ifchange done net = do err ← dagger_evolve_or_abandon net; pure (err, net)
ifchange event net = pure (pos 0, net)
