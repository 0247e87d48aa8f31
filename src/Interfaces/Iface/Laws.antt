-- ===== src/Interfaces/Iface/Laws.antt =====
-- How an interface is taken down and recreated (src/confd/src/confd/ietf-interfaces.c,
-- netdag_gen_iface_del and netdag_gen_iface).
use infix_lib.Prelude.{
  ◌≡◌, refl, sym, ap, ◌∙◌, pos, negsuc, String, Bool, true, false, Option, none, some, List, [],
  ◌∷◌, ◌++◌, arith, lookup, eq_refl,
}
use infix_lib.Text.{concat}
use infix_lib.Lyx.Tree.{Tree, Forest, tree, end, Node, leaf_of, lyd_child, first, nodes, siblings}
use infix_lib.Lyx.{create, lydx_get_op, lydx_get_cattr, find_op}
use infix_lib.Lyx.Ops.{own_op}
use infix_lib.Machine.{Env, World, wrote, closed, ◌>>=◌, Call}
use infix_lib.Dagger.{Dagger, dagger_fopen_current}
use infix_lib.Interfaces.Addresses.{str}
use infix_lib.Interfaces.Iface.{put_exit, netdag_gen_iface_del, as_created}

-- The lines of an exit script, the last first.
abbrev pub exit_lines : String → String → Bool → List Call
exit_lines ip ifname true =
    wrote ip (concat ("addr flush dev " ∷ ifname ∷ "\n" ∷ []))
    ∷ wrote ip (concat ("link set dev " ∷ ifname ∷ " down\n" ∷ []))
    ∷ []
exit_lines ip ifname false = wrote ip (concat ("link del dev " ∷ ifname ∷ "\n" ∷ [])) ∷ []

-- Taking an interface down, whatever becomes of its script: without one the result is -EIO and
-- nothing more is done. With one, an interface that is fixed is set down and flushed, any other is
-- deleted, the script is closed, and the result is 0.
netdag_gen_iface_del_lem :
    (net : Dagger) (dif : Option Node) (fixed : Bool) (e : Env) (w : World)
    → let ifname : String = str (lydx_get_cattr dif "name") in
      let opened = dagger_fopen_current net "exit" ifname 50 "exit.ip" e w in
      let r = netdag_gen_iface_del net dif fixed e w in
      (opened.0 ≡ none → r ≡ (negsuc 4, opened.1))
      × ((ip : String)
          → opened.0 ≡ some ip
          → (r.0 ≡ pos 0)
            × (r.1.calls ≡ closed ip ∷ (exit_lines ip ifname fixed ++ opened.1.calls)))
unfolding netdag_gen_iface_del put_exit ◌>>=◌
netdag_gen_iface_del_lem net dif true e w = (λ h. ground arith, λ ip h. ground arith)
netdag_gen_iface_del_lem net dif false e w = (λ h. ground arith, λ ip h. ground arith)

lookup-append :
    (k v : String) (m : List (String × String))
    → lookup k m ≡ none
    → lookup k (m ++ (k, v) ∷ []) ≡ some v
lookup-append k v [] h = ground (arith, eq_refl k)
lookup-append k v ((j, u) ∷ m) h = ground (arith, lookup-append k v m)

up_of : List Tree → List Node → List Tree
up_of up [] = up
up_of up (n ∷ ns) = n.up

rest_of : List Node → List Node
rest_of [] = []
rest_of (n ∷ ns) = ns

nodes-up :
    (f : Forest) (up : List Tree) (before : List Node) (c : Node) (after : List Node)
    → nodes f up ≡ before ++ c ∷ after
    → c.up ≡ up
unfolding up_of rest_of
nodes-up end up [] c after h = absurd (ground (arith, h))
nodes-up end up (b ∷ before) c after h = absurd (ground (arith, h))
nodes-up (tree t f) up [] c after h = ap (up_of up) (sym h)
nodes-up (tree t f) up (b ∷ before) c after h = nodes-up f up before c after (ap rest_of h)

siblings-first : (f : Forest) (up : List Tree) → siblings (first f up) ≡ nodes f up
siblings-first end up = refl
siblings-first (tree t f) up = refl

-- Once the configuration of an interface that names no operation is turned into a diff, the
-- interface counts as created, and so does each of its children that names no operation of its own.
pub as_created-create :
    (n : Node) (before : List Node) (c : Node) (after : List Node)
    → own_op n.this ≡ none
    → siblings (lyd_child (as_created (some n))) ≡ before ++ c ∷ after
    → own_op c.this ≡ none
    → (lydx_get_op (as_created (some n)) ≡ create) × (lydx_get_op (some c) ≡ create)
unfolding lydx_get_op as_created find_op
as_created-create n before c after h child o =
    let created = lookup-append "yang:operation" "create" (leaf_of n.this).metas h in
    let above = nodes-up _ _ before c after (sym (siblings-first _ _) ∙ child) in
    (rw created, rw (o, above) (rw created))
