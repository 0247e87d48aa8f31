-- ===== src/Interfaces/Links/Veth.antt =====
-- The two ends of a veth pair (src/confd/src/confd/ietf-interfaces.c, netdag_gen_veth).
use infix_lib.Prelude.{
  ◌≡◌, refl, ap, ◌∙◌, pos, String, Bool, true, false, Option, none, some, [], ◌∷◌, is_some, eq_refl,
  ◌==◌,
}
use infix_lib.Text.{concat}
use infix_lib.Lyx.Tree.{Node, lyd_child}
use infix_lib.Lyx.{lydx_get_cattr, lydx_get_descendant}
use infix_lib.Machine.{
  Env, World, Call, ran, wrote, touched, tested, testing, record_call, access, system, ◌>>=◌,
}
use infix_lib.Machine.Files.{Store, after, Truthful}
use infix_lib.Helpers.{fexistf}
use infix_lib.Dagger.{
  Dagger, skip_file, next_dir, dagger_should_skip, dagger_skip_iface, dagger_add_dep,
}
use infix_lib.Interfaces.Links.{veth_with, veth_at, netdag_gen_veth}

-- The interface of this name, with its peer.
pub record IsEnd (cif : Option Node) (ifname peer : String) : Type 0 where
  pub veth : Node
  pub name : lydx_get_cattr cif "name" ≡ some ifname
  pub found : lydx_get_descendant (lyd_child cif) ("veth" ∷ []) ≡ some veth
  pub other : lydx_get_cattr (some veth) "peer" ≡ some peer

abbrev pub link_line : String → String → String
link_line ifname peer =
    concat ("link add dev " ∷ ifname ∷ " down type veth peer " ∷ peer ∷ "\n" ∷ [])

abbrev pub depends_on : Dagger → String → String → Call
depends_on net depender dependee =
    ran (concat ("ln -s ../" ∷ dependee ∷ " " ∷ next_dir net ∷ "/dag/" ∷ depender ∷ []))

module _ (e : Env) (s : Store) (truthful : Truthful e s) (net : Dagger) where
  -- One end, by whether it was marked.
  end_lem :
      (ip : String) (cif : Option Node) (ifname peer : String) (there : Bool) (w : World)
      → IsEnd cif ifname peer
      → is_some (after s w.calls (skip_file net ifname)) ≡ there
      → netdag_gen_veth net cif ip e w ≡ (
          let r =
            testing there
              (e.missing_errno w.calls (skip_file net ifname))
              (record_call (tested (skip_file net ifname)) w) in
          veth_with net ifname peer ip r.0 e r.1)
  unfolding netdag_gen_veth veth_at dagger_should_skip fexistf access ◌>>=◌
  end_lem ip cif ifname peer there w end marked =
      let answer = truthful w.calls (skip_file net ifname) ∙ marked in
      rw (end.name, end.found) (rw (end.other, answer) refl)

  -- The end that comes first makes the pair, and marks the other one.
  first_lem :
      (ip : String) (cif : Option Node) (ifname peer : String) (w : World)
      → IsEnd cif ifname peer
      → after s w.calls (skip_file net ifname) ≡ none
      → let r = netdag_gen_veth net cif ip e w in
        (r.0 ≡ pos 0)
        × (r.1.calls
            ≡ wrote ip (link_line ifname peer)
              ∷ touched (skip_file net peer)
              ∷ tested (skip_file net ifname)
              ∷ w.calls)
  unfolding veth_with dagger_skip_iface ◌>>=◌
  first_lem ip cif ifname peer w end unmarked =
      let made = end_lem ip cif ifname peer false w end (ap is_some unmarked) in
      (ap (λ r. r.0) made, ap (λ r. r.1.calls) made)

  -- The other end only waits for it.
  second_lem :
      (ip : String) (cif : Option Node) (ifname peer : String) (w : World)
      → IsEnd cif ifname peer
      → is_some (after s w.calls (skip_file net ifname)) ≡ true
      → (netdag_gen_veth net cif ip e w).1.calls
        ≡ depends_on net ifname peer ∷ tested (skip_file net ifname) ∷ w.calls
  unfolding veth_with dagger_add_dep system
  second_lem ip cif ifname peer w end marked =
      ap (λ r. r.1.calls) (end_lem ip cif ifname peer true w end marked)

  -- Where access(2) tells which files are there, the script of the first end is not the mark, and
  -- that end is not marked: its turn makes the pair in its own script and marks the other end. If
  -- the mark is still there when the turn of the other end comes, with a script of its own and
  -- whatever was called in between, that end makes nothing, and only waits for the first.
  pub netdag_gen_veth-once :
      (first second : Option Node) (a b ip ip' : String) (w u : World)
      → IsEnd first a b
      → IsEnd second b a
      → ip == skip_file net b ≡ false
      → after s w.calls (skip_file net a) ≡ none
      → let made = netdag_gen_veth net first ip e w in
        after s u.calls (skip_file net b) ≡ after s made.1.calls (skip_file net b)
        → (made.0 ≡ pos 0)
          × (made.1.calls
              ≡ wrote ip (link_line a b)
                ∷ touched (skip_file net b)
                ∷ tested (skip_file net a)
                ∷ w.calls)
          × ((netdag_gen_veth net second ip' e u).1.calls
              ≡ depends_on net b a ∷ tested (skip_file net b) ∷ u.calls)
  netdag_gen_veth-once first second a b ip ip' w u one other apart unmarked kept =
      let made = netdag_gen_veth net first ip e w in
      let (ok, calls) = first_lem ip first a b w one unmarked in
      let marked : is_some (after s made.1.calls (skip_file net b)) ≡ true =
        rw calls (rw (apart, eq_refl (skip_file net b)) refl) in
      (ok, calls, second_lem ip' second b a u other (ap is_some kept ∙ marked))
