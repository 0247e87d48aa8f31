-- ===== src/Interfaces/Infer/Laws.antt =====
-- What the inference in the candidate (src/confd/src/confd/ietf-interfaces.c, ifchange_cand and
-- below) may set, and what becomes of its errors.
use infix_lib.Prelude.{
  ◌≡◌, ◌⊎◌, inl, inr, refl, pos, is_zero→eq, String, ◌<>◌, Bool, true, false, Option, none, some,
  List, [], ◌∷◌, arith, get_or, if◌then◌else◌, ltb_ℤ, ◌||◌,
}
use infix_lib.Text.{strtol_10}
use infix_lib.Machine.{Env, World, History, set_item, set_str, ◌>>=◌}
use infix_lib.Machine.Values.{Event, update, change}
use infix_lib.Srx.{srx_get_str, srx_nitems, srx_set_item}
use infix_lib.Interfaces.Infer.{
  iface_is_phys, iface_xpath, type_by_name, infer_type_typed, infer_type_named,
  ifchange_cand_infer_type, infer_vlan_split, infer_all, ifchange_cand,
}

-- The paths that were set, the latest first.
abbrev pub sets : History → List String
sets [] = []
sets (set_item path v ∷ h) = path ∷ sets h
sets (set_str path v ∷ h) = path ∷ sets h
sets (_ ∷ h) = sets h

-- The events on which the candidate is looked at.
abbrev pub handled : Event → Bool
handled update = true
handled change = true
handled _ = false

-- Whatever goes wrong while types, peers and VLANs are inferred, the result is that of reading the
-- changes, for the events UPDATE and CHANGE, and success for any other.
ifchange_cand-result :
    (ev : Event) (e : Env) (w : World)
    → (ifchange_cand ev e w).0 ≡ (if handled ev then e.changes_status w.calls else pos 0)
unfolding ifchange_cand infer_all ◌>>=◌
ifchange_cand-result update e w = ground (arith, is_zero→eq (e.changes_status w.calls))
ifchange_cand-result change e w = ground (arith, is_zero→eq (e.changes_status w.calls))
ifchange_cand-result _ e w = refl

sets-srx_get_str :
    (xpath : String) (e : Env) (w : World) → sets (srx_get_str xpath e w).1.calls ≡ sets w.calls
unfolding srx_get_str ◌>>=◌
sets-srx_get_str xpath e w = ground arith

sets-type_by_name :
    (ifname : String) (e : Env) (w : World) → sets (type_by_name ifname e w).1.calls ≡ sets w.calls
unfolding type_by_name iface_is_phys ◌>>=◌
sets-type_by_name ifname e w = ground arith

sets-infer_type_named :
    (xpath : String) (o : Option String) (e : Env) (w : World)
    → let s = sets (infer_type_named xpath o e w).1.calls in
      (s ≡ sets w.calls) ⊎ (s ≡ (xpath <> "/type") ∷ sets w.calls)
unfolding infer_type_named srx_set_item ◌>>=◌
sets-infer_type_named xpath none e w = ground arith
sets-infer_type_named xpath (some ifname) e w = ground (arith, sets-type_by_name ifname e w)

-- An interface that has a type keeps it: nothing is set. For one that has none, at most the type is
-- set, once.
pub ifchange_cand_infer_type-keeps :
    (path : String) (e : Env) (w : World)
    → let xpath : String = get_or (iface_xpath path) "(null)" in
      let read = srx_get_str (xpath <> "/type") e w in
      let s = sets (ifchange_cand_infer_type path e w).1.calls in
      ((t : String)
        → read.0 ≡ some t
        → (ifchange_cand_infer_type path e w ≡ (pos 0, read.1)) × (s ≡ sets w.calls))
      × (read.0 ≡ none → (s ≡ sets w.calls) ⊎ (s ≡ (xpath <> "/type") ∷ sets w.calls))
unfolding ifchange_cand_infer_type infer_type_typed ◌>>=◌
ifchange_cand_infer_type-keeps path e w =
    let xpath : String = get_or (iface_xpath path) "(null)" in
    let read = srx_get_str (xpath <> "/type") e w in
    let name = srx_get_str (xpath <> "/name") e read.1 in
    (
      λ t h. ground (arith, sets-srx_get_str (xpath <> "/type") e w),
      λ h. ground (
        arith,
        sets-srx_get_str (xpath <> "/type") e w,
        sets-srx_get_str (xpath <> "/name") e read.1,
        sets-infer_type_named xpath name.0 e name.1,
      ),
    )

sets-srx_nitems :
    (xpath : String) (e : Env) (w : World) → sets (srx_nitems xpath e w).1.calls ≡ sets w.calls
unfolding srx_nitems ◌>>=◌
sets-srx_nitems xpath e w = ground arith

-- Nothing is set for a name `<parent>.<vid>` whose number is outside 1 to 4095, nor for one whose
-- parent has no entry.
infer_vlan_split-guards :
    (xpath parent vidstr : String) (e : Env) (w : World)
    → let parents = srx_nitems ("/interfaces/interface[name='" <> (parent <> "']/name")) e w in
      ((ltb_ℤ (strtol_10 vidstr) (pos 1) || ltb_ℤ (pos 4095) (strtol_10 vidstr)) ≡ true)
        ⊎ (parents.0.1 ≡ 0)
      → sets (infer_vlan_split xpath (some (parent, vidstr)) e w).1.calls ≡ sets w.calls
unfolding infer_vlan_split ◌>>=◌
infer_vlan_split-guards xpath parent vidstr e w (inl bad) = ground arith
infer_vlan_split-guards xpath parent vidstr e w (inr absent) =
    ground (arith, sets-srx_nitems ("/interfaces/interface[name='" <> (parent <> "']/name")) e w)
