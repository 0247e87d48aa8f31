-- ===== src/Interfaces/Infer.antt =====
-- What is inferred for an interface in the candidate configuration
-- (src/confd/src/confd/ietf-interfaces.c, up to ifchange_cand).
pub mod Laws
use infix_lib.Prelude.{
  ℕ, ℤ, pos, String, ◌<>◌, ◌==◌, ◌=ℕ◌, Bool, true, false, not, ◌&&◌, ◌||◌, Option, none, some, List,
  [], ◌∷◌, bind, get_or, is_zero, ltb_ℤ, if◌then◌else◌,
}
use infix_lib.Text.{concat, to_bracket, split_last, strtol_10}
use infix_lib.Machine.Values.{
  Event, update, change, ChangeOp, created, modified, Change, Json, array, object, string, Items,
  cons, json_object_get, string_val,
}
use infix_lib.Machine.{M, ◌>>=◌, ◌>>◌, pure, fnmatch, fclose, json_loadf, sr_changes}
use infix_lib.Helpers.{popenf}
use infix_lib.Srx.{
  srx_get_str, srx_set_item, srx_set_str, srx_nitems, sr_err_ok, sr_err_sys, sr_err_internal,
}

-- jansson's `json_unpack` with the format "[{s:s}]" and the key: a text in the first object.
abbrev first_item : Json → Option Json
first_item (array (cons j js)) = some j
first_item _ = none

abbrev text_of : Json → Option String
text_of (string s) = some s
text_of _ = none

abbrev pub unpack_text : Json → String → Option String
unpack_text j key = bind (bind (first_item j) (λ o. json_object_get o key)) text_of

-- The same with "[{s: { s:s }}]".
abbrev pub unpack_inner : Json → String → String → Option String
unpack_inner j outer inner =
    bind (bind (bind (first_item j) (λ o. json_object_get o outer)) (λ o. json_object_get o inner))
      text_of

unfoldable pub link_is_phys : Option Json → Bool
link_is_phys none = false
link_is_phys (some link) = elim (unpack_text link "link_type") [
  | none ↦ false
  | some attr ↦
      if attr == "ether"
      then elim (unpack_inner link "linkinfo" "info_kind") [ none ↦ true | some kind ↦ false ]
      else false
]

unfoldable pub read_link : Option String → M Bool
read_link none = pure false
read_link (some proc) = do link ← json_loadf proc; fclose proc; pure (link_is_phys link)

unfoldable pub iface_is_phys : String → M Bool
unfolding popenf read_link link_is_phys
iface_is_phys ifname = do
  proc ← popenf "re" (concat ("ip -d -j link show dev " ∷ ifname ∷ " 2>/dev/null" ∷ []))
  read_link proc

unfoldable pub iface_xpath : String → Option String
unfolding to_bracket
iface_xpath xpath = to_bracket xpath

abbrev pub if_xpath : String
if_xpath = "/ietf-interfaces:interfaces/interface"

abbrev pub type_veth : String
type_veth = "infix-if-type:veth"

abbrev pub type_bridge : String
type_bridge = "iana-if-type:bridge"

abbrev pub type_vlan : String
type_vlan = "iana-if-type:l2vlan"

-- The other end of a pair, if it has no entry yet, is set up as one that names `ifname`.
unfoldable pub set_veth_peer : String → String → M ℤ
set_veth_peer ifname peer = do
  (err, cnt) ← srx_nitems (concat ("/interfaces/interface[name='" ∷ peer ∷ "']/name" ∷ []))
  if not (is_zero err) || not (cnt =ℕ 0) then pure err else do
    err ← srx_set_str type_veth (concat (if_xpath ∷ "[name='" ∷ peer ∷ "']/type" ∷ []))
    if is_zero err
        then srx_set_str ifname
            (concat (if_xpath ∷ "[name='" ∷ peer ∷ "']/infix-interfaces:veth/peer" ∷ []))
        else pure err

unfoldable pub infer_veth_named : String → Option String → M ℤ
infer_veth_named xpath none = pure sr_err_ok
infer_veth_named xpath (some ifname) = do
  peer ← srx_get_str (xpath <> "/veth/peer")
  elim peer [ none ↦ pure sr_err_ok | some peer ↦ set_veth_peer ifname peer ]

unfoldable pub infer_veth_typed : String → Option String → M ℤ
infer_veth_typed xpath none = pure sr_err_ok
infer_veth_typed xpath (some type) =
    if type == type_veth
    then (do ifname ← srx_get_str (xpath <> "/name"); infer_veth_named xpath ifname)
    else pure sr_err_ok

unfoldable pub ifchange_cand_infer_veth : String → M ℤ
ifchange_cand_infer_veth path = elim (iface_xpath path) [
  | none ↦ pure sr_err_sys
  | some xpath ↦ do type ← srx_get_str (xpath <> "/type"); infer_veth_typed xpath type
]

-- Sets what is not set yet: the error of the count, or that of the setting, which stops the caller.
unfoldable pub set_if_missing : String → String → M (Bool × ℤ)
set_if_missing path val = do
  (err, cnt) ← srx_nitems path
  if is_zero err && (cnt =ℕ 0)
      then (do err ← srx_set_item (string_val val) path; pure (not (is_zero err), err))
      else pure (false, err)

abbrev pub outer_tag : String
outer_tag = "/ietf-if-extensions:encapsulation/ietf-if-vlan-encapsulation:dot1q-vlan/outer-tag"

abbrev pub parent_path : String
parent_path = "/ietf-if-extensions:parent-interface"

-- The three settings of a VLAN whose parent is there. Only the error of the last count survives.
unfoldable pub set_vlan : String → String → String → M ℤ
set_vlan xpath parent vidstr = do
  (stop, err) ← set_if_missing (xpath <> parent_path) parent
  if stop then pure err else do
    (stop, err) ←
        set_if_missing (concat (xpath ∷ outer_tag ∷ "/tag-type" ∷ [])) "ieee802-dot1q-types:c-vlan"
    if stop then pure err else do
      (stop, err) ← set_if_missing (concat (xpath ∷ outer_tag ∷ "/vlan-id" ∷ [])) vidstr
      pure err

unfoldable pub infer_vlan_split : String → Option (String × String) → M ℤ
infer_vlan_split xpath none = pure sr_err_ok
infer_vlan_split xpath (some (parent, vidstr)) =
    let vid = strtol_10 vidstr in
    if ltb_ℤ vid (pos 1) || ltb_ℤ (pos 4095) vid then pure sr_err_ok else do
      (err, cnt) ← srx_nitems (concat ("/interfaces/interface[name='" ∷ parent ∷ "']/name" ∷ []))
      if not (is_zero err) || (cnt =ℕ 0) then pure err else set_vlan xpath parent vidstr

unfoldable pub infer_vlan_named : String → Option String → M ℤ
infer_vlan_named xpath none = pure sr_err_ok
infer_vlan_named xpath (some ifname) = do
  fits ← fnmatch "*.+([0-9])" ifname
  if fits then infer_vlan_split xpath (split_last ifname b'.') else pure sr_err_ok

unfoldable pub infer_vlan_typed : String → Option String → M ℤ
infer_vlan_typed xpath none = pure sr_err_ok
infer_vlan_typed xpath (some type) =
    if type == type_vlan
    then (do ifname ← srx_get_str (xpath <> "/name"); infer_vlan_named xpath ifname)
    else pure sr_err_ok

unfoldable pub ifchange_cand_infer_vlan : String → M ℤ
ifchange_cand_infer_vlan path = elim (iface_xpath path) [
  | none ↦ pure sr_err_sys
  | some xpath ↦ do type ← srx_get_str (xpath <> "/type"); infer_vlan_typed xpath type
]

-- The type that a name stands for.
unfoldable pub type_by_name : String → M (Option String)
type_by_name ifname = do
  phys ← iface_is_phys ifname
  br ← fnmatch "br+([0-9])" ifname
  lag ← fnmatch "lag+([0-9])" ifname
  veth ← fnmatch "veth+([0-9a-z_-])" ifname
  vlan ← fnmatch "vlan+([0-9])" ifname
  dotted ← fnmatch "*.+([0-9])" ifname
  pure (
      if phys
      then some "iana-if-type:ethernetCsmacd"
      else if br
      then some type_bridge
      else if lag
      then some "iana-if-type:ieee8023adLag"
      else if veth
      then some type_veth
      else if vlan || dotted
      then some type_vlan
      else none)

unfoldable pub infer_type_named : String → Option String → M ℤ
infer_type_named xpath none = pure sr_err_internal
infer_type_named xpath (some ifname) = do
  inferred ← type_by_name ifname
  elim inferred [
    | none ↦ pure sr_err_ok
    | some type ↦ srx_set_item (string_val type) (xpath <> "/type")
  ]

unfoldable pub infer_type_typed : String → Option String → M ℤ
infer_type_typed xpath (some type) = pure sr_err_ok
infer_type_typed xpath none = do
  ifname ← srx_get_str (xpath <> "/name")
  infer_type_named xpath ifname

-- The guard tests `path`, not `xpath`, so that a null `xpath` prints as "(null)".
unfoldable pub ifchange_cand_infer_type : String → M ℤ
ifchange_cand_infer_type path =
    let xpath : String = get_or (iface_xpath path) "(null)" in
    do type ← srx_get_str (xpath <> "/type"); infer_type_typed xpath type

-- One round of the loop: the error that would end it.
unfoldable pub infer_change : String → M ℤ
infer_change path = do
  err ← ifchange_cand_infer_type path
  if is_zero err
      then (do
        err ← ifchange_cand_infer_veth path
        if is_zero err then ifchange_cand_infer_vlan path else pure err)
      else pure err

abbrev pub concerns : Change → Option String
concerns c = elim c.op [
  | created ↦ bind c.new (λ v. some v.xpath)
  | modified ↦ bind c.new (λ v. some v.xpath)
  | _ ↦ none
]

unfoldable pub infer_changes : List Change → M Unit
infer_changes [] = pure tt
infer_changes (c ∷ cs) = elim (concerns c) [
  | none ↦ infer_changes cs
  | some path ↦ do err ← infer_change path; if is_zero err then infer_changes cs else pure tt
]

unfoldable pub infer_all : M ℤ
infer_all = do
  (err, changes) ← sr_changes "/ietf-interfaces:interfaces/interface//*"
  if is_zero err then (do infer_changes changes; pure sr_err_ok) else pure err

unfoldable pub ifchange_cand : Event → M ℤ
ifchange_cand update = infer_all
ifchange_cand change = infer_all
ifchange_cand event = pure sr_err_ok
