-- ===== src/Lyx/Paths.antt =====
-- What the searches among siblings and down a path find (src/confd/src/lib/lyx.c,
-- lydx_get_sibling and lydx_get_descendant).
use infix_lib.Prelude.{
  String, ◌≡◌, refl, Option, some, none, List, [], ◌∷◌, ◌++◌, arith, true, false, Bool-cases, inl,
  inr, ap, bind, bind-bind,
}
use infix_lib.Lyx.Tree.{Node, lyd_child, siblings, has_name}
use infix_lib.Lyx.{find_name, lydx_get_sibling, descend, lydx_get_descendant}

-- No node of the list has the name.
abbrev pub NoneNamed : String → List Node → Type 0
NoneNamed name [] = Unit
NoneNamed name (n ∷ ns) = (has_name name n ≡ false) × NoneNamed name ns

-- The list is `before`, none of which has the name, then `n`, which has it, then more.
abbrev pub IsFirst : String → List Node → Node → Type 0
IsFirst name ns n =
    (before : List Node) × (after : List Node) × (ns ≡ before ++ n ∷ after)
    × NoneNamed name before
    × (has_name name n ≡ true)

find_name-IsFirst :
    (name : String) (ns : List Node) (n : Node) → find_name name ns ≡ some n → IsFirst name ns n
unfolding find_name
find_name-IsFirst name [] n h = cc
find_name-IsFirst name (m ∷ ns) n h = elim (Bool-cases (has_name name m)) [
  | inl e ↦
      let same : m ≡ n = ground (arith, e) in ([], ns, ap (λ k. k ∷ ns) same, tt, rw same at e)
  | inr e ↦
      let (before, after, p, q, r) = find_name-IsFirst name ns n (ground (arith, e)) in
      (m ∷ before, after, ap (λ l. m ∷ l) p, (e, q), r)
]

find_name-none : (name : String) (ns : List Node) → find_name name ns ≡ none → NoneNamed name ns
unfolding find_name
find_name-none name [] h = tt
find_name-none name (m ∷ ns) h = ground (arith, find_name-none name ns)

-- From the first sibling on, `lydx_get_sibling` gives the first node with the name, and NULL only
-- if none has it.
pub lydx_get_sibling_lem :
    (name : String) (from : Node)
    → ((n : Node)
        → lydx_get_sibling (some from) name ≡ some n
        → IsFirst name (siblings (some from)) n)
      × (lydx_get_sibling (some from) name ≡ none → NoneNamed name (siblings (some from)))
unfolding lydx_get_sibling
lydx_get_sibling_lem name from = (
  λ n h. find_name-IsFirst name (siblings (some from)) n h,
  λ h. find_name-none name (siblings (some from)) h,
)

descend-append :
    (m : Node) (xs : List String) (y : String) (ys : List String)
    → descend (some m) (lyd_child (some m)) (xs ++ y ∷ ys)
      ≡ bind
          (descend (some m) (lyd_child (some m)) xs)
          (λ n. descend (some n) (lyd_child (some n)) (y ∷ ys))
unfolding descend
descend-append m [] y ys = refl
descend-append m (x ∷ xs) y ys =
    bind-bind (lydx_get_sibling (lyd_child (some m)) x) _ _ _ λ n. descend-append n xs y ys

-- A path of names in two parts leads where its second part leads from the children of the node
-- that the first part finds, and nowhere if the first part finds none.
lydx_get_descendant-append :
    (from : Option Node) (x : String) (xs : List String) (y : String) (ys : List String)
    → lydx_get_descendant from ((x ∷ xs) ++ y ∷ ys)
      ≡ bind
          (lydx_get_descendant from (x ∷ xs))
          (λ n. lydx_get_descendant (lyd_child (some n)) (y ∷ ys))
unfolding lydx_get_descendant
lydx_get_descendant-append from x xs y ys =
    bind-bind (lydx_get_sibling from x) _ _ _ λ n. descend-append n xs y ys
