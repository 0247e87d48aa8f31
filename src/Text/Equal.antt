-- ===== src/Text/Equal.antt =====
-- The equality of texts as C's strcmp tests it.
use text.Mathlib.TextLemmas.{append_cancel_left}
use infix_lib.Prelude.{
  ◌≡◌, ◌≢◌, sym, String, ◌<>◌, ◌==◌, false, arith, eq_iff, eq_refl, Bool-cases, inl, inr,
}

pub differs : (s t : String) → s ≢ t → (s == t) ≡ false
differs s t h = elim (Bool-cases (s == t)) [ inl y ↦ absurd (h ((eq_iff s t).0 y)) | inr n ↦ n ]

pub eq-append : (p a b : String) → (p <> a == p <> b) ≡ (a == b)
eq-append p a b = elim (Bool-cases (a == b)) [
  | inl y ↦ let same : a ≡ b = (eq_iff a b).0 y in rw y (rw same (eq_refl (p <> b)))
  | inr n ↦ rw n (
      differs (p <> a) (p <> b) λ path.
        let same : a ≡ b = append_cancel_left p a b path in
        absurd (ground (arith, n, (eq_iff a b).1 same)))
]

pub eq_swap : (a b : String) → (a == b) ≡ (b == a)
eq_swap a b = elim (Bool-cases (a == b)) [
  | inl y ↦ let same : a ≡ b = (eq_iff a b).0 y in rw y (rw same (sym (eq_refl b)))
  | inr n ↦ rw n (sym (differs b a λ path. absurd (ground (arith, n, (eq_iff a b).1 (sym path)))))
]
