-- ===== src/Machine/Streams/Rules.antt =====
-- What it means that an action closes the streams that it opens, and the rules for its parts.
use infix_lib.Prelude.{ℕ, suc, ◌+◌, ◌≡◌, String, Bool, true, false, Option, none, some, [], ◌∷◌}
use infix_lib.Prelude.{arith, ◌==◌, if◌then◌else◌}
use infix_lib.Machine.{opened, closed, History, Env, World, M, pure, ◌>>=◌}

-- How often a stream on the path was opened, and closed.
abbrev pub opens : String → History → ℕ
opens p [] = 0
opens p (opened q mode ∷ h) = if q == p then suc (opens p h) else opens p h
opens p (_ ∷ h) = opens p h

abbrev pub closes : String → History → ℕ
closes p [] = 0
closes p (closed q ∷ h) = if q == p then suc (closes p h) else closes p h
closes p (_ ∷ h) = closes p h

abbrev pub one_if : Bool → ℕ
one_if b = if b then 1 else 0

-- The action closes every stream on `p` as often as it opens one.
pub record Balanced {A : Type 0} (p : String) (m : M A) : Type 0 where
  pub at :
      (e : Env) (w : World)
      → opens p (m e w).1.calls + closes p w.calls ≡ opens p w.calls + closes p (m e w).1.calls

-- The action closes `fp`, which was open before it, and else closes what it opens.
pub record Closes {A : Type 0} (p fp : String) (m : M A) : Type 0 where
  pub at :
      (e : Env) (w : World)
      → opens p (m e w).1.calls + closes p w.calls + one_if (fp == p)
        ≡ opens p w.calls + closes p (m e w).1.calls

abbrev pub one_open : String → Option String → ℕ
one_open p none = 0
one_open p (some fp) = one_if (fp == p)

-- The action hands over a stream that it opened, or NULL, and else closes what it opens.
pub record Opens (p : String) (m : M (Option String)) : Type 0 where
  pub at :
      (e : Env) (w : World)
      → opens p (m e w).1.calls + closes p w.calls
        ≡ opens p w.calls + closes p (m e w).1.calls + one_open p (m e w).0

module _ {A : Type 0} (p : String) where
  pub Balanced-pure : (a : A) → Balanced p (pure a)
  unfolding pure
  Balanced-pure a = record { at = λ e w. ground arith }

  pub Balanced-if :
      (b : Bool) (m n : M A) → Balanced p m → Balanced p n → Balanced p (if b then m else n)
  Balanced-if true m n hm hn = hm
  Balanced-if false m n hm hn = hn

  pub Closes-if :
      (fp : String) (b : Bool) (m n : M A)
      → Closes p fp m
      → Closes p fp n
      → Closes p fp (if b then m else n)
  Closes-if fp true m n hm hn = hm
  Closes-if fp false m n hm hn = hn

module _ {A B : Type 0} (p : String) where
  pub Balanced-bind :
      (m : M A) (f : A → M B) → Balanced p m → ((a : A) → Balanced p (f a)) → Balanced p (m >>= f)
  unfolding ◌>>=◌
  Balanced-bind m f hm hf = record {
    at = λ e w. omega (arith, hm.at e w, (hf (m e w).0).at e (m e w).1);
  }

  pub Closes-bind_first :
      (fp : String) (m : M A) (f : A → M B)
      → Closes p fp m
      → ((a : A) → Balanced p (f a))
      → Closes p fp (m >>= f)
  unfolding ◌>>=◌
  Closes-bind_first fp m f hm hf = record {
    at = λ e w. omega (arith, hm.at e w, (hf (m e w).0).at e (m e w).1);
  }

  pub Closes-bind_then :
      (fp : String) (m : M A) (f : A → M B)
      → Balanced p m
      → ((a : A) → Closes p fp (f a))
      → Closes p fp (m >>= f)
  unfolding ◌>>=◌
  Closes-bind_then fp m f hm hf = record {
    at = λ e w. omega (arith, hm.at e w, (hf (m e w).0).at e (m e w).1);
  }

module _ {B : Type 0} (p : String) where
  given :
      (f : Option String → M B)
      → Balanced p (f none)
      → ((fp : String) → Closes p fp (f (some fp)))
      → (o : Option String) (e : Env) (w : World)
      → opens p (f o e w).1.calls + closes p w.calls + one_open p o
        ≡ opens p w.calls + closes p (f o e w).1.calls
  given f hn hs none e w = omega (arith, hn.at e w)
  given f hn hs (some fp) e w = (hs fp).at e w

  pub Balanced-open :
      (m : M (Option String)) (f : Option String → M B)
      → Opens p m
      → Balanced p (f none)
      → ((fp : String) → Closes p fp (f (some fp)))
      → Balanced p (m >>= f)
  unfolding ◌>>=◌
  Balanced-open m f hm hn hs = record {
    at = λ e w. omega (arith, hm.at e w, given f hn hs (m e w).0 e (m e w).1);
  }
