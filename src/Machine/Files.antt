-- ===== src/Machine/Files.antt =====
-- What the calls of a history do to the files: an abstract file system.
use infix_lib.Prelude.{
  ◌≡◌, refl, String, ◌<>◌, ◌==◌, Bool, true, false, Option, none, some, [], ◌∷◌, arith, is_some,
  get_or, if◌then◌else◌, ℕ, ◌∙◌,
}
use infix_lib.Machine.Values.{SrData}
use infix_lib.Machine.{
  Env, World, History, M, opened, refused, opening, wrote, touched, removed, renamed, pure, ◌>>=◌,
  fopen, fputs, fclose, remove, system, access, rename, sr_get_items, set_errno, sr_val_to_str,
}

-- The content of each file, if it is there.
abbrev pub Store : Type 0
Store = String → Option String

abbrev pub set_file : String → Option String → Store → Store
set_file path content s q = if path == q then content else s q

abbrev pub append_to : Option String → String → Option String
append_to none text = none
append_to (some content) text = some (content <> text)

abbrev pub moved : String → String → Option String → Store → Store
moved from to none s = s
moved from to (some content) s = set_file to (some content) (set_file from none s)

abbrev pub opened_as : String → String → Store → Store
opened_as path mode s = if mode == "w" then set_file path (some "") s else s

-- The files after a history, from what they were before it. Renaming what is not there, and a
-- stream that is not opened for writing, change nothing.
abbrev pub after : Store → History → Store
after s [] = s
after s (removed path ∷ h) = set_file path none (after s h)
after s (renamed from to ∷ h) = moved from to (after s h from) (after s h)
after s (opened path mode ∷ h) = opened_as path mode (after s h)
after s (wrote path text ∷ h) = set_file path (append_to (after s h path) text) (after s h)
after s (touched path ∷ h) = set_file path (some (get_or (after s h path) "")) (after s h)
after s (_ ∷ h) = after s h

-- access(2) tells whether the file is there.
abbrev pub Truthful : Env → Store → Type 0
Truthful e s = (h : History) (path : String) → e.is_there h path ≡ is_some (after s h path)

-- The action leaves the file `q` as it was.
pub record Leaves {A : Type 0} (s : Store) (q : String) (m : M A) : Type 0 where
  pub at : (e : Env) (w : World) → after s (m e w).1.calls q ≡ after s w.calls q

module _ (s : Store) (q : String) where
  pub Leaves-fputs : (text fp : String) → fp == q ≡ false → Leaves s q (fputs text fp)
  unfolding fputs
  Leaves-fputs text fp h = record { at = λ e w. ground (arith, h) }

  pub Leaves-remove : (path : String) → path == q ≡ false → Leaves s q (remove path)
  unfolding remove
  Leaves-remove path h = record { at = λ e w. ground (arith, h) }

  moved-leaves :
      (t : Store) (from to : String) (o : Option String)
      → from == q ≡ false
      → to == q ≡ false
      → moved from to o t q ≡ t q
  moved-leaves t from to none f g = refl
  moved-leaves t from to (some c) f g = ground (arith, f, g)

  pub Leaves-rename :
      (from to : String) → from == q ≡ false → to == q ≡ false → Leaves s q (rename from to)
  unfolding rename
  Leaves-rename from to hf ht = record {
    at = λ e w. moved-leaves (after s w.calls) from to (after s w.calls from) hf ht;
  }

  pub Leaves-access : (path : String) → Leaves s q (access path)
  unfolding access
  Leaves-access path = record { at = λ e w. ground arith }

  pub Leaves-fclose : (fp : String) → Leaves s q (fclose fp)
  unfolding fclose
  Leaves-fclose fp = record { at = λ e w. refl }

  pub Leaves-system : (cmd : String) → Leaves s q (system cmd)
  unfolding system
  Leaves-system cmd = record { at = λ e w. refl }

  pub Leaves-set_errno : (n : ℕ) → Leaves s q (set_errno n)
  unfolding set_errno
  Leaves-set_errno n = record { at = λ e w. refl }

  pub Leaves-sr_get_items : (xpath : String) → Leaves s q (sr_get_items xpath)
  unfolding sr_get_items
  Leaves-sr_get_items xpath = record { at = λ e w. ground arith }

  pub Leaves-sr_val_to_str : (d : SrData) → Leaves s q (sr_val_to_str d)
  unfolding sr_val_to_str
  Leaves-sr_val_to_str d = record { at = λ e w. refl }

module _ {A : Type 0} (s : Store) (q : String) where
  pub Leaves-pure : (a : A) → Leaves s q (pure a)
  unfolding pure
  Leaves-pure a = record { at = λ e w. refl }

  pub Leaves-if :
      (b : Bool) (m n : M A) → Leaves s q m → Leaves s q n → Leaves s q (if b then m else n)
  Leaves-if true m n hm hn = hm
  Leaves-if false m n hm hn = hn

module _ {A B : Type 0} (s : Store) (q : String) where
  pub Leaves-bind :
      (m : M A) (f : A → M B) → Leaves s q m → ((a : A) → Leaves s q (f a)) → Leaves s q (m >>= f)
  unfolding ◌>>=◌
  Leaves-bind m f hm hf = record { at = λ e w. (hf (m e w).0).at e (m e w).1 ∙ hm.at e w }

module _ {B : Type 0} (s : Store) (q : String) where
  opening_lem :
      (path mode : String) (f : Option String → M B) (o : Option ℕ) (e : Env) (w : World)
      → path == q ≡ false
      → Leaves s q (f none)
      → Leaves s q (f (some path))
      → let r = opening path mode o w in after s (f r.0 e r.1).1.calls q ≡ after s w.calls q
  opening_lem path mode f none e w h hn hs =
      let v : World = record w { calls = opened path mode ∷ w.calls } in
      hs.at e v ∙ ground (arith, h)
  opening_lem path mode f (some n) e w h hn hs =
      let v : World = record { calls = refused path mode ∷ w.calls; errno = n } in hn.at e v

  -- The stream that is opened is one on that path.
  pub Leaves-open :
      (path mode : String) (f : Option String → M B)
      → path == q ≡ false
      → Leaves s q (f none)
      → Leaves s q (f (some path))
      → Leaves s q (fopen path mode >>= f)
  unfolding fopen ◌>>=◌
  Leaves-open path mode f h hn hs = record { at = λ e w. opening_lem path mode f _ e w h hn hs }

pub ruleset leave_rules = (
  Leaves-fputs, Leaves-remove, Leaves-rename, Leaves-access, Leaves-fclose, Leaves-system,
  Leaves-set_errno, Leaves-sr_get_items, Leaves-sr_val_to_str, Leaves-pure, Leaves-if, Leaves-bind,
  Leaves-open,
)
