-- ===== src/Machine/Views.antt =====
-- What is read from a history, and the actions that leave it as it is. A view says which calls it
-- skips; an action that makes no other call keeps what the view reads.
use infix_lib.Prelude.{
  ℤ, ℕ, String, Bool, true, false, Option, none, some, List, ◌∷◌, ◌≡◌, refl, ◌∙◌, ap, if◌then◌else◌,
}
use infix_lib.Machine.Values.{Request, SrVal, SrData}
use infix_lib.Machine.Types.{
  Env, World, History, Call, M, opened, refused, wrote, got, closed, removed, tested, asked,
  requested, spawned, record_call,
}
use infix_lib.Machine.Kernel.{
  pure, set_errno, opening, fopen, fputs, fclose, fgets, fgets_all, chomp, request_text, remove,
  request, spawn, getpwnam, whichp, uname, sr_xpath_key_value,
}
use infix_lib.Machine.Stores.{getting, sr_changes, sr_get_data, sr_get_items, sr_val_to_str}
use infix_lib.Machine.Requests.{requesting_lem}
use infix_lib.Machine.{◌>>=◌}

pub record View (X : Type 0) : Type 0 where
  pub read : History → X
  pub skips : Call → Bool
  pub skip : (c : Call) (h : History) → skips c ≡ true → read (c ∷ h) ≡ read h

pub record Keeps {X A : Type 0} (v : View X) (m : M A) : Type 0 where
  pub at : (e : Env) (w : World) → v.read (m e w).1.calls ≡ v.read w.calls

module _ {X : Type 0} (v : View X) where
  pub Keeps-pure : {A : Type 0} (a : A) → Keeps v (pure a)
  unfolding pure
  Keeps-pure a = record { at = λ e w. refl }

  pub Keeps-bind :
      {A B : Type 0} (m : M A) (f : A → M B)
      → Keeps v m
      → ((a : A) → Keeps v (f a))
      → Keeps v (m >>= f)
  unfolding ◌>>=◌
  Keeps-bind m f hm hf = record { at = λ e w. (hf (m e w).0).at e (m e w).1 ∙ hm.at e w }

  pub Keeps-if :
      {A : Type 0} (b : Bool) (m n : M A) → Keeps v m → Keeps v n → Keeps v (if b then m else n)
  Keeps-if true m n hm hn = hm
  Keeps-if false m n hm hn = hn

  pub Keeps-request : (r : Request) → v.skips (requested r) ≡ true → Keeps v (request r)
  unfolding request
  Keeps-request r h = record {
    at = λ e w. ap v.read (requesting_lem r e w) ∙ v.skip (requested r) w.calls h;
  }

  pub Keeps-request_text : (r : Request) → v.skips (requested r) ≡ true → Keeps v (request_text r)
  unfolding request_text
  Keeps-request_text r h = record {
    at = λ e w. ap v.read (requesting_lem r e w) ∙ v.skip (requested r) w.calls h;
  }

  pub Keeps-fgets : (fp : String) → v.skips (got fp) ≡ true → Keeps v (fgets fp)
  unfolding fgets
  Keeps-fgets fp h = record { at = λ e w. v.skip (got fp) w.calls h }

  pub Keeps-chomp : (text : String) → Keeps v (chomp text)
  unfolding chomp
  Keeps-chomp text = record { at = λ e w. refl }

  opening_lem :
      (path mode : String) (o : Option ℕ) (w : World)
      → v.skips (opened path mode) ≡ true
      → v.skips (refused path mode) ≡ true
      → v.read (opening path mode o w).1.calls ≡ v.read w.calls
  opening_lem path mode none w h k = v.skip (opened path mode) w.calls h
  opening_lem path mode (some n) w h k = v.skip (refused path mode) w.calls k

  pub Keeps-fopen :
      (path mode : String)
      → v.skips (opened path mode) ≡ true
      → v.skips (refused path mode) ≡ true
      → Keeps v (fopen path mode)
  unfolding fopen
  Keeps-fopen path mode h k = record {
    at = λ e w. opening_lem path mode (e.open_errno w.calls path mode) w h k;
  }

  pub Keeps-fputs : (text fp : String) → v.skips (wrote fp text) ≡ true → Keeps v (fputs text fp)
  unfolding fputs
  Keeps-fputs text fp h = record { at = λ e w. v.skip (wrote fp text) w.calls h }

  pub Keeps-fclose : (fp : String) → v.skips (closed fp) ≡ true → Keeps v (fclose fp)
  unfolding fclose
  Keeps-fclose fp h = record { at = λ e w. v.skip (closed fp) w.calls h }

  pub Keeps-fgets_all :
      (fp : String) (size : ℕ) → v.skips (got fp) ≡ true → Keeps v (fgets_all fp size)
  unfolding fgets_all
  Keeps-fgets_all fp size h = record { at = λ e w. v.skip (got fp) w.calls h }

  pub Keeps-remove : (path : String) → v.skips (removed path) ≡ true → Keeps v (remove path)
  unfolding remove
  Keeps-remove path h = record { at = λ e w. v.skip (removed path) w.calls h }

  pub Keeps-spawn : (args : List String) → v.skips (spawned args) ≡ true → Keeps v (spawn args)
  unfolding spawn
  Keeps-spawn args h = record { at = λ e w. v.skip (spawned args) w.calls h }

  pub Keeps-getpwnam : (user : String) → v.skips (asked user) ≡ true → Keeps v (getpwnam user)
  unfolding getpwnam
  Keeps-getpwnam user h = record { at = λ e w. v.skip (asked user) w.calls h }

  pub Keeps-whichp : (prog : String) → v.skips (tested prog) ≡ true → Keeps v (whichp prog)
  unfolding whichp
  Keeps-whichp prog h = record { at = λ e w. v.skip (tested prog) w.calls h }

  pub Keeps-set_errno : (n : ℕ) → Keeps v (set_errno n)
  unfolding set_errno
  Keeps-set_errno n = record { at = λ e w. refl }

  pub Keeps-uname : Keeps v uname
  unfolding uname
  Keeps-uname = record { at = λ e w. refl }

  pub Keeps-sr_xpath_key_value :
      (xpath node key : String) → Keeps v (sr_xpath_key_value xpath node key)
  unfolding sr_xpath_key_value
  Keeps-sr_xpath_key_value xpath node key = record { at = λ e w. refl }

  pub Keeps-sr_changes :
      (xpath : String) → v.skips (asked xpath) ≡ true → Keeps v (sr_changes xpath)
  unfolding sr_changes
  Keeps-sr_changes xpath h = record { at = λ e w. v.skip (asked xpath) w.calls h }

  pub Keeps-sr_get_data :
      (xpath : String) → v.skips (asked xpath) ≡ true → Keeps v (sr_get_data xpath)
  unfolding sr_get_data
  Keeps-sr_get_data xpath h = record { at = λ e w. v.skip (asked xpath) w.calls h }

  getting_lem :
      (o : Option (ℤ × ℕ)) (vals : List SrVal) (xpath : String) (w : World)
      → v.skips (asked xpath) ≡ true
      → v.read (getting o vals (record_call (asked xpath) w)).1.calls ≡ v.read w.calls
  getting_lem none vals xpath w h = v.skip (asked xpath) w.calls h
  getting_lem (some (rc, n)) vals xpath w h = v.skip (asked xpath) w.calls h

  pub Keeps-sr_get_items :
      (xpath : String) → v.skips (asked xpath) ≡ true → Keeps v (sr_get_items xpath)
  unfolding sr_get_items
  Keeps-sr_get_items xpath h = record { at = λ e w. getting_lem _ _ xpath w h }

  pub Keeps-sr_val_to_str : (d : SrData) → Keeps v (sr_val_to_str d)
  unfolding sr_val_to_str
  Keeps-sr_val_to_str d = record { at = λ e w. refl }

pub ruleset keep_rules = (
  Keeps-pure, Keeps-bind, Keeps-if, Keeps-request, Keeps-request_text, Keeps-fgets, Keeps-chomp,
  Keeps-fopen, Keeps-fputs, Keeps-fclose, Keeps-fgets_all, Keeps-remove, Keeps-spawn,
  Keeps-getpwnam, Keeps-whichp, Keeps-set_errno, Keeps-uname, Keeps-sr_xpath_key_value,
  Keeps-sr_changes, Keeps-sr_get_data, Keeps-sr_get_items, Keeps-sr_val_to_str,
)
