-- ===== src/Factory/Laws.antt =====
-- A factory reset is asked for (src/factory/factory.c).
use infix_lib.Prelude.{
  ℕ, suc, ℤ, String, Bool, true, false, some, List, [], ◌∷◌, ◌≡◌, refl, arith, ◌⊎◌, inl, inr,
  Bool-cases, ap, ◌∙◌,
}
use infix_lib.Text.{has_code}
use infix_lib.Machine.Values.{mknod, ttyname, getchar, tcgetattr, tcsetattr}
use infix_lib.Machine.{Env, World, History, requested, ran, ◌>>=◌, pure, requesting}
use infix_lib.Machine.Requests.{requesting_lem}
use infix_lib.Factory.{
  read_raw, set_raw, rawgetch, yorn, is_yes, confirm, reset, start_reset, read_options, main_from,
  main, is_elsewhere,
}

-- How many times the flag is raised or a command is run.
abbrev pub acts : History → ℕ
acts [] = 0
acts (requested (mknod path) ∷ h) = suc (acts h)
acts (ran cmd ∷ h) = suc (acts h)
acts (_ ∷ h) = acts h

module _ (e : Env) (refuses : (h : History) → is_yes (e.reply h getchar) ≡ false) where
  read_raw_lem :
      (w : World) → (is_yes (read_raw e w).0 ≡ false) × (acts (read_raw e w).1.calls ≡ acts w.calls)
  unfolding read_raw ◌>>=◌
  read_raw_lem w =
      let read = requesting_lem getchar e w in
      let reset = requesting_lem (tcsetattr false) e (requesting getchar e w) in
      (refuses w.calls, ground (arith, read, reset))

  rawgetch_lem :
      (w : World) → (is_yes (rawgetch e w).0 ≡ false) × (acts (rawgetch e w).1.calls ≡ acts w.calls)
  unfolding rawgetch set_raw ◌>>=◌
  rawgetch_lem w =
      let got = requesting_lem tcgetattr e w in
      let v = requesting tcgetattr e w in
      let raw = requesting_lem (tcsetattr true) e v in
      let u = requesting (tcsetattr true) e v in
      let undone = requesting_lem (tcsetattr false) e u in
      let (refused, kept) = read_raw_lem u in ground (arith, got, raw, undone, refused, kept)

  yorn_lem : (w : World) → ((yorn e w).0 ≡ false) × (acts (yorn e w).1.calls ≡ acts w.calls)
  unfolding yorn ◌>>=◌
  yorn_lem w = rawgetch_lem w

  reset_lem : (reboot : Bool) (w : World) → acts (reset reboot false e w).1.calls ≡ acts w.calls
  unfolding reset confirm ◌>>=◌
  reset_lem reboot w = let (refused, kept) = yorn_lem w in ground (arith, refused, kept)

  start_lem :
      (arg0 tty : String) (reboot : Bool) (w : World)
      → e.answer w.calls ttyname ≡ some tty
      → acts (start_reset arg0 (reboot, false) e w).1.calls ≡ acts w.calls
  unfolding start_reset ◌>>=◌
  start_lem arg0 tty reboot w h =
      let asked_tty = requesting_lem ttyname e w in
      let kept = reset_lem reboot (requesting ttyname e w) in
      elim (Bool-cases (is_elsewhere arg0 (some tty))) [
        | inl y ↦ rw (h, y) (ap acts asked_tty)
        | inr n ↦ rw (h, n) (kept ∙ ap acts asked_tty)
      ]

abbrev pub assumes : ℤ ⊎ (Bool × Bool) → Bool
assumes (inl status) = false
assumes (inr (reboot, assumed)) = assumed

options_lem :
    (cs : List ℕ) (reboot : Bool)
    → has_code b'y' cs ≡ false
    → assumes (read_options cs reboot false) ≡ false
unfolding read_options
options_lem [] reboot h = refl
options_lem (c ∷ cs) reboot h =
    let again = options_lem cs reboot in
    let off = options_lem cs false in ground (arith, again, off, h)

from_options :
    (o : ℤ ⊎ (Bool × Bool)) (arg0 tty : String) (e : Env) (w : World)
    → ((h : History) → is_yes (e.reply h getchar) ≡ false)
    → e.answer w.calls ttyname ≡ some tty
    → assumes o ≡ false
    → acts (main_from arg0 o e w).1.calls ≡ acts w.calls
unfolding main_from pure
from_options (inl status) arg0 tty e w refuses h a = refl
from_options (inr (reboot, false)) arg0 tty e w refuses h a =
    start_lem e refuses arg0 tty reboot w h
from_options (inr (reboot, true)) arg0 tty e w refuses h a = ground (arith, a)

-- On a terminal, without the option -y and without a key y or Y, the program neither raises the
-- flag of the factory reset nor reboots.
pub main-asks :
    (arg0 tty : String) (options : List ℕ) (e : Env) (w : World)
    → ((h : History) → is_yes (e.reply h getchar) ≡ false)
    → e.answer w.calls ttyname ≡ some tty
    → has_code b'y' options ≡ false
    → acts (main arg0 options e w).1.calls ≡ acts w.calls
unfolding main
main-asks arg0 tty options e w refuses h a =
    from_options (read_options options true false) arg0 tty e w refuses h
      (options_lem options true a)
