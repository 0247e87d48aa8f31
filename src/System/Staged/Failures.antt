-- ===== src/System/Staged/Failures.antt =====
-- What a failed event CHANGE of change_ntp and change_dns leaves behind
-- (src/confd/src/confd/ietf-system.c).
use infix_lib.Prelude.{
  ◌≡◌, refl, ℕ, ℤ, String, Bool, true, false, Option, none, some, List, arith, is_zero,
  if◌then◌else◌, eq_refl, ◌⊎◌, inl, inr, sym,
}
use mathlib.Core.Path.{subst}
use infix_lib.Machine.Values.{SrVal, change}
use infix_lib.Machine.{Env, World, History, M, pure, remove, fopen, opening, ◌>>=◌}
use infix_lib.Srx.{sr_err_ok}
use infix_lib.System.Staged.{next_of}
use infix_lib.Machine.Files.{Store, after}
use infix_lib.System.Ntp.{chrony_conf, is_valid, write_chrony, stage_servers, stage_ntp, change_ntp}
use infix_lib.System.Dns.{
  resolv_conf, write_resolv, close_resolv, stage_resolv, stage_dns, change_dns,
}

-- An action that fails leaves no file `q`.
pub record Cleans (s : Store) (q : String) (m : M ℤ) : Type 0 where
  pub at : (e : Env) (w : World) → is_zero (m e w).0 ≡ false → after s (m e w).1.calls q ≡ none

module _ (s : Store) where
  Cleans-close : (fp : String) (rc : ℤ) → Cleans s (next_of resolv_conf) (close_resolv fp rc)
  unfolding close_resolv ◌>>=◌
  Cleans-close fp rc = record { at = λ e w h. ground (arith, h, eq_refl (next_of resolv_conf)) }

  Cleans-bind :
      {A : Type 0} (q : String) (m : M A) (f : A → M ℤ)
      → ((a : A) → Cleans s q (f a))
      → Cleans s q (m >>= f)
  unfolding ◌>>=◌
  Cleans-bind q m f c = record { at = λ e w h. (c (m e w).0).at e (m e w).1 h }

  Cleans-removed : (q : String) (rc : ℤ) → Cleans s q (remove q >>= λ _. pure rc)
  unfolding ◌>>=◌
  Cleans-removed q rc = record { at = λ e w h. ground (arith, eq_refl q) }

  Cleans-ok : (q : String) → Cleans s q (pure sr_err_ok)
  unfolding pure
  Cleans-ok q = record { at = λ e w h. ground (arith, h) }

  Cleans-if :
      (q : String) (b : Bool) (m n : M ℤ)
      → Cleans s q m
      → Cleans s q n
      → Cleans s q (if b then m else n)
  Cleans-if q true m n hm hn = hm
  Cleans-if q false m n hm hn = hn

  Cleans-resolv : (fp : String) → Cleans s (next_of resolv_conf) (stage_resolv (some fp))
  unfolding stage_resolv
  Cleans-resolv fp = Cleans-bind _ (write_resolv fp) (close_resolv fp) (Cleans-close fp)

  Cleans-chrony :
      (vals : List SrVal) (fp : String)
      → Cleans s (next_of chrony_conf) (write_chrony vals (some fp))
  unfolding write_chrony
  Cleans-chrony vals fp = Cleans-bind _ _ _ λ valid. Cleans-bind _ _ _ λ u.
      Cleans-bind _ _ _
        λ v. Cleans-if _ (is_valid vals valid) _ _ (Cleans-ok _) (Cleans-removed _ _)

or_failed : (b : Bool) (A : Type 0) → (b ≡ false → A) → (b ≡ true) ⊎ A
or_failed true A h = inl refl
or_failed false A h = inr (h refl)

module _ (s : Store) (e : Env)
    (opens : (h : History) (path mode : String) → e.open_errno h path mode ≡ none) where
  opened_lem :
      (q path mode : String) (f : Option String → M ℤ) (w : World)
      → Cleans s q (f (some path))
      → let r = (fopen path mode >>= f) e w in is_zero r.0 ≡ false → after s r.1.calls q ≡ none
  unfolding fopen ◌>>=◌
  opened_lem q path mode f w c =
      let r : Option ℕ → ℤ × World = λ o. let p = opening path mode o w in f p.0 e p.1 in
      subst (λ o. is_zero (r o).0 ≡ false → after s (r o).1.calls q ≡ none)
        (sym (opens w.calls path mode)) (c.at e _)

  servers_lem :
      (vals : ℤ ⊎ List SrVal) (w : World)
      → let r = stage_servers vals e w in
        is_zero r.0 ≡ false → after s r.1.calls (next_of chrony_conf) ≡ none
  unfolding stage_servers
  servers_lem (inl rc) w h = (Cleans-removed s (next_of chrony_conf) rc).at e w h
  servers_lem (inr vals) w h =
      opened_lem _ (next_of chrony_conf) "w" (write_chrony vals) w
        (Cleans-chrony s vals (next_of chrony_conf)) h

  -- Where a file can be opened: if the event CHANGE of NTP or of the resolver ends in an error, the
  -- file that it prepared is gone, so that a later DONE puts none in place.
  pub failed_changes_lem :
      (w : World)
      → let ntp = change_ntp change e w in
        let dns = change_dns change e w in
        ((is_zero ntp.0 ≡ true) ⊎ (after s ntp.1.calls (next_of chrony_conf) ≡ none))
        × ((is_zero dns.0 ≡ true) ⊎ (after s dns.1.calls (next_of resolv_conf) ≡ none))
  unfolding change_ntp change_dns stage_ntp stage_dns ◌>>=◌
  failed_changes_lem w = (
    or_failed _ _ (servers_lem _ _),
    or_failed _ _ (
        opened_lem _ (next_of resolv_conf) "w" stage_resolv w
          (Cleans-resolv s (next_of resolv_conf))),
  )
