-- ===== src/Core/Laws.antt =====
-- Sequences of hooks (src/confd/src/confd/core.c, core_post_hook and core_hook_prio).
use infix_lib.Prelude.{
  negsuc, ℕ, zero, suc, ◌+◌, ◌-◌, ◌≤◌, ◌≡◌, ap, ◌∙◌, String, is_zero, if◌then◌else◌, ℤ, pos, ◌+ℤ◌,
  List, [], ◌∷◌, ◌++◌, arith,
}
use infix_lib.Machine.Values.{Event, change, done, abort}
use infix_lib.Machine.{M, ◌>>=◌, pure, Env, World, History, ran, system}
use infix_lib.Core.{core_post_hook, hook_done, reload, core_hook_prio, cb_prio_passive}

-- The hook called for one event after the other.
unfoldable pub run_hooks : List Event → ℤ → M ℤ
run_hooks [] num_changes = pure num_changes
run_hooks (event ∷ events) num_changes = do
  (_, rest) ← core_post_hook event num_changes
  run_hooks events rest

unfoldable pub times : ℕ → Event → List Event
times zero event = []
times (suc n) event = event ∷ times n event

counted : (k : ℕ) → pos k +ℤ pos 1 ≡ pos (suc k)
unfolding ◌+ℤ◌
counted k = ground arith

one_less : (k : ℕ) → pos (suc k) +ℤ negsuc 0 ≡ pos k
unfolding ◌+ℤ◌
one_less k = ground arith

changes_lem :
    (n k : ℕ) (rest : List Event) (e : Env) (w : World)
    → run_hooks (times n change ++ rest) (pos k) e w ≡ run_hooks rest (pos (n + k)) e w
unfolding run_hooks times core_post_hook ◌>>=◌
changes_lem zero k rest e w = ground arith
changes_lem (suc n) k rest e w = ground (arith, counted k, changes_lem n (suc k) rest e w)

-- The calls before the last one only count down.
early_dones_lem :
    (k n : ℕ) (e : Env) (w : World)
    → run_hooks (times k done) (pos (k + suc n)) e w ≡ (pos (suc n), w)
unfolding run_hooks times core_post_hook hook_done ◌>>=◌
early_dones_lem zero n e w = ground arith
early_dones_lem (suc k) n e w = ground (arith, one_less (k + suc n), early_dones_lem k n e w)

dones_lem :
    (n : ℕ) (e : Env) (w : World)
    → run_hooks (times (suc n) done) (pos (suc n)) e w ≡ (pos 0, (reload e w).1)
unfolding run_hooks times core_post_hook hook_done ◌>>=◌
dones_lem zero e w = ground (arith, one_less 0)
dones_lem (suc n) e w = ground (arith, one_less (suc n), dones_lem n e w)

all_done_lem :
    (m n : ℕ) (e : Env) (w : World)
    → m ≡ suc n
    → run_hooks (times m done) (pos m) e w ≡ (pos 0, (reload e w).1)
all_done_lem zero n e w h = absurd (ground (arith, h))
all_done_lem (suc m) n e w h = dones_lem m e w

-- In bootstrap, where there is no runlevel, nothing is reloaded.
abbrev pub reload_calls : Env → History → History
reload_calls e h =
    let runlevel : String = "runlevel >/dev/null 2>&1" in
    if is_zero (e.status h runlevel)
    then ran "initctl -nbq reload" ∷ ran runlevel ∷ h
    else ran runlevel ∷ h

reload_lem : (e : Env) (w : World) → (reload e w).1 ≡ record w { calls = reload_calls e w.calls }
unfolding reload system ◌>>=◌
reload_lem e w = ground arith

-- What a transaction of `asked` modules that is aborted, and then one of `m` modules, make of the
-- counter, before the calls `rest`.
counting_lem :
    (asked m : ℕ) (rest : List Event) (e : Env) (w : World)
    → run_hooks (times asked change ++ abort ∷ (times m change ++ rest)) (pos 0) e w
      ≡ run_hooks rest (pos m) e w
unfolding run_hooks core_post_hook ◌>>=◌
counting_lem asked m rest e w =
    changes_lem asked 0 (abort ∷ (times m change ++ rest)) e w
    ∙ ground (arith, changes_lem m 0 rest e w)

-- A transaction of one or more modules, also after one that was aborted when any number of modules
-- had been asked for their change: as long as the DONE of some module is still to come, none has
-- run anything, and the counter is the number of those that are left; with the DONE of the last
-- module the runlevel has been asked for and, where there is one, initctl has been told to reload,
-- exactly once, and the counter is zero.
pub core_post_hook-reloads_once :
    (asked past n : ℕ) (e : Env) (w : World)
    → let after : List Event → List Event =
        λ dones. times asked change ++ abort ∷ (times (past + suc n) change ++ dones) in
      (run_hooks (after (times past done)) (pos 0) e w ≡ (pos (suc n), w))
      × (run_hooks (after (times (past + suc n) done)) (pos 0) e w
          ≡ (pos 0, record w { calls = reload_calls e w.calls }))
core_post_hook-reloads_once asked past n e w = (
  counting_lem asked (past + suc n) (times past done) e w ∙ early_dones_lem past n e w,
  counting_lem asked (past + suc n) (times (past + suc n) done) e w
      ∙ all_done_lem (past + suc n) (past + n) e w (ground arith)
      ∙ ap (λ v. (pos 0, v)) (reload_lem e w),
)

-- The priority that the k-th of the next calls returns.
unfoldable pub prio_after : ℕ → ℕ → ℕ
prio_after zero p = (core_hook_prio p).0
prio_after (suc k) p = prio_after k (core_hook_prio p).1

-- From a start value of at most CB_PRIO_PASSIVE, the priorities that the calls return count down by
-- one, without a wrap-around for as many calls as the start value says.
core_hook_prio-counts_down : (k p : ℕ) → k ≤ p → p ≤ cb_prio_passive → prio_after k p ≡ p - k
unfolding prio_after core_hook_prio
core_hook_prio-counts_down zero p h b = ground arith
core_hook_prio-counts_down (suc k) p h b =
    ground (arith, core_hook_prio-counts_down k (p - 1) (ground arith) (ground arith))
