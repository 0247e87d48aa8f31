-- ===== src/Dagger.antt =====
-- Generations of network configuration, src/confd/src/confd/dagger.c: `struct dagger` and its
-- operations. Those that change the structure return the new one.
pub mod Claim
pub mod Files
pub mod Streams
use infix_lib.Prelude.{ℕ, ℤ, pos, negsuc, ◌+ℤ◌, String, ◌<>◌, ◌==◌, Bool, true, false}
use infix_lib.Prelude.{Option, none, some, [], ◌∷◌, ltb, ltb_ℤ, is_zero, if◌then◌else◌}
use infix_lib.Text.{concat, show_int, show_two, rindex, strlcpy}
use infix_lib.Machine.{M, ◌>>=◌, ◌>>◌, pure, system, fopen, fputs, fclose, fchmod, touch, set_errno}
use infix_lib.Helpers.{erange, fexistf, readdf}

pub record Dagger : Type 0 where
  pub current : ℤ
  pub next : ℤ
  pub next_fp : Option String
  pub path : String

abbrev pub path_max : ℕ
path_max = 4096

-- errno EUNATCH of Linux
abbrev pub eunatch : ℕ
eunatch = 49

-- The first line of a script, by its extension.
unfoldable pub interpreter : Option String → String
interpreter none = ""
interpreter (some ext) =
    if ext == ".sh"
    then "#!/bin/sh\n\n"
    else if ext == ".bridge"
    then "#!/sbin/bridge -batch\n\n"
    else if ext == ".ip"
    then "#!/sbin/ip -batch\n\n"
    else if ext == ".sysctl"
    then "#!/sbin/sysctl -p\n\n"
    else ""

-- An unknown extension writes nothing.
unfoldable pub put_header : String → String → M Unit
put_header text fp = if text == "" then pure tt else fputs text fp

unfoldable pub kept : String → ℤ → M (Option String)
kept fp err = if is_zero err then pure (some fp) else do fclose fp; pure none

unfoldable pub prepare : String → Option String → M (Option String)
prepare script none = pure none
prepare script (some fp) = do
  put_header (interpreter (rindex script b'.')) fp
  err ← fchmod fp 0o774
  kept fp err

-- <path>/<gen>/action/<action>/<node>
abbrev pub action_dir : Dagger → ℤ → String → String → String
action_dir d gen action node =
    concat (d.path ∷ "/" ∷ show_int gen ∷ "/action/" ∷ action ∷ "/" ∷ node ∷ [])

-- `prio` is an unsigned char.
unfoldable pub dagger_fopen : Dagger → ℤ → String → String → ℕ → String → M (Option String)
dagger_fopen d gen action node prio script =
    if ltb 99 prio then (do set_errno erange; pure none) else do
      err ← system ("mkdir -p " <> action_dir d gen action node)
      if is_zero err
          then (do
            fp ←
                fopen
                  (concat (action_dir d gen action node ∷ "/" ∷ show_two prio ∷ "-" ∷ script ∷ []))
                  "w"
            prepare script fp)
          else pure none

unfoldable pub dagger_fopen_next : Dagger → String → String → ℕ → String → M (Option String)
dagger_fopen_next d action node prio script = dagger_fopen d d.next action node prio script

unfoldable pub dagger_fopen_current : Dagger → String → String → ℕ → String → M (Option String)
dagger_fopen_current d action node prio script =
    if ltb_ℤ d.current (pos 0)
    then (do set_errno eunatch; pure none)
    else dagger_fopen d d.current action node prio script

-- <path>/<next>
abbrev pub next_dir : Dagger → String
next_dir d = concat (d.path ∷ "/" ∷ show_int d.next ∷ [])

unfoldable pub dagger_add_dep : Dagger → String → String → M ℤ
dagger_add_dep d depender dependee =
    system (concat ("ln -s ../" ∷ dependee ∷ " " ∷ next_dir d ∷ "/dag/" ∷ depender ∷ []))

unfoldable pub dagger_add_node : Dagger → String → M ℤ
dagger_add_node d node = system (concat ("mkdir -p " ∷ next_dir d ∷ "/dag/" ∷ node ∷ []))

-- The number of the next generation goes into the file `next`, which was empty since the claim.
-- Without a claim `next_fp` is NULL, and C leaves undefined what happens: here, nothing.
unfoldable pub finish_claim : Dagger → Option String → M Unit
finish_claim d none = pure tt
finish_claim d (some fp) = do fputs (show_int d.next <> "\n") fp; fclose fp; pure tt

abbrev pub abandon_command : Dagger → String
abandon_command d = concat ("dagger -C " ∷ d.path ∷ " abandon" ∷ [])

abbrev pub evolve_command : Dagger → String
evolve_command d = concat ("dagger -C " ∷ d.path ∷ " evolve" ∷ [])

unfoldable pub dagger_abandon : Dagger → M ℤ
dagger_abandon d = do finish_claim d d.next_fp; system (abandon_command d)

unfoldable pub dagger_evolve : Dagger → M ℤ
dagger_evolve d = do finish_claim d d.next_fp; system (evolve_command d)

unfoldable pub dagger_evolve_or_abandon : Dagger → M ℤ
dagger_evolve_or_abandon d = do
  err ← dagger_evolve d
  if is_zero err then pure (pos 0) else do system (abandon_command d); pure err

abbrev pub skip_file : Dagger → String → String
skip_file d ifname = concat (next_dir d ∷ "/skip/" ∷ ifname ∷ [])

unfoldable pub dagger_skip_iface : Dagger → String → M Unit
dagger_skip_iface d ifname = touch (skip_file d ifname)

unfoldable pub dagger_should_skip : Dagger → String → M Bool
unfolding fexistf
dagger_should_skip d ifname = fexistf (skip_file d ifname)

abbrev pub no_dagger : Dagger
no_dagger = record { current = pos 0; next = pos 0; next_fp = none; path = "" }

abbrev pub mkdir_exit : String → ℤ → String
mkdir_exit path current =
    let gen = concat (path ∷ "/" ∷ show_int current ∷ []) in
    concat (
      "mkdir -p " ∷ gen ∷ "/action/exit && ln -s ../../top-down-order " ∷ gen ∷ "/action/exit/order"
      ∷ [])

abbrev pub mkdir_init : String → ℤ → String
mkdir_init path next =
    let gen = concat (path ∷ "/" ∷ show_int next ∷ []) in
    concat (
      "mkdir -p " ∷ gen ∷ "/action/init && mkdir -p " ∷ gen
      ∷ "/skip && ln -s ../../bottom-up-order " ∷ gen ∷ "/action/init/order" ∷ [])

-- The end of a claim, once `current` is known: the directories of the next generation. The path
-- is stored last.
unfoldable pub claim_next : Dagger → String → M (ℤ × Dagger)
claim_next d path = do
  let claimed : Dagger = record d { next = d.current +ℤ pos 1 }
  err ← system (mkdir_init path claimed.next)
  if is_zero err
      then pure (pos 0, record claimed { path = strlcpy path_max path })
      else pure (err, claimed)

unfoldable pub claim_current : Dagger → String → Option ℤ → M (ℤ × Dagger)
claim_current d path none = claim_next (record d { current = negsuc 0 }) path
claim_current d path (some current) = do
  err ← system (mkdir_exit path current)
  if is_zero err
      then claim_next (record d { current = current }) path
      else pure (err, record d { current = current })

unfoldable pub claim_opened : String → Option String → M (ℤ × Dagger)
claim_opened path none = pure (negsuc 0, no_dagger)
claim_opened path (some fp) = do
  current ← readdf (path <> "/current")
  claim_current (record no_dagger { next_fp = some fp }) path current

-- The result and the structure that the C function fills.
unfoldable pub dagger_claim : String → M (ℤ × Dagger)
dagger_claim path = do
  err ← system ("mkdir -p " <> path)
  if is_zero err
      then (do fp ← fopen (path <> "/next") "wx"; claim_opened path fp)
      else pure (err, no_dagger)
