-- ===== src/Klinfix.antt =====
-- The commands of the shell that copy configurations (src/klinfix/src/klinfix.c).
pub mod Laws
use Prim.Native.String.{len}
use text.Mathlib.Text.{starts_with}
use infix_lib.Prelude.{
  ℤ, pos, negsuc, String, Bool, true, false, Option, none, some, List, [], ◌∷◌, is_zero,
  if◌then◌else◌,
}
use infix_lib.Machine.Values.{
  Datastore, startup, running, candidate, operational, factory_default, connect, disconnect,
  session_start, copy_config, kplugin_add_syms,
}
use infix_lib.Machine.{M, ◌>>=◌, ◌>>◌, pure, request}

-- `!strncmp(name, text, strlen(text))`: the text begins the name, and may be shorter.
unfoldable pub klix_ds_from_str : String → Option Datastore
klix_ds_from_str text =
    if starts_with "startup-config" text
    then some startup
    else if starts_with "running-config" text
    then some running
    else if starts_with "candidate-config" text
    then some candidate
    else if starts_with "operational-config" text
    then some operational
    else if starts_with "factory-config" text
    then some factory_default
    else none

abbrev pub is_source : Datastore → Bool
is_source startup = true
is_source running = true
is_source factory_default = true
is_source ds = false

abbrev pub is_destination : Datastore → Bool
is_destination startup = true
is_destination running = true
is_destination ds = false

-- The label `err_disconnect`.
unfoldable pub leave : ℤ → M ℤ
leave rc = do request disconnect; pure rc

unfoldable pub copy_in_session : Datastore → M ℤ
unfolding leave
copy_in_session srcds = do
  err ← request (copy_config srcds)
  if is_zero err then leave (pos 0) else leave (negsuc 0)

unfoldable pub copy_connected : Datastore → Datastore → M ℤ
unfolding copy_in_session leave
copy_connected srcds dstds = do
  err ← request (session_start dstds)
  if is_zero err then copy_in_session srcds else leave (negsuc 0)

unfoldable pub copy_between : Datastore → Datastore → M ℤ
unfolding copy_connected
copy_between srcds dstds =
    if is_source srcds
    then (if is_destination dstds
        then (do
          err ← request connect
          if is_zero err then copy_connected srcds dstds else pure (negsuc 0))
        else pure (negsuc 0))
    else pure (negsuc 0)

unfoldable pub copy_named : Option Datastore → Option Datastore → M ℤ
unfolding copy_between
copy_named (some srcds) (some dstds) = copy_between srcds dstds
copy_named (some srcds) none = pure (negsuc 0)
copy_named none dstds = pure (negsuc 0)

-- The arguments `src` and `dst`, NULL where they are not given.
unfoldable pub klix_copy : Option String → Option String → M ℤ
unfolding copy_named klix_ds_from_str
klix_copy (some src) (some dst) = copy_named (klix_ds_from_str src) (klix_ds_from_str dst)
klix_copy (some src) none = pure (negsuc 0)
klix_copy none dst = pure (negsuc 0)

-- After a copy that fails the connection stays open.
unfoldable pub commit_in_session : M ℤ
unfolding leave
commit_in_session = do
  err ← request (copy_config candidate)
  if is_zero err then leave (pos 0) else pure (negsuc 0)

unfoldable pub commit_connected : M ℤ
unfolding commit_in_session leave
commit_connected = do
  err ← request (session_start running)
  if is_zero err then commit_in_session else leave (negsuc 0)

unfoldable pub klix_commit : M ℤ
unfolding commit_connected
klix_commit = do err ← request connect; if is_zero err then commit_connected else pure (negsuc 0)

unfoldable pub kplugin_klinfix_fini : M ℤ
kplugin_klinfix_fini = pure (pos 0)

-- The symbols are those of `klix_copy` and `klix_commit`.
unfoldable pub kplugin_klinfix_init : M ℤ
kplugin_klinfix_init = do
  request (kplugin_add_syms "klix_copy")
  request (kplugin_add_syms "klix_commit")
  pure (pos 0)
