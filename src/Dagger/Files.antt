-- ===== src/Dagger/Files.antt =====
-- The scripts that a generation is made of (src/confd/src/confd/dagger.c, dagger_fopen and the two
-- functions over it).
use infix_lib.Prelude.{
  ℕ, ◌≤◌, ℤ, pos, ltb_ℤ, String, ◌<>◌, ◌≡◌, ◌==◌, none, some, List, [], ◌∷◌, ◌++◌, arith, true,
  false, if◌then◌else◌,
}
use infix_lib.Text.{rindex, concat, show_two}
use infix_lib.Machine.{Env, World, Call, ◌>>=◌, ran, opened, wrote, chmodded}
use infix_lib.Helpers.{erange}
use infix_lib.Dagger.{
  Dagger, action_dir, interpreter, put_header, kept, prepare, dagger_fopen, dagger_fopen_next,
  dagger_fopen_current, eunatch,
}

-- The file of a script.
abbrev pub script_file : Dagger → ℤ → String → String → ℕ → String → String
script_file d gen action node prio script =
    concat (action_dir d gen action node ∷ "/" ∷ show_two prio ∷ "-" ∷ script ∷ [])

-- The line that the extension asks for, if it is a known one.
abbrev pub header_call : String → String → List Call
header_call fp script =
    let text = interpreter (rindex script b'.') in if text == "" then [] else wrote fp text ∷ []

-- A script that is handed over has a priority of at most 99, its file has the name that tells the
-- generation, action, node and priority, and all that was done is: its directory made, the file
-- opened for writing, the line of its interpreter written, and its mode set.
dagger_fopen-opened :
    (d : Dagger) (gen : ℤ) (action node : String) (prio : ℕ) (script fp : String) (e : Env)
    (w : World)
    → (dagger_fopen d gen action node prio script e w).0 ≡ some fp
    → (prio ≤ 99)
      × (fp ≡ script_file d gen action node prio script)
      × ((dagger_fopen d gen action node prio script e w).1.calls
          ≡ chmodded fp 0o774
            ∷ (header_call fp script
                ++ (opened fp "w" ∷ ran ("mkdir -p " <> action_dir d gen action node) ∷ w.calls)))
unfolding dagger_fopen prepare kept put_header ◌>>=◌
dagger_fopen-opened d gen action node prio script fp e w h = ground arith

-- Nothing is done for a priority above 99, where errno becomes ERANGE, nor in the current
-- generation while there is none, where errno becomes EUNATCH. In a generation that is there, the
-- current one is the place.
dagger_fopen_refuses :
    (d : Dagger) (action node : String) (prio : ℕ) (script : String) (e : Env) (w : World)
    → (100 ≤ prio
        → dagger_fopen_next d action node prio script e w ≡ (none, record w { errno = erange }))
      × (ltb_ℤ d.current (pos 0) ≡ true
          → dagger_fopen_current d action node prio script e w
            ≡ (none, record w { errno = eunatch }))
      × (ltb_ℤ d.current (pos 0) ≡ false
          → dagger_fopen_current d action node prio script e w
            ≡ dagger_fopen d d.current action node prio script e w)
unfolding dagger_fopen_next dagger_fopen_current dagger_fopen ◌>>=◌
dagger_fopen_refuses d action node prio script e w =
    (λ h. ground arith, λ h. ground arith, λ h. rw h)
