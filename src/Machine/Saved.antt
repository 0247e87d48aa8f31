-- ===== src/Machine/Saved.antt =====
-- What is surely in a file, as the calls of stdio leave it: text that was written to a stream is in
-- the file once fclose(3) has succeeded, and if nothing touched the file since.
use text.Mathlib.TextLemmas.{nil-append}
use infix_lib.Prelude.{
  ℤ, pos, String, ◌<>◌, ◌==◌, Bool, true, false, ◌||◌, Option, none, some, [], ◌∷◌, ◌≡◌, refl, ap,
  arith, eq_refl, is_zero, if◌then◌else◌,
}
use infix_lib.Text.{show_int}
use infix_lib.Machine.Types.{
  Env, History, Call, ran, opened, wrote, closed, removed, renamed, requested, spawned,
}
use infix_lib.Machine.Files.{append_to}
use infix_lib.Machine.Views.{View}

-- What was written to the file since it was opened for writing, while that stream is open. A
-- command leaves the file alone if `spares` says so; a program that was spawned need not.
abbrev pub unsaved : (String → Bool) → String → History → Option String
unsaved spares file [] = none
unsaved spares file (wrote path text ∷ h) =
    let before = unsaved spares file h in if path == file then append_to before text else before
unsaved spares file (opened path mode ∷ h) =
    let before = unsaved spares file h in
    if path == file then if mode == "w" || mode == "wx" then some "" else none else before
unsaved spares file (closed path ∷ h) =
    let before = unsaved spares file h in if path == file then none else before
unsaved spares file (removed path ∷ h) =
    let before = unsaved spares file h in if path == file then none else before
unsaved spares file (renamed from to ∷ h) =
    let before = unsaved spares file h in if from == file || to == file then none else before
unsaved spares file (ran cmd ∷ h) =
    let before = unsaved spares file h in if spares cmd then before else none
unsaved spares file (spawned args ∷ h) = none
unsaved spares file (_ ∷ h) = unsaved spares file h

-- The content of the file after its stream was closed, with success.
abbrev pub saved : Env → (String → Bool) → String → History → Option String
saved e spares file [] = none
saved e spares file (closed path ∷ h) =
    let before = saved e spares file h in
    let written = if is_zero (e.close_status h path) then unsaved spares file h else none in
    if path == file then written else before
saved e spares file (wrote path text ∷ h) =
    let before = saved e spares file h in if path == file then none else before
saved e spares file (opened path mode ∷ h) =
    let before = saved e spares file h in if path == file then none else before
saved e spares file (removed path ∷ h) =
    let before = saved e spares file h in if path == file then none else before
saved e spares file (renamed from to ∷ h) =
    let before = saved e spares file h in if from == file || to == file then none else before
saved e spares file (ran cmd ∷ h) =
    let before = saved e spares file h in if spares cmd then before else none
saved e spares file (spawned args ∷ h) = none
saved e spares file (_ ∷ h) = saved e spares file h

-- Files can be opened for writing and closed. One whose whole content is a number on a line can be
-- opened for reading, and its first line is that line.
pub record Stdio (e : Env) (spares : String → Bool) : Type 0 where
  pub opens : (h : History) (file : String) → e.open_errno h file "w" ≡ none
  pub closes : (h : History) (file : String) → e.close_status h file ≡ pos 0
  pub finds :
      (h : History) (file : String) (n : ℤ)
      → saved e spares file h ≡ some (show_int n <> "\n")
      → e.open_errno h file "r" ≡ none
  pub reads :
      (h : History) (file : String) (n : ℤ)
      → saved e spares file h ≡ some (show_int n <> "\n")
      → e.line (opened file "r" ∷ h) file ≡ some (show_int n <> "\n")

abbrev pub asks_only : Call → Bool
asks_only (requested r) = true
asks_only _ = false

pub saved-skip :
    (e : Env) (spares : String → Bool) (file : String) (c : Call) (h : History)
    → asks_only c ≡ true
    → saved e spares file (c ∷ h) ≡ saved e spares file h
saved-skip e spares file (requested r) h k = refl
saved-skip e spares file _ h k = absurd (ground (arith, k))

abbrev pub saved_view : Env → (String → Bool) → String → View (Option String)
saved_view e spares file = record {
  read = saved e spares file;
  skips = asks_only;
  skip = saved-skip e spares file;
}

module _ (e : Env) (spares : String → Bool) (stdio : Stdio e spares) where
  -- A stream to which one text was written, and that is closed.
  pub closed_lem :
      (file text : String) (h : History)
      → unsaved spares file h ≡ some ""
      → saved e spares file (closed file ∷ wrote file text ∷ h) ≡ some text
  closed_lem file text h fresh =
      rw (stdio.closes (wrote file text ∷ h) file)
        (rw (eq_refl file) (rw fresh (ap some (nil-append text))))

  pub rewritten_lem :
      (file text : String) (h : History)
      → saved e spares file (closed file ∷ wrote file text ∷ opened file "w" ∷ h) ≡ some text
  rewritten_lem file text h = closed_lem file text (opened file "w" ∷ h) (rw (eq_refl file) refl)
