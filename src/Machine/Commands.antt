-- ===== src/Machine/Commands.antt =====
-- The commands that a history ran, and the texts that it wrote.
use infix_lib.Prelude.{String, Bool, true, false, List, [], ◌∷◌, ◌≡◌, refl, arith}
use infix_lib.Machine.{History, Call, ran, wrote}
use infix_lib.Machine.Views.{View}

-- The latest comes first.
abbrev pub commands : History → List String
commands [] = []
commands (ran cmd ∷ h) = cmd ∷ commands h
commands (_ ∷ h) = commands h

abbrev runs_none : Call → Bool
runs_none (ran cmd) = false
runs_none c = true

pub command-skip : (c : Call) (h : History) → runs_none c ≡ true → commands (c ∷ h) ≡ commands h
command-skip (ran cmd) h k = absurd (ground (arith, k))
command-skip _ h k = refl

abbrev pub command_view : View (List String)
command_view = record { read = commands; skips = runs_none; skip = command-skip }

-- The commands with the texts between them.
abbrev pub deeds : History → List Call
deeds [] = []
deeds (ran cmd ∷ h) = ran cmd ∷ deeds h
deeds (wrote file text ∷ h) = wrote file text ∷ deeds h
deeds (_ ∷ h) = deeds h

abbrev does_nothing : Call → Bool
does_nothing (ran cmd) = false
does_nothing (wrote file text) = false
does_nothing c = true

pub deed-skip : (c : Call) (h : History) → does_nothing c ≡ true → deeds (c ∷ h) ≡ deeds h
deed-skip (ran cmd) h k = absurd (ground (arith, k))
deed-skip (wrote file text) h k = absurd (ground (arith, k))
deed-skip _ h k = refl

abbrev pub deed_view : View (List Call)
deed_view = record { read = deeds; skips = does_nothing; skip = deed-skip }
