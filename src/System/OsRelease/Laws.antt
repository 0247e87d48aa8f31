-- ===== src/System/OsRelease/Laws.antt =====
-- The values of os-release (src/confd/src/confd/ietf-system.c, strip_quotes).
use Prim.Native.Char.{Char, code}
use infix_lib.Prelude.{◌≡◌, refl, ap, ◌∙◌, arith, String, ◌<>◌, Bool, false, ◌||◌, ◌=ℕ◌, none, some}
use text.Mathlib.TextLemmas.{cons-append}
use infix_lib.Text.{is_space, split_last}
use infix_lib.System.OsRelease.{skip_quotes, cut_quote, strip_quotes}

-- A character that strip_quotes drops at the start.
abbrev pub is_lead : Char → Bool
is_lead c = is_space (code c) || code c =ℕ 34

abbrev pub quotes_in : String → Bool
quotes_in String.[] = false
quotes_in (String.◌∷◌ c s) = code c =ℕ 34 || quotes_in s

quoted_step :
    (c : Char) (s : String)
    → split_last (s <> "\"") 34 ≡ some (s, "")
    → split_last (String.◌∷◌ c (s <> "\"")) 34 ≡ some (String.◌∷◌ c s, "")
unfolding split_last
quoted_step c s h = ground (arith, h)

split_last-quoted : (s : String) → split_last (s <> "\"") 34 ≡ some (s, "")
unfolding split_last
split_last-quoted String.[] = refl
split_last-quoted (String.◌∷◌ c s) =
    ap (λ t. split_last t 34) (cons-append c s "\"") ∙ quoted_step c s (split_last-quoted s)

split_last-unquoted : (s : String) → quotes_in s ≡ false → split_last s 34 ≡ none
unfolding split_last
split_last-unquoted String.[] h = refl
split_last-unquoted (String.◌∷◌ c s) h = let ih = split_last-unquoted s in ground (arith, ih, h)

cut_lem : (c : Char) (s : String) → cut_quote (String.◌∷◌ c (s <> "\"")) ≡ String.◌∷◌ c s
unfolding cut_quote
cut_lem c s = ground (arith, split_last-quoted s)

skip_lem :
    (c : Char) (s : String) → is_lead c ≡ false → skip_quotes (String.◌∷◌ c s) ≡ String.◌∷◌ c s
unfolding skip_quotes
skip_lem c s h = ground (arith, h)

-- A value in quotes is read without them, also where it holds quotes itself, and a value without
-- quotes is read as it stands, if it starts with neither a quote nor a blank.
pub strip_quotes_lem :
    (c : Char) (s : String)
    → is_lead c ≡ false
    → (strip_quotes (String.◌∷◌ "\"" (String.◌∷◌ c (s <> "\""))) ≡ String.◌∷◌ c s)
      × (quotes_in s ≡ false → strip_quotes (String.◌∷◌ c s) ≡ String.◌∷◌ c s)
unfolding strip_quotes skip_quotes cut_quote
strip_quotes_lem c s h = (
  ap cut_quote (skip_lem c (s <> "\"") h) ∙ cut_lem c s,
  λ q. ap cut_quote (skip_lem c s h) ∙ ground (arith, split_last-unquoted s q),
)
