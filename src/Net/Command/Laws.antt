-- ===== src/Net/Command/Laws.antt =====
-- The names that net runs under (src/net/src/main.c, main).
use infix_lib.Prelude.{ℕ, String, List, ◌∷◌, ◌≡◌, refl, none, some, ap, sym, ◌∙◌}
use infix_lib.Text.{split_last}
use infix_lib.Machine.{pure}
use infix_lib.Net.{Net}
use infix_lib.Net.Command.{
  Cmd, inval, up_cmd, down_cmd, transform, command_of, read_operands, read_options, run_operands,
  main, start_net,
}

operands_lem :
    (t u d : Cmd) (word : String) (names : List String) (net : Net)
    → t ≡ inval
    → u ≡ d
    → command_of word ≡ d
    → read_operands t (word ∷ names) net ≡ read_operands u names net
unfolding read_operands
operands_lem t u d word names net ht hu hd =
    ap (λ c. read_operands c (word ∷ names) net) ht
    ∙ ap (λ c. read_operands c names net) hd
    ∙ ap (λ c. read_operands c names net) (sym hu)

run_lem :
    (fuel : ℕ) (options : List ℕ) (arg0 alias word : String) (d : Cmd) (names : List String)
    → transform arg0 ≡ inval
    → transform alias ≡ d
    → command_of word ≡ d
    → main fuel arg0 options (word ∷ names) ≡ main fuel alias options names
unfolding main
run_lem fuel options arg0 alias word d names ht hu hd =
    ap
      (λ r. elim (read_options options) [
        | some status ↦ pure (some status)
        | none ↦ run_operands fuel r
      ])
      (operands_lem (transform arg0) (transform alias) d word names start_net ht hu hd)

-- Where the name of the program is none of ifup and ifdown, `net up` and `net down` do what ifup and
-- ifdown do with the same operands and options.
pub main-aliases :
    (fuel : ℕ) (arg0 : String) (options : List ℕ) (names : List String)
    → transform arg0 ≡ inval
    → (main fuel arg0 options ("up" ∷ names) ≡ main fuel "/sbin/ifup" options names)
      × (main fuel arg0 options ("down" ∷ names) ≡ main fuel "/sbin/ifdown" options names)
unfolding transform command_of split_last
main-aliases fuel arg0 options names h = (
  run_lem fuel options arg0 "/sbin/ifup" "up" up_cmd names h refl refl,
  run_lem fuel options arg0 "/sbin/ifdown" "down" down_cmd names h refl refl,
)
