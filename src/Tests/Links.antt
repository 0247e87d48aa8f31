-- ===== src/Tests/Links.antt =====
-- The kinds of an interface.
use infix_lib.Prelude.{◌≡◌, refl, pos, true, false, String, none, some, [], ◌∷◌, is_some}
use infix_lib.Lyx.Tree.{Tree}
use infix_lib.Machine.{Env, World, closed, tested, wrote, touched}
use infix_lib.Machine.Files.{Store, after}
use infix_lib.Dagger.{Dagger}
use infix_lib.Interfaces.Autoconf.{netdag_gen_sysctl}
use infix_lib.Interfaces.Autoconf.Sysctl.{script_calls, netdag_gen_sysctl_lem}
use infix_lib.Interfaces.Links.{netdag_gen_veth}
use infix_lib.Interfaces.Links.Veth.{IsEnd, depends_on, netdag_gen_veth-once}
use infix_lib.Tests.Fixtures.{start, calm, leaf, inner, forest, root}
use infix_lib.Tests.Running.{text_run, lyx_run}

abbrev pair_with : String → Tree
pair_with peer = inner "veth" [] (forest (leaf "peer" peer ∷ []))

-- One end of a pair.
abbrev end_of : String → String → Tree
end_of name peer = inner "interface" [] (forest (leaf "name" name ∷ pair_with peer ∷ []))

abbrev dag : Dagger
dag = record { current = pos 3; next = pos 4; next_fp = none; path = "/run/net" }

abbrev empty : Store
empty path = none

abbrev unmarked : Env
unmarked = record calm { is_there = λ h path. is_some (after empty h path) }

both_ends : (name peer : String) → IsEnd (some (root (end_of name peer))) name peer
unfolding text_run lyx_run
both_ends name peer = record {
  veth = record { this = pair_with peer; later = forest []; up = end_of name peer ∷ [] };
  name = refl;
  found = refl;
  other = refl;
}

netdag_gen_veth-once_example :
    let made = netdag_gen_veth dag (some (root (end_of "v0" "v1"))) "init.ip" unmarked start in
    let next : World = record made.1 { calls = closed "init.ip" ∷ made.1.calls } in
    (made.0 ≡ pos 0)
    × (made.1.calls
        ≡ wrote "init.ip" "link add dev v0 down type veth peer v1\n"
          ∷ touched "/run/net/4/skip/v1"
          ∷ tested "/run/net/4/skip/v0"
          ∷ [])
    × ((netdag_gen_veth dag (some (root (end_of "v1" "v0"))) "other.ip" unmarked next).1.calls
        ≡ depends_on dag "v1" "v0" ∷ tested "/run/net/4/skip/v1" ∷ next.calls)
unfolding text_run
netdag_gen_veth-once_example =
    let made = netdag_gen_veth dag (some (root (end_of "v0" "v1"))) "init.ip" unmarked start in
    let next : World = record made.1 { calls = closed "init.ip" ∷ made.1.calls } in
    netdag_gen_veth-once unmarked empty (λ h path. refl) dag (some (root (end_of "v0" "v1")))
      (some (root (end_of "v1" "v0"))) "v0" "v1" "init.ip" "other.ip" start next
      (both_ends "v0" "v1") (both_ends "v1" "v0") refl refl refl

-- IPv4 forwarding is switched on, IPv6 forwarding off.
abbrev forwards : Tree
forwards = inner "interface" (("yang:operation", "create") ∷ []) (
    forest (
      leaf "name" "eth0"
      ∷ inner "ipv4" [] (forest (leaf "forwarding" "true" ∷ []))
      ∷ inner "ipv6" [] (forest (leaf "forwarding" "false" ∷ []))
      ∷ []))

netdag_gen_sysctl_lem_example :
    let r = netdag_gen_sysctl dag (some (root forwards)) calm start in
    (r.0 ≡ pos 0)
    × (r.1.calls
        ≡ script_calls dag "eth0"
            (("net.ipv4.conf.eth0.forwarding", true)
              ∷ ("net.ipv6.conf.eth0.forwarding", false)
              ∷ [])
            [])
unfolding text_run lyx_run
netdag_gen_sysctl_lem_example =
    netdag_gen_sysctl_lem calm dag (some (root forwards)) start
      (record { runs = λ h cmd. refl; opens = λ h path mode. refl; chmods = λ h fp. refl })
