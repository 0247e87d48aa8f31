-- ===== src/Tests/Updown.antt =====
-- The command line of net, and the number of a generation between confd and net.
use infix_lib.Prelude.{
  ◌≡◌, refl, pos, ℤ, String, ◌==◌, Bool, true, false, none, some, [], ◌∷◌, inr, arith,
  if◌then◌else◌,
}
use infix_lib.Machine.{Env, World, ran, opened, wrote}
use infix_lib.Net.{Net}
use infix_lib.Dagger.{Dagger, finish_claim}
use infix_lib.Machine.Saved.{Stdio, saved}
use infix_lib.Net.Generation.{load_gen, save_gen}
use infix_lib.Net.Handover.{generation-handed_over}
use infix_lib.Net.Command.{getpath, ifupdown}
use infix_lib.Net.Command.Links.{admin_file, Steady, ifupdown-runs}
use infix_lib.Machine.Commands.{deeds}
use infix_lib.Tests.Fixtures.{start, calm}
use infix_lib.Tests.Running.{text_run, srx_run, net_command_run, net_deps_run}

-- eth1 is disabled, and the command for eth0 fails.
abbrev off : Env
off = record calm {
  status = λ h cmd. if cmd == "ip link set eth0 up" then pos 2 else pos 0;
  line = λ h path. some (if path == "infix/3/eth1/admin-state" then "disabled" else "3\n");
}

abbrev status_of : String → ℤ
status_of cmd = if cmd == "ip link set eth0 up" then pos 2 else pos 0

abbrev disabled : String → Bool
disabled ifname = admin_file "infix/3" ifname == "infix/3/eth1/admin-state"

state_lem : (b : Bool) → (if b then "disabled" else "3\n") == "disabled" ≡ b
state_lem true = refl
state_lem false = refl

off-Steady : Steady off "infix/3" disabled status_of
unfolding text_run srx_run net_command_run net_deps_run
off-Steady = record {
  finds = λ w. refl;
  opens = λ h ifname mode. refl;
  state = λ h ifname. if disabled ifname then "disabled" else "3\n";
  reads = λ h ifname. refl;
  says = λ h ifname. state_lem (disabled ifname);
  runs = λ h cmd. refl;
}

abbrev three : Net
three = record { iface_list = "eth0" ∷ "eth1" ∷ "eth2" ∷ []; dep = 0; ip = none; bridge = none }

ifupdown-runs_example :
    let r = ifupdown "up" three off start in
    (r.0 ≡ some (pos 2))
    × (deeds r.1.calls
        ≡ wrote "infix/3/eth2/admin-state" "up\n"
          ∷ ran "ip link set eth2 up"
          ∷ ran "ip link set eth0 up"
          ∷ [])
unfolding text_run srx_run net_command_run net_deps_run
ifupdown-runs_example =
    ifupdown-runs off "infix/3" disabled status_of off-Steady "up" three "eth0"
      ("eth1" ∷ "eth2" ∷ []) start refl

-- The commands of a claim leave its lock alone.
abbrev spared : String → Bool
spared cmd = true

-- The first line of a file that was opened is what was saved in it.
abbrev shared : Env
shared = record calm {
  line = λ h path. elim h [ opened file mode ∷ before ↦ saved calm spared path before | _ ↦ none ];
  chomp = λ text. if text == "4\n" then "4" else text;
}

shared-Stdio : Stdio shared spared
shared-Stdio = record {
  opens = λ h file. refl;
  closes = λ h file. refl;
  finds = λ h file n kept. refl;
  reads = λ h file n kept. kept;
}

-- The lock was taken, and the directories of the generation were made.
abbrev claimed : World
claimed = record start { calls = ran "mkdir -p infix/4/skip" ∷ opened "infix/next" "wx" ∷ [] }

abbrev fourth : Dagger
fourth = record { current = pos 3; next = pos 4; next_fp = some "infix/next"; path = "infix" }

generation-handed_over_example :
    ((load_gen "infix" "next" shared (finish_claim fourth (some "infix/next") shared claimed).1).0
      ≡ inr "4")
    × ((getpath shared (save_gen "infix" "gen" "4" shared start).1).0 ≡ some "infix/4")
unfolding text_run srx_run net_command_run
generation-handed_over_example =
    generation-handed_over shared spared shared-Stdio "infix" (λ w. refl) fourth 4 claimed start
      refl refl (omega arith) refl refl
