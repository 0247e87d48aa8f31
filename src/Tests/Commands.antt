-- ===== src/Tests/Commands.antt =====
-- The programs net, klinfix and statd, the installation of modules, and numbers in files.
use infix_lib.Prelude.{
  false, ◌≡◌, refl, pos, ℤ, ◌+◌, String, ◌==◌, true, none, some, [], ◌∷◌, arith, if◌then◌else◌,
}
use infix_lib.Machine.{Env, opened, closed, got, requested}
use infix_lib.Machine.Values.{
  Json, string, array, object, member, empty, cons, nil, Items, Request, connect, session_start,
  oper_get_subscribe, install_module, enable_feature,
}
use infix_lib.Helpers.{readdf, writedf}
use infix_lib.Machine.Saved.{saved}
use infix_lib.Helpers.Numbers.{readdf-writedf}
use infix_lib.Net.Command.{main}
use infix_lib.Net.Command.Laws.{main-aliases}
use infix_lib.Klinfix.{klix_copy, klix_commit}
use infix_lib.Klinfix.Laws.{connected, disconnected, permitted, klix_copy-permitted}
use infix_lib.Modules.{SrxModuleRequirement, srx_require_module}
use infix_lib.Statd.{reg_iface_handlers, iface_path, link_show, to_lowercase}
use infix_lib.Statd.Laws.{reg_iface_handlers-subscribes}
use infix_lib.Factory.{main as factory_main}
use infix_lib.Factory.Laws.{acts, main-asks}
use infix_lib.Tests.Fixtures.{start, calm}
use infix_lib.Tests.Running.{modules_run, text_run, net_command_run, klinfix_run, statd_run}

main-aliases_example :
    (main 2 "/sbin/net" [] ("up" ∷ "eth0" ∷ []) ≡ main 2 "/sbin/ifup" [] ("eth0" ∷ []))
    × (main 2 "/sbin/net" [] ("down" ∷ "eth0" ∷ []) ≡ main 2 "/sbin/ifdown" [] ("eth0" ∷ []))
unfolding text_run net_command_run
main-aliases_example = main-aliases 2 "/sbin/net" [] ("eth0" ∷ []) refl

klix_copy-permitted_example :
    let h = (klix_copy (some "running-config") (some "startup") calm start).1.calls in
    (connected calm h + 0 ≡ 0 + disconnected h) × (permitted h ≡ true)
klix_copy-permitted_example =
    klix_copy-permitted (some "running-config") (some "startup") calm start

-- Each copy fails.
abbrev no_copy : Env
no_copy = record calm {
  reply = λ h r. elim r [ connect ↦ pos 0 | session_start ds ↦ pos 0 | _ ↦ pos 1 ];
}

-- The connection of a commit whose copy fails stays open.
left_open :
    let h = (klix_commit no_copy start).1.calls in (connected no_copy h ≡ 1) × (disconnected h ≡ 0)
unfolding klinfix_run text_run
left_open = (refl, refl)

abbrev requirement : SrxModuleRequirement
requirement = record {
  dir = "/usr/share/yang";
  name = "ietf-system";
  rev = some "2014-08-06";
  features = some ("authentication" ∷ "ntp" ∷ []);
}

-- The module is there already, and only its feature "ntp" can be enabled.
abbrev partly : Request → ℤ
partly (install_module path dir features) = pos 6
partly (enable_feature name feature) = if feature == "ntp" then pos 0 else pos 1
partly _ = pos 0

abbrev with_module : Env
with_module = record calm { reply = λ h r. partly r }

-- The feature that fails is not seen.
last_feature : (srx_require_module requirement with_module start).0 ≡ pos 0
unfolding text_run modules_run
last_feature = refl

abbrev named : String → Json
named name = object (member "ifname" (string name) empty)

abbrev links : Items
links = cons (named "lo") (cons (object empty) (cons (named "eth0") nil))

abbrev with_links : Env
with_links = record calm { json = λ h fp. some (array links) }

reg_iface_handlers-subscribes_example :
    let r = reg_iface_handlers with_links start in
    let cmd = link_show none in
    (r.0 ≡ pos 0)
    × (r.1.calls
        ≡ requested (oper_get_subscribe (iface_path "eth0"))
          ∷ requested (oper_get_subscribe (iface_path "lo"))
          ∷ closed cmd
          ∷ got cmd
          ∷ opened cmd "re"
          ∷ [])
reg_iface_handlers-subscribes_example =
    reg_iface_handlers-subscribes links with_links start (λ h path mode. refl) (λ h fp. refl)
      λ h r. refl

lowered : to_lowercase "LOWERLAYERDOWN" ≡ "lowerlayerdown"
unfolding statd_run
lowered = refl

-- The first line of a file that was opened is what was saved in it.
abbrev disk : Env
disk = record calm {
  line = λ h path. elim h [
    | opened file mode ∷ before ↦ saved calm (λ cmd. false) path before
    | _ ↦ none
  ];
}

readdf-writedf_example :
    (readdf "/run/net/next" disk (writedf (pos 4) "w" "/run/net/next" disk start).1).0
    ≡ some (pos 4)
readdf-writedf_example =
    readdf-writedf 4 "/run/net/next" disk (λ cmd. false) start (ground arith)
      (record {
        opens = λ h file. refl;
        closes = λ h file. refl;
        finds = λ h file n kept. refl;
        reads = λ h file n kept. kept;
      })

abbrev at_console : Env
at_console = record calm { answer = λ h r. some "/dev/console" }

main-asks_example : acts (factory_main "-factory" (114 ∷ []) at_console start).1.calls ≡ 0
main-asks_example =
    main-asks "-factory" "/dev/console" (114 ∷ []) at_console start (λ h. refl) refl refl
