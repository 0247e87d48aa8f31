-- ===== src/Tests/Names.antt =====
-- A change of the name of the host.
use infix_lib.Prelude.{◌≡◌, refl, String, ◌==◌, none, some, List, [], ◌∷◌, if◌then◌else◌}
use infix_lib.Machine.{Env}
use infix_lib.Machine.Values.{aug_get, done}
use infix_lib.Srx.{sr_err_ok}
use infix_lib.System.Hostname.{change_hostname, hostname_path}
use infix_lib.System.Hostname.Augeas.{Values, augeas, on_disk, Answers}
use infix_lib.System.Hostname.Laws.{change_hostname-renames}
use infix_lib.Tests.Fixtures.{start, calm}
use infix_lib.Tests.Running.{srx_run, text_run}

abbrev second_host : String
second_host = "etc/hosts/2/canonical"

-- One entry has the name of the host, the other has another one.
abbrev names : Values
names path =
    if path == hostname_path
    then some "old"
    else if path == "etc/hosts/1/canonical"
    then some "localhost"
    else if path == second_host
    then some "old"
    else none

abbrev entries : List String
entries = "etc/hosts/1/canonical" ∷ second_host ∷ []

abbrev with_names : Env
with_names = record calm {
  answer = λ h r. elim r [ aug_get path ↦ augeas names h path | _ ↦ none ];
  answers = λ h r. entries;
}

names_answered : Answers with_names names entries
names_answered = record {
  gets = λ h p. refl;
  replies = λ h r. refl;
  matches = λ h. refl;
  runs = λ h cmd. refl;
}

-- Every text reads as "eth0".
change_hostname-renames_example :
    let r = change_hostname "/system/hostname" done with_names start in
    (r.0 ≡ sr_err_ok) × (on_disk names r.1.calls second_host ≡ some "eth0")
unfolding srx_run text_run
change_hostname-renames_example =
    change_hostname-renames with_names names entries names_answered "/system/hostname" "old"
      second_host start refl
