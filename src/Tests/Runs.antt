-- ===== src/Tests/Runs.antt =====
-- Sequences of the events of transactions.
use infix_lib.Prelude.{refl, String, ◌==◌, none, some, [], ◌∷◌, is_some, if◌then◌else◌}
use infix_lib.Machine.{Env, World}
use infix_lib.Machine.Values.{change, done, abort}
use infix_lib.Machine.Files.{Store, after}
use infix_lib.System.Staged.Laws.{slot}
use infix_lib.System.Staged.Runs.{
  idle, Run, begin, accept, commit, roll_back, IsCurrent, transactions-IsCurrent,
}
use infix_lib.System.Clock.{change_clock, timezone_conf}
use infix_lib.System.Ntp.{chrony_conf, change_ntp}
use infix_lib.System.Dns.{resolv_conf, change_dns}
use infix_lib.Tests.Fixtures.{start, calm}
use infix_lib.Tests.Running.{srx_run, text_run, ntp_run, dns_run}

-- Both files are in place.
abbrev installed : Store
installed path =
    if path == chrony_conf
    then some "server a\n"
    else if path == resolv_conf
    then some "nameserver b\n"
    else none

-- There are no servers.
abbrev settled : Env
settled = record calm {
  is_there = λ h path. is_some (after installed h path);
  items = λ h path. [];
}

abbrev settings : String
settings =
    "driftfile /var/lib/chrony/drift\nmakestep 1.0 3\nmaxupdateskew 100.0\ndumpdir /var/lib/chrony\nrtcfile /var/lib/chrony/rtc\n"

abbrev ntp_changed : World
ntp_changed = (change_ntp change settled start).1

abbrev dns_changed : World
dns_changed = (change_dns change settled start).1

ntp_run_of_events :
    Run settled installed chrony_conf change_ntp start idle
      (change_ntp done settled ntp_changed).1
      (settings ∷ [])
unfolding srx_run text_run ntp_run
ntp_run_of_events = commit (accept begin refl)

dns_run_of_events :
    Run settled installed resolv_conf change_dns start idle
      (change_dns abort settled dns_changed).1
      []
unfolding srx_run text_run dns_run
dns_run_of_events = roll_back (accept begin refl)

-- The clock is left alone.
clock_run_of_events : Run settled installed timezone_conf change_clock start idle start []
clock_run_of_events = begin

transactions-IsCurrent_example :
    IsCurrent (slot timezone_conf installed) (slot timezone_conf installed) idle []
    × IsCurrent
        (slot chrony_conf installed)
        (slot chrony_conf (after installed (change_ntp done settled ntp_changed).1.calls))
        idle
        (settings ∷ [])
    × IsCurrent
        (slot resolv_conf installed)
        (slot resolv_conf (after installed (change_dns abort settled dns_changed).1.calls))
        idle
        []
transactions-IsCurrent_example =
    transactions-IsCurrent settled installed start (λ h path. refl) (λ h path mode. refl)
      (λ h fp. refl) (refl, refl, refl) idle idle idle start (change_ntp done settled ntp_changed).1
      (change_dns abort settled dns_changed).1 [] (settings ∷ []) [] clock_run_of_events
      ntp_run_of_events dns_run_of_events
