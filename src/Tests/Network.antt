-- ===== src/Tests/Network.antt =====
-- The program net at a generation of a bridge with one port.
use infix_lib.Prelude.{◌<◌, ◌≢◌}
use infix_lib.Prelude.{
  ℕ, ◌≡◌, refl, sym, ap, ◌∙◌, pos, String, ◌<>◌, ◌==◌, Bool, true, false, some, List, [], ◌∷◌,
  contains, if◌then◌else◌, inr, arith, eq_iff, is_some,
}
use mathlib.Core.Path.{transport}
use infix_lib.Net.Generation.{activate_next, finish_next, rdeps_command}
use infix_lib.Net.Generation.Laws.{activate_next-ends, finish_next_lem, number_saved}
use infix_lib.Machine.{removed, ran}
use infix_lib.Machine.{Env, History, kept_of}
use infix_lib.Net.{Net, findif, dir_filter}
use infix_lib.Text.{concat, strlcpy}
use infix_lib.Machine.Streams.{one_if}
use infix_lib.Net.Deps.{deps}
use infix_lib.Net.Deps.Once.{deps-distinct, distinct, Fits}
use infix_lib.Net.Deps.Order.{deps-ordered, ordered, iface_dir}
use infix_lib.Net.Deps.Ends.{deps-ends, Acyclic}
use infix_lib.Tests.Fixtures.{start, calm}
use infix_lib.Tests.Running.{text_run, net_run, net_deps_run, net_generation_run}

abbrev no_net : Net
no_net = record {
  iface_list = [];
  dep = 0;
  ip = some "ip -batch -";
  bridge = some "bridge -batch -";
}

abbrev ports : String → List String
ports path = if path == "/run/net/4/br0/deps" then "eth0" ∷ [] else []

abbrev link : String → String
link path = if path == "/run/net/4/br0/deps/eth0" then "/run/net/4/eth0" else "/run/net/4/init.ip"

abbrev bridged : Env
bridged = record calm { dir = λ h path. ports path; realpath = λ h path. inr (link path) }

abbrev after : Net
after = record no_net { iface_list = "eth0" ∷ "br0" ∷ []; dep = 2 }

port_first : (deps 2 "init.ip" "br0" "/run/net/4/br0" no_net bridged start).0 ≡ some (pos 0, after)
unfolding text_run net_run net_deps_run
port_first = refl

Fits-ports :
    (b : Bool) (name : String) → contains name (if b then "eth0" ∷ [] else []) ≡ true → Fits name
unfolding strlcpy
Fits-ports true name c =
    let same : "eth0" ≡ name = (eq_iff "eth0" name).0 (ground (arith, c)) in
    transport (ap Fits same) refl
Fits-ports false name c = ground arith

ports_fit : (h : History) (path name : String) → contains name (ports path) ≡ true → Fits name
ports_fit h path name c = Fits-ports (path == "/run/net/4/br0/deps") name c

short : Fits "br0"
unfolding strlcpy
short = refl

deps-distinct_example : (findif "br0" after ≡ true) × (distinct after.iface_list ≡ true)
deps-distinct_example =
    deps-distinct bridged ports_fit 2 "init.ip" "br0" "/run/net/4/br0" no_net (pos 0) after start
      short refl port_first

-- What an interface depends on.
abbrev parts : String → List String
parts n = kept_of dir_filter (ports (iface_dir "/run/net/4" n <> "/deps"))

linked_at :
    (b : Bool) (path k : String)
    → path == "/run/net/4/br0/deps" ≡ b
    → contains k (kept_of dir_filter (if b then "eth0" ∷ [] else [])) ≡ true
    → link (concat (path ∷ "/" ∷ k ∷ [])) ≡ iface_dir "/run/net/4" k
unfolding net_run text_run
linked_at true path k p c =
    let same : "eth0" ≡ k = (eq_iff "eth0" k).0 (ground (arith, c)) in
    let at : path ≡ "/run/net/4/br0/deps" = (eq_iff path "/run/net/4/br0/deps").0 p in
    ap (λ q. link (concat (q ∷ "/" ∷ k ∷ []))) at
    ∙ ap (λ j. link (concat ("/run/net/4/br0/deps" ∷ "/" ∷ j ∷ []))) (sym same)
    ∙ ap (iface_dir "/run/net/4") same
linked_at false path k p c = ground (arith, c)

parts_fit :
    (b : Bool) (k : String)
    → contains k (kept_of dir_filter (if b then "eth0" ∷ [] else [])) ≡ true
    → Fits k
unfolding net_run text_run strlcpy
parts_fit true k c =
    let same : "eth0" ≡ k = (eq_iff "eth0" k).0 (ground (arith, c)) in transport (ap Fits same) refl
parts_fit false k c = ground (arith, c)

deps-ordered_example : (findif "br0" after ≡ true) × (ordered parts [] after.iface_list ≡ true)
deps-ordered_example =
    deps-ordered parts bridged "/run/net/4" (λ h n. refl)
      (λ h n k c. ap inr (
        linked_at (iface_dir "/run/net/4" n <> "/deps" == "/run/net/4/br0/deps")
          (iface_dir "/run/net/4" n <> "/deps") k refl c))
      (λ n k c. parts_fit (iface_dir "/run/net/4" n <> "/deps" == "/run/net/4/br0/deps") k c) 2
      "init.ip" "br0" no_net (pos 0) after start short refl port_first

-- The bridge depends on its port.
port_of_bridge : parts "br0" ≡ "eth0" ∷ []
unfolding net_run text_run
port_of_bridge = refl

abbrev rank : String → ℕ
rank ipath = if ipath <> "/deps" == "/run/net/4/br0/deps" then 1 else 0

low : (b : Bool) → rank (if b then "/run/net/4/eth0" else "/run/net/4/init.ip") ≡ 0
low true = refl
low false = refl

high :
    (b : Bool) (name : String) → contains name (if b then "eth0" ∷ [] else []) ≡ true → one_if b ≡ 1
high true name c = refl
high false name c = ground arith

falls : Acyclic bridged rank
falls h₁ h₂ ipath name rp c r =
    let path = concat ((ipath <> "/deps") ∷ "/" ∷ name ∷ []) in
    let target : link path ≡ rp = ground (arith, r) in
    let zero_rank : rank rp ≡ 0 = sym (ap rank target) ∙ low (path == "/run/net/4/br0/deps/eth0") in
    let one_rank : rank ipath ≡ 1 = high (ipath <> "/deps" == "/run/net/4/br0/deps") name c in
    omega (arith, zero_rank, one_rank)

deps-ends_example : is_some (deps 2 "init.ip" "br0" "/run/net/4/br0" no_net bridged start).0 ≡ true
deps-ends_example =
    deps-ends bridged rank falls 2 "init.ip" "br0" "/run/net/4/br0" no_net start (ground arith)

small : (b : Bool) → (if b then 1 else 0) < 2
small true = ground arith
small false = ground arith

activate_next-ends_example : is_some (activate_next 2 "/run/net" no_net bridged start).0 ≡ true
activate_next-ends_example =
    activate_next-ends bridged rank falls 2
      (λ path. small (path <> "/deps" == "/run/net/4/br0/deps")) "/run/net" no_net start

finish_next_lem_example :
    let r = finish_next "/run/net" "4" (pos 0, after) calm start in
    let h = ran (rdeps_command "/run/net" "4") ∷ [] in
    (pos 0 ≢ pos 0 → r ≡ (pos 1, start))
    × (r.0 ≡ pos 0
        → (pos 0 ≡ pos 0)
          × (calm.status [] (rdeps_command "/run/net" "4") ≡ pos 0)
          × (r.1.calls ≡ removed "/run/net/next" ∷ number_saved "/run/net/gen" "4" h)
          × (calm.remove_status (number_saved "/run/net/gen" "4" h) "/run/net/next" ≡ pos 0))
finish_next_lem_example = finish_next_lem "/run/net" "4" (pos 0) after calm start

committed : (finish_next "/run/net" "4" (pos 0, after) calm start).0 ≡ pos 0
unfolding text_run net_run net_generation_run
committed = refl
