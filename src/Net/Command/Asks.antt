-- ===== src/Net/Command/Asks.antt =====
-- Looking for the directory of net keeps what is read of the calls, if requests do
-- (src/net/src/main.c, getnet).
use infix_lib.Prelude.{String, true, ◌≡◌}
use infix_lib.Machine.{requested}
use infix_lib.Machine.Values.{Request}
use infix_lib.Machine.Views.{View, Keeps, keep_rules}
use infix_lib.Net.Command.{make_net, getnet}

module _ {X : Type 0} (v : View X) (asks : (r : Request) → v.skips (requested r) ≡ true) where
  Keeps-make_net : (net : String) → Keeps v (make_net net)
  unfolding make_net
  Keeps-make_net net = search (keep_rules, asks)

  pub Keeps-getnet : Keeps v getnet
  unfolding getnet
  Keeps-getnet = search (keep_rules, Keeps-make_net, asks)
