-- ===== src/Tests/Fixtures.antt =====
-- An environment in which every call succeeds, and small data trees.
use infix_lib.Prelude.{pos, String, true, false, none, some, List, [], ◌∷◌, inr}
use infix_lib.Lyx.Tree.{Tree, node, Forest, end, tree, Node}
use infix_lib.Machine.{Env, World}
use infix_lib.Machine.Values.{string_val, exited}

abbrev pub start : World
start = record { calls = []; errno = 0 }

-- The current generation is 3, and every text reads as "eth0".
abbrev pub calm : Env
calm = record {
  status = λ h cmd. pos 0;
  open_errno = λ h path mode. none;
  chmod_errno = λ h path. none;
  close_status = λ h path. pos 0;
  line = λ h path. some "3\n";
  is_there = λ h path. true;
  missing_errno = λ h path. 2;
  dir = λ h path. [];
  realpath = λ h path. inr path;
  lines = λ h path size. [];
  chomp = λ text. text;
  remove_status = λ h path. pos 0;
  items = λ h path. record { xpath = path; content = string_val "eth0" } ∷ [];
  items_error = λ h path. none;
  set_item_status = λ h path. pos 0;
  val_to_str = λ v. some "eth0";
  data_status = λ h path. pos 0;
  data_tree = λ h. end;
  changes_status = λ h. pos 0;
  diff_tree = λ h. end;
  dup_status = λ h. pos 0;
  changes = λ h path. [];
  json = λ h path. none;
  if_nametoindex = λ h name. true;
  inet_pton4 = λ text. none;
  inet_pton6 = λ text. none;
  fnmatch = λ pattern text. false;
  union_value = λ leaf. none;
  reply = λ h r. pos 0;
  reply_errno = λ h r. none;
  answer = λ h r. some "infix";
  answers = λ h r. [];
  outcome = λ h args. exited 0;
  getpwnam = λ h user. true;
  whichp = λ h prog. true;
  uname = λ h. none;
  now = λ h. pos 0;
  uptime = λ h. pos 0;
  iso_time = λ h t. "1970-01-01T00:00:00+0000";
  strptime = λ buf fmt. some (pos 0);
  mktime = λ h buf fmt. pos 0;
  key_value = λ xpath node key. "admin";
}

abbrev pub leaf : String → String → Tree
leaf name value =
    node (record { name = some name; value = some value; dflt = false; metas = [] }) end

abbrev pub inner : String → List (String × String) → Forest → Tree
inner name metas below =
    node (record { name = some name; value = none; dflt = false; metas = metas }) below

abbrev pub forest : List Tree → Forest
forest [] = end
forest (t ∷ ts) = tree t (forest ts)

abbrev pub root : Tree → Node
root t = record { this = t; later = end; up = [] }
