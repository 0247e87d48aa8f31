-- ===== src/Machine/Streams/Calls.antt =====
-- The streams of each single call.
use infix_lib.Prelude.{ℕ, String, Bool, List, ℤ}
use infix_lib.Prelude.{arith}
use infix_lib.Lyx.Tree.{Leaf}
use infix_lib.Machine.Values.{SrData, Request}
use infix_lib.Machine.{
  get_errno, set_errno, system, fopen, fputs, fclose, fgets, fchmod, access, touch, sr_get_items,
  sr_set_item, sr_set_item_str, sr_val_to_str, sr_get_data, sr_changes, dup_diff, json_loadf,
  inet_pton4, inet_pton6, union_value, remove, dir, realpath, fgets_all, chomp, request,
  request_text, request_list, spawn, getpwnam, whichp, uname, get_time, get_uptime, iso_time,
  strptime, mktime, sr_xpath_key_value, rename, if_nametoindex, fnmatch,
}
use infix_lib.Machine.Streams.Rules.{Balanced, Closes, Opens}

module _ (p : String) where
  pub Opens-fopen : (path mode : String) → Opens p (fopen path mode)
  unfolding fopen
  Opens-fopen path mode = record { at = λ e w. ground arith }

  pub Closes-fclose : (fp : String) → Closes p fp (fclose fp)
  unfolding fclose
  Closes-fclose fp = record { at = λ e w. ground arith }

  pub Balanced-system : (cmd : String) → Balanced p (system cmd)
  unfolding system
  Balanced-system cmd = record { at = λ e w. ground arith }

  pub Balanced-fputs : (text fp : String) → Balanced p (fputs text fp)
  unfolding fputs
  Balanced-fputs text fp = record { at = λ e w. ground arith }

  pub Balanced-fgets : (fp : String) → Balanced p (fgets fp)
  unfolding fgets
  Balanced-fgets fp = record { at = λ e w. ground arith }

  pub Balanced-fchmod : (fp : String) (mode : ℕ) → Balanced p (fchmod fp mode)
  unfolding fchmod
  Balanced-fchmod fp mode = record { at = λ e w. ground arith }

  pub Balanced-access : (path : String) → Balanced p (access path)
  unfolding access
  Balanced-access path = record { at = λ e w. ground arith }

  pub Balanced-dir : (path : String) (keep : String → Bool) → Balanced p (dir path keep)
  unfolding dir
  Balanced-dir path keep = record { at = λ e w. ground arith }

  pub Balanced-realpath : (path : String) → Balanced p (realpath path)
  unfolding realpath
  Balanced-realpath path = record { at = λ e w. ground arith }

  pub Balanced-fgets_all : (fp : String) (size : ℕ) → Balanced p (fgets_all fp size)
  unfolding fgets_all
  Balanced-fgets_all fp size = record { at = λ e w. ground arith }

  pub Balanced-chomp : (text : String) → Balanced p (chomp text)
  unfolding chomp
  Balanced-chomp text = record { at = λ e w. ground arith }

  pub Balanced-touch : (path : String) → Balanced p (touch path)
  unfolding touch
  Balanced-touch path = record { at = λ e w. ground arith }

  pub Balanced-remove : (path : String) → Balanced p (remove path)
  unfolding remove
  Balanced-remove path = record { at = λ e w. ground arith }

  pub Balanced-rename : (from to : String) → Balanced p (rename from to)
  unfolding rename
  Balanced-rename from to = record { at = λ e w. ground arith }

  pub Balanced-if_nametoindex : (name : String) → Balanced p (if_nametoindex name)
  unfolding if_nametoindex
  Balanced-if_nametoindex name = record { at = λ e w. ground arith }

  pub Balanced-fnmatch : (pattern text : String) → Balanced p (fnmatch pattern text)
  unfolding fnmatch
  Balanced-fnmatch pattern text = record { at = λ e w. ground arith }

  pub Balanced-get_errno : Balanced p get_errno
  unfolding get_errno
  Balanced-get_errno = record { at = λ e w. ground arith }

  pub Balanced-set_errno : (n : ℕ) → Balanced p (set_errno n)
  unfolding set_errno
  Balanced-set_errno n = record { at = λ e w. ground arith }

  pub Balanced-sr_get_items : (xpath : String) → Balanced p (sr_get_items xpath)
  unfolding sr_get_items
  Balanced-sr_get_items xpath = record { at = λ e w. ground arith }

  pub Balanced-sr_set_item : (xpath : String) (val : SrData) → Balanced p (sr_set_item xpath val)
  unfolding sr_set_item
  Balanced-sr_set_item xpath val = record { at = λ e w. ground arith }

  pub Balanced-sr_set_item_str : (xpath str : String) → Balanced p (sr_set_item_str xpath str)
  unfolding sr_set_item_str
  Balanced-sr_set_item_str xpath str = record { at = λ e w. ground arith }

  pub Balanced-sr_val_to_str : (val : SrData) → Balanced p (sr_val_to_str val)
  unfolding sr_val_to_str
  Balanced-sr_val_to_str val = record { at = λ e w. ground arith }

  pub Balanced-sr_get_data : (xpath : String) → Balanced p (sr_get_data xpath)
  unfolding sr_get_data
  Balanced-sr_get_data xpath = record { at = λ e w. ground arith }

  pub Balanced-sr_changes : (xpath : String) → Balanced p (sr_changes xpath)
  unfolding sr_changes
  Balanced-sr_changes xpath = record { at = λ e w. ground arith }

  pub Balanced-dup_diff : Balanced p dup_diff
  unfolding dup_diff
  Balanced-dup_diff = record { at = λ e w. ground arith }

  pub Balanced-json_loadf : (fp : String) → Balanced p (json_loadf fp)
  unfolding json_loadf
  Balanced-json_loadf fp = record { at = λ e w. ground arith }

  pub Balanced-inet_pton4 : (text : String) → Balanced p (inet_pton4 text)
  unfolding inet_pton4
  Balanced-inet_pton4 text = record { at = λ e w. ground arith }

  pub Balanced-inet_pton6 : (text : String) → Balanced p (inet_pton6 text)
  unfolding inet_pton6
  Balanced-inet_pton6 text = record { at = λ e w. ground arith }

  pub Balanced-union_value : (leaf : Leaf) → Balanced p (union_value leaf)
  unfolding union_value
  Balanced-union_value leaf = record { at = λ e w. ground arith }

  pub Balanced-request : (r : Request) → Balanced p (request r)
  unfolding request
  Balanced-request r = record { at = λ e w. ground arith }

  pub Balanced-request_text : (r : Request) → Balanced p (request_text r)
  unfolding request_text
  Balanced-request_text r = record { at = λ e w. ground arith }

  pub Balanced-request_list : (r : Request) → Balanced p (request_list r)
  unfolding request_list
  Balanced-request_list r = record { at = λ e w. ground arith }

  pub Balanced-spawn : (args : List String) → Balanced p (spawn args)
  unfolding spawn
  Balanced-spawn args = record { at = λ e w. ground arith }

  pub Balanced-getpwnam : (user : String) → Balanced p (getpwnam user)
  unfolding getpwnam
  Balanced-getpwnam user = record { at = λ e w. ground arith }

  pub Balanced-whichp : (prog : String) → Balanced p (whichp prog)
  unfolding whichp
  Balanced-whichp prog = record { at = λ e w. ground arith }

  pub Balanced-uname : Balanced p uname
  unfolding uname
  Balanced-uname = record { at = λ e w. ground arith }

  pub Balanced-get_time : Balanced p get_time
  unfolding get_time
  Balanced-get_time = record { at = λ e w. ground arith }

  pub Balanced-get_uptime : Balanced p get_uptime
  unfolding get_uptime
  Balanced-get_uptime = record { at = λ e w. ground arith }

  pub Balanced-iso_time : (t : ℤ) → Balanced p (iso_time t)
  unfolding iso_time
  Balanced-iso_time t = record { at = λ e w. ground arith }

  pub Balanced-strptime : (buf fmt : String) → Balanced p (strptime buf fmt)
  unfolding strptime
  Balanced-strptime buf fmt = record { at = λ e w. ground arith }

  pub Balanced-mktime : (buf fmt : String) → Balanced p (mktime buf fmt)
  unfolding mktime
  Balanced-mktime buf fmt = record { at = λ e w. ground arith }

  pub Balanced-sr_xpath_key_value :
      (xpath node key : String) → Balanced p (sr_xpath_key_value xpath node key)
  unfolding sr_xpath_key_value
  Balanced-sr_xpath_key_value xpath node key = record { at = λ e w. ground arith }
