-- ===== src/Machine/Types.antt =====
-- The calls of a program, the environment that answers them, and the state between two calls.
use infix_lib.Prelude.{ℕ, ℤ, String, Bool, Option, List, ◌∷◌, ◌⊎◌}
use infix_lib.Lyx.Tree.{Forest, Leaf}
use infix_lib.Machine.Values.{SrVal, SrData, Change, Json, Request, Outcome, Utsname}

-- A call that was made. A stream is named by the path that it was opened on, a pipe by its command.
pub data Call : Type 0 where
  ran : String → Call
  opened refused : String → String → Call
  wrote : String → String → Call
  got closed removed touched tested : String → Call
  chmodded : String → ℕ → Call
  renamed : String → String → Call
  set_item : String → SrData → Call
  set_str : String → String → Call
  asked : String → Call
  requested : Request → Call
  spawned : List String → Call

abbrev pub History : Type 0
History = List Call

-- The answers of the environment, each a function of the history before the call. `none` as an
-- errno stands for success.
pub record Env : Type 0 where
  -- system(3): the exit status
  pub status : History → String → ℤ
  -- fopen(3) and popen(3), with a mode
  pub open_errno : History → String → String → Option ℕ
  pub chmod_errno : History → String → Option ℕ
  pub close_status : History → String → ℤ
  -- fgets(3): the next line, or NULL
  pub line : History → String → Option String
  -- access(2) with F_OK: the file is there
  pub is_there : History → String → Bool
  pub missing_errno : History → String → ℕ
  -- the entries of a directory: none if it cannot be read
  pub dir : History → String → List String
  -- realpath(3): the path, or the errno
  pub realpath : History → String → ℕ ⊎ String
  -- what fgets(3) with a buffer of that size gives in turn until NULL
  pub lines : History → String → ℕ → List String
  -- chomp of libite, which removes the end of the line
  pub chomp : String → String
  pub remove_status : History → String → ℤ
  -- sr_get_items: the values, or the error and the errno it leaves
  pub items : History → String → List SrVal
  pub items_error : History → String → Option (ℤ × ℕ)
  pub set_item_status : History → String → ℤ
  -- sr_val_to_str; NULL if out of memory
  pub val_to_str : SrData → Option String
  -- sr_get_data, sr_dup_changes_iter and lyd_dup_siblings
  pub data_status : History → String → ℤ
  pub data_tree : History → Forest
  pub changes_status : History → ℤ
  pub diff_tree : History → Forest
  pub dup_status : History → ℤ
  pub changes : History → String → List Change
  -- json_loadf of what a pipe prints
  pub json : History → String → Option Json
  pub if_nametoindex : History → String → Bool
  -- inet_pton: the address as a number in host order
  pub inet_pton4 : String → Option ℕ
  pub inet_pton6 : String → Option ℕ
  -- fnmatch(3) with FNM_EXTMATCH: the pattern, then the text
  pub fnmatch : String → String → Bool
  -- the number of a leaf whose type is a union: its uint8 value, or that of its enum item
  pub union_value : Leaf → Option ℕ
  -- what a request returns, and the errno that it leaves, if it sets one
  pub reply : History → Request → ℤ
  pub reply_errno : History → Request → Option ℕ
  -- the text that a request returns, or NULL, and the list of texts
  pub answer : History → Request → Option String
  pub answers : History → Request → List String
  -- the child of fork(2), execvp(3) with these arguments, waitpid(2)
  pub outcome : History → List String → Outcome
  pub getpwnam : History → String → Bool
  pub whichp : History → String → Bool
  pub uname : History → Option Utsname
  -- time(2) and the uptime of sysinfo(2), in seconds
  pub now : History → ℤ
  pub uptime : History → ℤ
  -- strftime of the local time, for the format "%FT%T%z"
  pub iso_time : History → ℤ → String
  -- strptime: the tm_gmtoff of what it reads, if it can; and mktime of what it read
  pub strptime : String → String → Option ℤ
  pub mktime : History → String → String → ℤ
  -- sr_xpath_key_value: the value of a key in an xpath
  pub key_value : String → String → String → String

pub record World : Type 0 where
  pub calls : History
  pub errno : ℕ

-- Actions of a program. The latest call stands first in the history.
abbrev pub M : Type 0 → Type 0
M A = Env → World → A × World

abbrev pub record_call : Call → World → World
record_call c w = record w { calls = c ∷ w.calls }
