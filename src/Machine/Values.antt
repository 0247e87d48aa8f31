-- ===== src/Machine/Values.antt =====
-- The values that cross the border of the program: sysrepo's `sr_val_t`, the parsed JSON of
-- jansson, and the events and operations of sysrepo's callbacks.
use infix_lib.Prelude.{ℕ, ℤ, String, Bool, List, Option, none, some, if◌then◌else◌, ◌==◌}

-- The member of `data` that `type` selects.
pub data SrData : Type 0 where
  string_val enum_val : String → SrData
  bool_val : Bool → SrData
  int8_val int16_val int32_val int64_val : ℤ → SrData
  uint8_val uint16_val uint32_val uint64_val : ℕ → SrData
  other_val : SrData

pub record SrVal : Type 0 where
  pub xpath : String
  pub content : SrData

pub data SrType : Type 0 where
  unknown_t string_t enum_t bool_t int8_t uint8_t int16_t uint16_t int32_t uint32_t int64_t : SrType
  uint64_t other_t : SrType

abbrev pub type_of : SrData → SrType
type_of (string_val s) = string_t
type_of (enum_val s) = enum_t
type_of (bool_val b) = bool_t
type_of (int8_val n) = int8_t
type_of (int16_val n) = int16_t
type_of (int32_val n) = int32_t
type_of (int64_val n) = int64_t
type_of (uint8_val n) = uint8_t
type_of (uint16_val n) = uint16_t
type_of (uint32_val n) = uint32_t
type_of (uint64_val n) = uint64_t
type_of other_val = other_t

-- sysrepo's `sr_event_t` and `sr_change_oper_t`
pub data Event : Type 0 where
  update change done abort enabled rpc : Event

pub data ChangeOp : Type 0 where
  created modified deleted moved : ChangeOp

pub record Change : Type 0 where
  pub op : ChangeOp
  pub old : Option SrVal
  pub new : Option SrVal

-- How a child process ended: not started, exited with a status, or killed by a signal.
pub data Outcome : Type 0 where
  not_run signaled : Outcome
  exited : ℕ → Outcome

pub record Utsname : Type 0 where
  pub sysname : String
  pub release : String
  pub machine : String

-- sysrepo's `sr_datastore_t`
pub data Datastore : Type 0 where
  startup running candidate operational factory_default : Datastore

-- The flags of a subscription to changes.
pub data Flags : Type 0 where
  default_flags passive update_flags : Flags

-- Calls that return a status, a text or a list of texts: augeas (aug_*), libyang (lyd_new_path,
-- with whether it is the first node of its tree), sysrepo, klish, and the rest of the system.
pub data Request : Type 0 where
  aug_load aug_save : Request
  aug_set : String → String → Request
  aug_get aug_match : String → Request
  lyd_new_path : Bool → String → String → Request
  install_module : String → String → List String → Request
  enable_feature : String → String → Request
  connect disconnect : Request
  session_start : Datastore → Request
  copy_config : Datastore → Request
  oper_get_subscribe : String → Request
  sethostname : String → Request
  settimeofday : ℤ → Request
  setenv : String → String → Request
  unsetenv getenv : String → Request
  access_x makedir mknod : String → Request
  ttyname getchar tcgetattr : Request
  aug_init get_connection acquire_context unsubscribe : Request
  aug_load_file rpc_subscribe : String → Request
  change_subscribe : Datastore → String → String → String → ℕ → Flags → Request
  tcsetattr : Bool → Request
  kplugin_add_syms : String → Request

mutual
  pub data Json : Type 0 where
    null : Json
    string : String → Json
    integer : ℤ → Json
    array : Items → Json
    object : Members → Json

  pub data Items : Type 0 where
    nil : Items
    cons : Json → Items → Items

  pub data Members : Type 0 where
    empty : Members
    member : String → Json → Members → Members

-- `json_object_get`, NULL for what is no object or lacks the key.
abbrev pub get_member : String → Members → Option Json
get_member key empty = none
get_member key (member k v ms) = if k == key then some v else get_member key ms

abbrev pub json_object_get : Json → String → Option Json
json_object_get (object ms) key = get_member key ms
json_object_get _ key = none
