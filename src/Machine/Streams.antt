-- ===== src/Machine/Streams.antt =====
-- Which streams are open after a history: the rules by which a program closes what it opens.
mod Rules
mod Calls
pub use Rules.*
pub use Calls.*

pub ruleset stream_rules = (
  Balanced-pure, Balanced-if, Closes-if, Balanced-bind, Closes-bind_first, Closes-bind_then,
  Balanced-open, Opens-fopen, Closes-fclose, Balanced-system, Balanced-fputs, Balanced-fgets,
  Balanced-fchmod, Balanced-access, Balanced-touch, Balanced-remove, Balanced-rename,
  Balanced-if_nametoindex, Balanced-fnmatch, Balanced-get_errno, Balanced-set_errno,
  Balanced-sr_get_items, Balanced-sr_set_item, Balanced-sr_set_item_str, Balanced-sr_val_to_str,
  Balanced-sr_get_data, Balanced-sr_changes, Balanced-dup_diff, Balanced-json_loadf,
  Balanced-inet_pton4, Balanced-inet_pton6, Balanced-union_value, Balanced-dir, Balanced-realpath,
  Balanced-fgets_all, Balanced-chomp, Balanced-request, Balanced-request_text,
  Balanced-request_list, Balanced-spawn, Balanced-getpwnam, Balanced-whichp, Balanced-uname,
  Balanced-get_time, Balanced-get_uptime, Balanced-iso_time, Balanced-strptime, Balanced-mktime,
  Balanced-sr_xpath_key_value,
)
