-- ===== src/Machine.antt =====
-- The world that the programs act on. A program is a function of its environment and of the calls
-- that were made so far; every call is recorded, and the environment, which is all that the sources
-- do not hold (the kernel, the shell, sysrepo, libyang, jansson), answers it from that history.
mod Types
mod Kernel
mod Stores
pub mod Values
pub mod Streams
pub mod Requests
pub mod Views
pub mod Commands
pub mod Files
pub mod Saved
use infix_lib.Prelude.{ℤ, is_zero, if◌then◌else◌}
unfoldable pub use Types.*
unfoldable pub use Kernel.*
unfoldable pub use Stores.*

infixl 5 ◌>>=◌ ◌>>◌
-- Opening this opens the calls above too.
unfoldable pub ◌>>=◌ : {A B : Type 0} → M A → (A → M B) → M B
unfolding pure get_errno set_errno system fopen fputs fclose fgets fchmod access dir realpath
    fgets_all chomp touch remove rename if_nametoindex fnmatch sr_get_items sr_set_item
    sr_set_item_str sr_val_to_str sr_get_data sr_changes dup_diff json_loadf inet_pton4 inet_pton6
    union_value request request_text request_list spawn getpwnam whichp uname get_time get_uptime
    iso_time strptime mktime sr_xpath_key_value
◌>>=◌ m f e w = let (a, w') = m e w in f a e w'

abbrev pub ◌>>◌ : {A B : Type 0} → M A → M B → M B
m >> k = m >>= λ _. k

-- `err ? : next` of C
abbrev pub else_do : ℤ → M ℤ → M ℤ
else_do err next = if is_zero err then next else pure err
