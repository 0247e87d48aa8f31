-- ===== src/Machine/Kernel.antt =====
-- Calls of the operating system and of libc, each with the entry that it leaves in the history.
use infix_lib.Prelude.{
  ℕ, ℤ, pos, negsuc, String, Bool, true, false, Option, none, some, List, [], ◌∷◌, if◌then◌else◌,
  ◌⊎◌, inl, inr,
}
use infix_lib.Machine.Values.{Request, Outcome, Utsname}
use infix_lib.Machine.Types.{
  ran, opened, refused, wrote, got, closed, removed, touched, tested, chmodded, renamed, asked,
  requested, spawned, Env, World, M, record_call,
}

unfoldable pub pure : {A : Type 0} → A → M A
pure a e w = (a, w)

unfoldable pub get_errno : M ℕ
get_errno e w = (w.errno, w)

unfoldable pub set_errno : ℕ → M (Unit {0})
set_errno n e w = (tt, record w { errno = n })

-- systemf of libite, and system(3)
unfoldable pub system : String → M ℤ
system cmd e w = (e.status w.calls cmd, record_call (ran cmd) w)

-- A stream that was opened, or NULL with errno set.
abbrev pub opening : String → String → Option ℕ → World → Option String × World
opening path mode none w = (some path, record_call (opened path mode) w)
opening path mode (some n) w = (none, record { calls = refused path mode ∷ w.calls; errno = n })

unfoldable pub fopen : String → String → M (Option String)
fopen path mode e w = opening path mode (e.open_errno w.calls path mode) w

unfoldable pub fputs : String → String → M (Unit {0})
fputs text fp e w = (tt, record_call (wrote fp text) w)

unfoldable pub fclose : String → M ℤ
fclose fp e w = (e.close_status w.calls fp, record_call (closed fp) w)

unfoldable pub fgets : String → M (Option String)
fgets fp e w = (e.line w.calls fp, record_call (got fp) w)

abbrev pub changing : Option ℕ → World → ℤ × World
changing none w = (pos 0, w)
changing (some n) w = (negsuc 0, record w { errno = n })

unfoldable pub fchmod : String → ℕ → M ℤ
fchmod fp mode e w = changing (e.chmod_errno w.calls fp) (record_call (chmodded fp mode) w)

abbrev pub testing : Bool → ℕ → World → Bool × World
testing true n w = (true, w)
testing false n w = (false, record w { errno = n })

abbrev pub kept_of : (String → Bool) → List String → List String
kept_of keep [] = []
kept_of keep (x ∷ xs) = let rest = kept_of keep xs in if keep x then x ∷ rest else rest

-- access(2) succeeds
unfoldable pub access : String → M Bool
access path e w =
    testing (e.is_there w.calls path) (e.missing_errno w.calls path) (record_call (tested path) w)

-- dir of libite, less what the filter drops
unfoldable pub dir : String → (String → Bool) → M (List String)
dir path keep e w = (kept_of keep (e.dir w.calls path), record_call (asked path) w)

abbrev pub resolving : ℕ ⊎ String → World → Option String × World
resolving (inl n) w = (none, record w { errno = n })
resolving (inr path) w = (some path, w)

unfoldable pub realpath : String → M (Option String)
realpath path e w = resolving (e.realpath w.calls path) (record_call (asked path) w)

-- A loop of fgets(3) to the end of the stream, for a buffer of that size.
unfoldable pub fgets_all : String → ℕ → M (List String)
fgets_all fp size e w = (e.lines w.calls fp size, record_call (got fp) w)

unfoldable pub chomp : String → M String
chomp text e w = (e.chomp text, w)

unfoldable pub touch : String → M (Unit {0})
touch path e w = (tt, record_call (touched path) w)

unfoldable pub remove : String → M ℤ
remove path e w = (e.remove_status w.calls path, record_call (removed path) w)

unfoldable pub rename : String → String → M (Unit {0})
rename from to e w = (tt, record_call (renamed from to) w)

unfoldable pub if_nametoindex : String → M Bool
if_nametoindex name e w = (e.if_nametoindex w.calls name, record_call (asked name) w)

unfoldable pub fnmatch : String → String → M Bool
fnmatch pattern text e w = (e.fnmatch pattern text, w)

abbrev pub leaving : Option ℕ → World → World
leaving none w = w
leaving (some n) w = record w { errno = n }

abbrev pub requesting : Request → Env → World → World
requesting r e w = leaving (e.reply_errno w.calls r) (record_call (requested r) w)

unfoldable pub request : Request → M ℤ
request r e w = (e.reply w.calls r, requesting r e w)

unfoldable pub request_text : Request → M (Option String)
request_text r e w = (e.answer w.calls r, requesting r e w)

unfoldable pub request_list : Request → M (List String)
request_list r e w = (e.answers w.calls r, requesting r e w)

unfoldable pub spawn : List String → M Outcome
spawn args e w = (e.outcome w.calls args, record_call (spawned args) w)

unfoldable pub getpwnam : String → M Bool
getpwnam user e w = (e.getpwnam w.calls user, record_call (asked user) w)

unfoldable pub whichp : String → M Bool
whichp prog e w = (e.whichp w.calls prog, record_call (tested prog) w)

unfoldable pub uname : M (Option Utsname)
uname e w = (e.uname w.calls, w)

unfoldable pub get_time : M ℤ
get_time e w = (e.now w.calls, w)

unfoldable pub get_uptime : M ℤ
get_uptime e w = (e.uptime w.calls, w)

unfoldable pub iso_time : ℤ → M String
iso_time t e w = (e.iso_time w.calls t, w)

unfoldable pub strptime : String → String → M (Option ℤ)
strptime buf fmt e w = (e.strptime buf fmt, w)

unfoldable pub mktime : String → String → M ℤ
mktime buf fmt e w = (e.mktime w.calls buf fmt, w)

unfoldable pub sr_xpath_key_value : String → String → String → M String
sr_xpath_key_value xpath node key e w = (e.key_value xpath node key, w)
