-- ===== src/Lib.antt =====
-- A model of confd, the configuration daemon of Infix (src/confd), with theorems about it.
--
-- confd is a plugin of sysrepo. When the candidate configuration is edited, `ifchange_cand` fills in
-- what the user omitted. When the running configuration changes, sysrepo calls `ifchange` with the
-- event CHANGE, then with DONE or ABORT. CHANGE claims the next generation of the network
-- (`dagger_claim`), and writes a script for each interface of the difference of the two
-- configurations into the directory of that generation; DONE lets the program `dagger` evolve to it,
-- ABORT abandons it.
--
-- Files and code:
--   Prelude             numbers, strings, options and lists that all modules share
--   Text                the formats and string functions of C that the code uses: %d, %02u, strtoll,
--                       strtol, rindex, strlcpy; Text/Equal the equality of texts
--   Machine             the world outside: Machine/Types the calls, their trace and the answers,
--                       Machine/Kernel the calls of the system, Machine/Stores those of sysrepo,
--                       libyang and jansson, Machine/Values the values that cross the border,
--                       Machine/Streams, with Rules and Calls, the open streams of a trace,
--                       Machine/Requests what a request records, Machine/Files the files after a
--                       trace, Machine/Views what an action keeps of a trace, Machine/Commands the
--                       commands of a trace, Machine/Saved what is surely in a file
--   Helpers             src/confd/src/lib/helpers.c; Helpers/Numbers numbers in files, by
--                       Text/Decimal
--   Lyx                 src/confd/src/lib/lyx.c and lyx.h; Lyx/Tree the trees of libyang, Lyx/Build
--                       lydx_new_path, Lyx/Ops and Lyx/Paths the theorems
--   Dagger              src/confd/src/confd/dagger.c and dagger.h; theorems in Dagger/Claim,
--                       Dagger/Files, Dagger/Streams
--   Srx                 src/confd/src/confd/srx_val.c; theorems in Srx/Items
--                       and Srx/Keeps
--   Interfaces          src/confd/src/confd/ietf-interfaces.c: Infer the completion of the candidate,
--                       Addresses, Autoconf and Links the settings of an interface, Iface one
--                       interface of a difference, Change the callback `ifchange`; the theorems
--                       stand in the modules below them
--   System              src/confd/src/confd/ietf-system.c: Clock, Ntp and Dns the handlers that
--                       prepare a file and put it in place, with their common part and theorems in
--                       System/Staged; Changes, Users and Auth the users; Hostname, Datetime and
--                       OsRelease the rest; theorems in the modules Laws below them, in
--                       System/Staged/Runs, in System/Hostname/Augeas (the values that augeas
--                       holds and saves) and Entries, and, of the programs that are started, in
--                       System/Auth/Spawns
--   Systemv             src/confd/src/confd/systemv.c
--   Modules             src/confd/src/lib/srx_module.c, theorems in Modules/Laws
--   Statd               src/confd/src/statd/core.c, theorems in Statd/Laws
--   Klinfix             src/klinfix/src/klinfix.c, theorems in Klinfix/Laws
--   Factory             src/factory/factory.c, theorems in Factory/Laws
--   Dhcp                src/confd/src/confd/infix-dhcp.c, theorems in Dhcp/Laws and, of the
--                       clients that are enabled after a change, in Dhcp/Services
--   Core                src/confd/src/confd/core.c, the hooks around a transaction: the static
--                       variables are passed from call to call; Core/Start the start of the
--                       plugin with the registrations of the parts; theorems in Core/Laws,
--                       Core/Start/Undone and, of the priorities, Core/Start/Hooks
--   Net                 src/net/src/main.c, the program net that activates a generation; Net/Deps the
--                       walk over the dependencies of an interface, Net/Deps/Keeps what it keeps,
--                       Net/Deps/Once, Net/Deps/Order and Net/Deps/Ends its theorems,
--                       Net/Generation the step from one generation to the next, with
--                       Net/Generation/Laws, Net/Command the command line with Net/Command/Laws
--                       and Net/Command/Links (by Net/Command/Asks), Net/Handover the number of
--                       a generation between confd and net
--   Tests               functions at concrete inputs, and the theorems applied to them
--
-- State. A function of C that has effects is a function `Env → World → A × World`. The `World` holds
-- the calls made so far, newest first, and errno. The `Env` answers each call of the operating
-- system, of sysrepo, of libyang and of jansson; an answer may depend on all calls before it, so that
-- the environment has a state of its own. The environment is a parameter of every theorem. A pointer
-- that may be NULL is an Option. A file stream is the path that it was opened at. A format with
-- varargs is the concatenation of its parts, and %s of NULL is "(null)", as in glibc. A node of a
-- libyang tree is the tree below it with its later siblings and the trees above it.
--
-- Bounds. int and long are integers, brought into range where the code assigns a wider value;
-- dagger_claim adds one to a number of at most INT_MAX without a check, as C leaves the overflow
-- undefined. Loops go over lists and end with them.
-- Only `deps` of net recurses without a bound that the data gives: a call costs one unit of fuel,
-- the result without fuel is `none`, and Net/Deps/Ends proves how much fuel is enough.
--
-- Not modelled: memory (allocation never fails, nothing is freed), messages to syslog and to the
-- terminal, lydx_diff_print, the fallbacks for asprintf, and src/profeth, a copy of a sample
-- application of another project.
-- A call that gives back a status, a text or a list of texts and nothing else is a `Request`, which
-- the environment answers; a child process is a list of arguments and its `Outcome`. The shell of
-- new users, LOGIN_SHELL, is an argument. A command of net that err(3) ends has the result `none`.
-- The theorems of System/Staged and Interfaces/Links/Veth read a trace as changes of a store of
-- files, those of Dhcp/Services as changes of the services that initctl was told to run; the former
-- assume of the environment that access(2) tells what is in that store. Those of Helpers/Numbers and
-- Net/Handover read it as what stdio leaves in a file, and assume of the environment that a file
-- with one number on a line, whose stream was closed with success and that nothing touched since,
-- reads as that line. That of System/Hostname reads it as the values of augeas, and of the files
-- that aug_save writes.
-- A call of sysrepo that fails leaves the count of its items at zero. Where C has undefined
-- behaviour, a comment at the definition says what the model does.

mod Prelude
pub mod Lyx
pub mod Text
pub mod Machine
pub mod Helpers
pub mod Dagger
pub mod Srx
pub mod Interfaces
pub mod Dhcp
pub mod Systemv
pub mod System
pub mod Core
pub mod Net
pub mod Statd
pub mod Klinfix
pub mod Factory
pub mod Modules
mod Tests
