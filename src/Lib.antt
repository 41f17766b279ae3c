-- ===== src/Lib.antt =====
-- Models and theorems for the native library of the repository: the C++ files under
-- opg3d/src/main/cpp, which are injected into a Unity (IL2CPP) game on 32-bit ARM Android, hook
-- some of its managed methods, and keep it on one Photon Cloud route.
--
-- Parts, and where their models stand:
-- - Base, State: shared helpers; the process and global variables (`State`), the constants of
--   config.h (`Config`), and what the code calls and does not define (`Platform`, `Env`): the exports
--   of libil2cpp.so, shadowhook, the loader, machine code of the game. Calls of machine code act on
--   the whole state, since a hooked entry leads back into the library; `none` is a fault such as a
--   call through a null pointer, or an access to a static field of PhotonNetwork before that class is
--   initialised (`network_initialized`, `touch_statics`). State/Monad has the sequencing, and the postconditions `Returns`
--   (no fault) and `Ensures` (if no fault).
-- - ElfSym: elf_sym.cpp. `name_matches`, `iterate`, `find`, `lookup`, `find_library`, `find_symbol`
--   have the source's names; the loops of `lookup` are functions of their own. Memory and the list
--   of loaded libraries are an `Image`. The loop over the dynamic entries runs on fuel.
-- - Il2cpp/Resolve, Il2cpp/Metadata: `bind`, `resolve` and the lookups of il2cpp.cpp. The lookups
--   call only functions of the runtime that read, so they are functions of the state.
-- - Text/Utf8, Il2cpp/Strings: `append_utf8` and `to_utf8` of il2cpp.cpp. The loop runs on as much
--   fuel as there are code units, each round taking at least one. Text/Utf8/Reference has the
--   independent description: a UTF-8 decoder and the reading of UTF-16 with replacement.
-- - Text/Fnv: `fnv1a` of photon_hooks.cpp.
-- - Il2cpp/Fields: the template `read_field` of photon_hooks.cpp and cloud_guard.h, as bytes.
-- - Hook: hook.cpp. The pointers `g_...` are named by `Hook`. What shadowhook promises is the record
--   `Patches` of Hook/Laws.
-- - Cloud: cloud_guard.h. `force_cloud` is cut into the consecutive parts `refuse_missing_app_id`,
--   `new_app_id`, `resolve_use_cloud`, `apply_route`, `verify` and `report`; the hooks and
--   `install_hooks` have the source's names.
-- - Photon: photon_hooks.cpp. Photon.antt has the override `hook_select_app_id`, Photon/Names the name
--   tables, Photon/Probes the getters that are called for a log line, Photon/Settings `write_field`
--   and `apply_config_to_settings`, Photon/Hooks the other sixteen hooks, Photon/Install
--   `install_hooks`, Photon/Hooks/Client the game as a client of the traced entries. Function-local
--   statics are fields of `State.photon`. Photon/Observers has what the code relies on where it probes
--   the game: a `View` says which changes of the state the game does not see, and `Probes` are the
--   laws. Photon/Rules and Photon/Wrappers have one rule for each way to build code, which the proofs
--   of the hooks apply by search.
-- - Init: main.cpp. `init_thread` is cut at the point where the domain is there (`run_domain`) and
--   where the thread is attached (`run_attached`); an early return ends its branch. `poll` is the loop
--   that four of the waits share, on the 6000 steps of the source, `settle` the wait for the assembly
--   list. Init/Waits has the laws of the runtime's threads,
--   Init/Load the constructor `on_load` with pthread as a parameter.
-- - Secrets: what the log can tell of credentials. Two builds with different AppIDs run beside each
--   other in processes that differ in the texts of secrets (`Twins` lists what they share), and one rule
--   for each way to build code, applied by search, compares the two runs. Secrets/Sessions compares
--   whole sessions.
-- - Game: the game as a client of all twenty-two hooked entries (`Session`, `play`).
-- - Alive: what the hooks need so that none of them calls through a null pointer (`Sound`), the laws of
--   machine code that keeps it so and initialises PhotonNetwork in SetUpPhoton (`Robust`), one rule for each way to build code, and the same for
--   the start: Init/Exports has the exports that are there once the library hooks anything, and
--   Alive/Start runs the start and then a session.
-- - Log: log.h. `print` on its own state `Logger` gives an `Entry`, and Log/Spelling the line that
--   snprintf spells from its fields; a number has at most the digits of a `uint64_t`. The other models keep their log calls as entries of `State.log`.
-- - Symbolize: tools/symbolize_log.py, which reads the log. Symbolize/Index is `RvaIndex` (its method
--   `resolve` is `resolve_rva`), Symbolize.antt has the two patterns as functions and the body of
--   `symbolize_lines`. Which characters beyond ASCII are letters or spaces is a parameter.
-- - Checks: a small runtime, runs, and the theorems at concrete inputs.
--
-- Integers: pointers and unsigned values are natural numbers with their wrap-around written out,
-- `int32_t` values are integers of Base/Int. Texts are lists of bytes without the terminating zero.
-- Atomics are plain variables: each operation is modelled as it runs without interference.
--
-- Where C++ leaves the order open in which the arguments of a log call are evaluated, it is from left
-- to right here.
--
-- Not modelled: the formatting of a message by vsnprintf and the output of a line (a log call of the
-- other files is an entry of `State.log`; those of hook.cpp leave out the pointers and the texts that shadowhook
-- gives), `JNI_OnLoad` (a constant), the build scripts, and of the Python
-- tool the reading of dump.cs and the command line.
pub mod Base
pub mod Text
pub mod State
pub mod Il2cpp
pub mod Hook
pub mod Cloud
pub mod ElfSym
pub mod Init
pub mod Log
pub mod Symbolize
pub mod Photon
pub mod Game
pub mod Secrets
pub mod Alive
pub mod Checks
