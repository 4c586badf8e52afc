-- ===== src/Lib.antt =====
-- ai-cli-utils: sessions of AI command-line clients in tmux, and what keeps them.
--
-- Reaper (src/ai_cli/stale_session_reaper.py): the fail-closed evaluation of stale sessions. A method
-- of `StaleSessionReaper` is an action of `Reaper.Exec`, which may raise, asks an abstract `Machine`
-- (tmux, the process probe, clocks, locks and files, each answer dependent on all that has happened)
-- and records what it does to it. `Reaper.Checks` has the pure tests, `Reaper.Observe` the snapshots
-- and heartbeats, `Reaper.Evaluate` the methods. Not modelled: the subprocess adapter, the worker loop
-- and `write_heartbeat`.
--
-- NameList (src/ai_cli/name_list.py): `one_edit_apart` and `one_edit_free_subset`, over texts as lists
-- of code points. Downloads, digests and file output are not modelled.
--
-- Sessions: the machine-local registry of sessions and its durable supervisor state. `Sessions.Store`
-- is the registry file and the files of `session-safety`, with `_mutate` of
-- src/ai_cli/session_registry.py, whose write may fail before or after the file is replaced.
-- `Sessions.Launch`, `Sessions.Tracking` and `Sessions.Prune` model that file's records of launches,
-- exits and removals; `Sessions.Transitions` and `Sessions.Marks` model `register`, `begin`, `mark` and
-- `reconcile_safety` of src/ai_cli/session_run_state.py, which change the same registry;
-- `Sessions.Recipe` and `Sessions.Veto` are its tests of a boot recipe and of a relaunch on boot. The
-- lock is taken to exclude other writers, so an operation is one function of the store. Digests of
-- names, `str()`, absolute paths, glob matching and probes of liveness are parameters. Not modelled:
-- positions of iTerm2 panes, adoption, and the reading of configuration.
--
-- Titles (src/ai_cli/session_title.py): which last segment a title gets, and how titles and positional
-- arguments are read, over texts as lists of code points. `str.isdigit`, `int`, which may raise, and the set of names are
-- parameters. The layered settings are not modelled.
--
-- Rows (src/ai_cli/name_registry.py): the rows of the registry of session names, as dictionaries. The
-- function `is_absolute` of POSIX and Windows paths is a parameter, and so are the time and the name of
-- the writer.
--
-- CompactTransport (src/ai_cli/compact_transport.py): the choice between tmux and a pty for a launch.
-- `probe_pty` is a function of what the platform offers and of how its round trip ends, an error of
-- termios that escapes it included; its system calls are not modelled.
--
-- Names: the free names and their reservation. `Names.Pick` and `Names.Number` model
-- `name_candidates`, `pick_name` and `name_number` of src/ai_cli/session_naming.py; the others model
-- src/ai_cli/name_registry.py over the rows above. `Names.Snapshot` has the content of the registry
-- and its changes, `Names.Transact` has `transact` of the git and of the local registry. The
-- operations that write are each a `Build` that a transaction runs: `Names.Reserve` reserves picked
-- names, `Names.ByHand` names chosen by hand and labels, and adds and removes names, `Names.Ledger`
-- records renames, `Names.Release` is `reconcile`, in the part that it plans, the dry run and the
-- end without a transaction, and the part that it writes, with `release_name` and `reassign_name` in `Names.Release.ByName`, and `Names.Spool` takes a
-- spare and publishes its activation. `Names.Segment` is the text behind the last dash, which is the
-- token of a title. Of git only the ref is kept: a tip that counts the commits, and the content. A
-- `Race` says what other writers and the connection do during one attempt, and a list of races as long
-- as the attempts is the bound of the loop. The encoding of rows, messages and reasons are left out.
-- `Surroundings` has what comes from outside: the random choice, `str.lower`, `str` of what is not a
-- text, the lists of words, and the time, which does not pass during one transaction; `Probes` has
-- what the tests before a release ask of the file system, of git and of the stores of the clients, and
-- the ID of a blob is a parameter. Not modelled: the reading of files, the sync of the list of names,
-- and host aliases.
--
-- Value has the Python and JSON values that the program inspects, over an abstract type of numbers.
-- All recursion is structural, so no fuel is used.
pub mod Prelude
pub mod Value
pub mod Reaper
pub mod NameList
pub mod Sessions
pub mod Titles
pub mod Rows
pub mod CompactTransport
pub mod Names
pub mod Tests
