-- ===== src/Lib.antt =====
-- A verification library for tx-ide, a terminal workspace that runs coding agents in tmux. Most of it
-- is about tx-core, the library crate that owns the agents: their records on disk, the tmux sessions
-- they run in, the engines that start them, and the log of what happened. The rest is about what
-- stands on it: the session editor of tx-client, the home screen, and the artifacts and timeline
-- plugins.
--
-- How the parts interact. `TxCore` (tx-core/src/core.rs) offers the operations: create, fork,
-- respawn, rename, plugin data, hooks, tags, refresh, interrupt, stop, messages. Each takes locks,
-- reads records from the store (tx-core/src/store.rs), asks tmux what is alive, has an engine adapter
-- (tx-core/src/engine.rs) plan or judge, saves a record and emits events (tx-core/src/events.rs).
--
-- The editor (tx-client/src/editor.rs) decodes the bytes of the terminal into keys, a form handles
-- them, and a frame is painted. The home screen (plugins/home/src/model.rs) lists the agents and
-- views that it is given, handles keys, and leaves with an action on the line of the choice file.
-- The artifacts plugin diffs lines (plugins/artifacts/src/difflib.rs), keeps records with a history
-- (artifact.rs) and resolves the group of a session, a view and an artifact (grouping.rs); the
-- timeline (plugins/timeline/src/model.rs) has its own copy of the resolution for sessions.
--
-- Files and the code they model:
--   Prelude, Prelude/*     lists, Boolean tests and texts (UTF-8 bytes) that all parts share
--   Json                   the JSON values that records carry
--   Agent, Agent/Names     tx-core/src/agent.rs and state.rs: `Agent`, ids, the grammar of names
--   Result                 tx-core/src/error.rs and the error types that it wraps
--   Store, Store/*         `AgentStore`: `load`, `put` (the rename of `save`), `delete`, `all`, `skipped`
--   Messaging, /Envelope   tx-core/src/messaging.rs: `build_envelope`
--   Engine, Engine/*       tx-core/src/engine.rs: the adapter interface, `EngineRegistry`, `resolve_in`
--   Events, Events/*       event types and `encode`, and the JSON string of a message
--   Tmux, Tmux/Typing      tx-core/src/tmux.rs: `LiveTable::parse`, `literal_chunks`,
--                          `escape_trailing_semicolon`
--   Core/World             the state of an operation, the interface to the outside, `save`, `get_agent`
--   Core/Read              `list_agents`, `conversation`, `resolve`, `running_names`, `name_holder`
--   Core/Archive           `deliver`, `wait_for_exit`, `wait_or_kill`, `archive_conversation`, `mark_exited`
--   Core/Change            `rename_agent`, `update_ext`, `hook`, `set_agent_tags`
--   Core/Stop              `refresh_agent`, `refresh_all`, `interrupt_agent`, `stop_agent`
--   Core/Message           `send_message`, `get_execution_location`
--   Core/Env               `merge_env`, `validate_env`, the servers' variables, `session_vanished`, and the
--                          free name of `create_unique` (tx-core/src/worktree.rs)
--   Core/Launch            `create_agent`, `fork_agent`, `respawn_agent`, `start_locked`
--   Core/Evolve, /*        the abstract store: the steps by which records may change
--   Core/Refine, /*        the rules and proofs by which each operation refines those steps
--   Core/Outcome, /*       the rules and proofs of what an operation that succeeds has done
--   Core/Run, /*           runs of the operations, and the results about them
--   Plugins, Plugins/*     tx-core/src/plugin.rs: `Registry`, `load`, `preview_verbs`, `TxCore::plug`
--   Roles, Roles/*         tx-core/src/profile.rs: `Profiles::resolve`, `split_frontmatter`, `skills_in`
--   Client/Chars           tx-client/src/editor.rs: `char_width`, `text_width`, `is_printable`
--   Client/Form, /*        `Form`, `Form::new`, `handle`, `handle_normal`, `clamp_to_text`
--   Client/Decoder, /*     `Decoder`: `decode`, `csi`, `next`
--   Client/Paint, /Cursor  `Form::render` into a `Frame`
--   Home, Home/Rows        plugins/home/src/model.rs: the data, and `rows` with what it asks
--   Home/Keys              `key` and all that it calls, `replace_context`, `select_session`, `accept`
--   Home/Footer            `footer`, `notify`, `expire_notice`, `set_themed`, `new_popup`, `loading`
--   Home/Choice            `Action::encode`, `Action::decode`
--   Home/Nearest, /Cursor, /Calm, /Stopping, /Codec
--                          the proofs about the cursor, the question before a stop, the choice file
--   Artifacts/Diff, /*     plugins/artifacts/src/difflib.rs: `SequenceMatcher`, `unified_diff`
--   Artifacts/Lines        `splitlines_keepends`
--   Artifacts/Record, /*   plugins/artifacts/src/artifact.rs: `Artifact`, `record_touch`
--   Artifacts/Grouping, /* plugins/artifacts/src/grouping.rs: `GroupResolver`
--   Timeline, /*           plugins/timeline/src/model.rs: `session_group`
--   Tests, Tests/*         a sample world, and the results at concrete inputs
--
-- State. A `World` is the directory of records, the state `T` of everything outside, and the events
-- emitted so far. An operation maps a world to a result and a world, also when it fails, so that what a
-- failed operation has done stays done. `Outside` has one function for each call that leaves the core
-- (clock, ids, locks, file system, tmux, processes, git, definition files); nothing is assumed of them
-- but what a theorem names. A write of a record has the four outcomes that the code can see.
--
-- Interleaving. The locks are held from the read of a record to its write, so that other processes
-- appear in a run as further operations, and whatever else happens outside as a change of `T`. The ids
-- of new agents are random; a run assumes of each operation that mints one only that this id is not
-- the id of a record in the directory that the operation finds (`MintsNew` in Core/Run). `minting` and
-- `fork_minting` in Core/Refine/Mints follow an operation up to that id, and Core/Run/Minted ties them
-- to the id that it returns.
--
-- Bounds and fuel. `wait_for_exit` loops on fuel, two rounds more than the timeout holds polls, which
-- is enough on a clock that is past every sleep. `free_name` tries the 99 candidates of the source.
-- Times are natural numbers: milliseconds in a wait, and otherwise only stamped and compared.
-- `matching_blocks` loops on twice the number of the old lines and one, since each round takes lines
-- off a range or the range itself; the walk up the parents of a session loops on two more than the
-- number of sessions, since each round visits another one.
--
-- Panics. In the form and in `record_touch` the result `none` is a panic of the source: an index out
-- of a text, an empty history. The painting of a form is total: it takes no characters where the
-- source would panic on a cursor or a scroll past the end of a text.
--
-- Texts. A text is a list of numbers: UTF-8 bytes in tx-core, and code points in the editor, the home
-- screen, the diff and the artifacts. The lowercase of a text, by which the home screen searches, is a
-- parameter, and nothing is assumed of it.
--
-- Not modelled: the JSON codec of a record (a record file stands for what decoding it gives), file
-- locks, the tmux binary, git, appending to the log and calling sinks, the definition files and what
-- a launch asks of the roles (parameters of a launch; the roles' resolution is modelled on its own),
-- the configuration file, the command line, the terminal and the session tree of the client, the
-- engines' own adapters, the drawing of the home screen, the store and service of artifacts, the
-- turns of the timeline, and the other plugins.
pub mod Prelude
pub mod Json
pub mod Agent
pub mod Artifacts
pub mod Client
pub mod Home
pub mod Result
pub mod Roles
pub mod Store
pub mod Messaging
pub mod Engine
pub mod Events
pub mod Core
pub mod Plugins
pub mod Tmux
pub mod Tests
pub mod Timeline
