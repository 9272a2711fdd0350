-- ===== src/Lib.antt =====
-- The live mode of the design skill: a browser overlay, a helper server and agents that work on
-- one session at a time. All the code is under .opencode/skills/impeccable/scripts; the paths below
-- are relative to it.
--
-- The parts and how they interact. The browser posts messages to the server, which validates them
-- (live/event-validation.mjs), appends them to the journal of their session
-- (live/session-store.mjs) and puts those that an agent must see in a queue (live-server.mjs).
-- Agents poll for the entry of the highest priority (live/poll-lanes.mjs), hold a lease on it and
-- reply; the reply takes the entry out of the queue. The helper commands of the agents are other
-- processes that append to the same journals.
--
-- Vocabulary: live/vocabulary.mjs. An event type is a constructor, or `other` with its text.
-- Session: the data of live/session-store.mjs. Session.Handlers and Session.Apply are the cases of
--   applyEvent, one function for each; `dispatch` is the switch and `apply_event` the whole.
--   Session.Journal is rebuildSnapshotFromJournal and normalizeEvent.
-- Session.Store: createLiveSessionStore for one session id. `Slot` is what the store has of it: the
--   journal in both roots, the snapshot file and the entry of the map `derived`. appendEvent is
--   `append_event`, in two parts between which other processes may write (`prepare_append`,
--   `finish_append`); getSnapshot is `get_snapshot`, and so on. Session.Store.Processes has several
--   processes, each with a map of its own, on the same files.
-- Validation: validateEvent on JSON values. A `Verdict` is the message that is returned, `accepted`
--   for null, or `throws` for a TypeError. canCreateInsert is from live/insert-ui.mjs, and
--   safeSessionId, in Session.Store, from lib/impeccable-paths.mjs.
-- Queue: live/poll-lanes.mjs. Queue.Server is the queue with the parked polls of live-server.mjs,
--   and Queue.Replies inferSourceEventType. Queue.Posts is handlePollPost, the reply of an agent on
--   the queue and on the store together: its data and the metadata of a reply's file in Queue.Posts,
--   the handler in Queue.Posts.Handler, and Services is what it asks of the other modules.
--   Queue.Events is the handler of POST /events, a message of the browser, from the token and
--   validateEvent over the gate of the store to the journal, the checkpoints and the queue.
--   Queue.Phases is what both handlers share: the server with the store, recordAgentPhase, and the
--   phases that leaseEvent journals for each event that a flush hands out, before its first await.
-- Generation: what live-server.mjs makes of a checkpoint of a generation: the `done` that it sends
--   again (detectMissedGenerationCompletion) and the phases that it records
--   (recordGenerationCheckpoint), both on a snapshot of the store.
-- Locking: live/source-lock.mjs. A call of withSourceLockSync goes through the phases of `Phase`;
--   `Step` and `Sweep` are what the calls do to the lock file, `Run` any interleaving of that.
--   Locking.Waiting is the loop that waits for a lock.
-- Edits: live/manual-edits-buffer.mjs. The buffer file is a `BufferFile`, and a write returns the new
--   one.
-- Browser: live-browser-session.js, the state that a tab keeps in the storage of its browser. An
--   `Access` says at each call whether the storage works. A session is stored as the value that its
--   text parses to: `to_json` is what JSON.stringify and JSON.parse make of a value.
-- Completion: live/completion.mjs and completeAcceptHandling of live-poll.mjs, which posts its reply to
--   the handler of Queue.Posts.Handler.
-- Injection: live/frameworks/journal.mjs. A `Project` is the files and the journal, a `Platform` what
--   the code asks of node's path module and of the undoers of the frameworks.
-- Roll: lib/roll-selection.mjs. Roll.Compositions is selectApprovedCompositions and Roll.Challengers
--   selectApprovedChallengers; a generator that is resumed with digests is a function of a `Runtime`.
-- Shared: Boolean tests, lists, sorting, JSON values and text. Examples: concrete runs.
--
-- Numbers are natural numbers; where the code tells other JavaScript numbers apart there is `Num`.
-- A field that may be null or absent is an Option. `Date` is the parameter `Clock`, and the length
-- of a line of the journal in bytes the parameter `bytes`, which is positive. Two loops have a
-- bound: in `flush_rounds` a round takes a poll away, so as many rounds as there are polls do, and
-- in `wait_for_lock` an attempt takes a millisecond at least, so one more than the wait has do. The
-- rounds of a re-roll are as many as asked for. A sort is an insertion sort, which is stable. What
-- stands for other code is a parameter: `Runtime` for the digest, localeCompare and the text of a
-- number, `Platform` for paths and undoers, `Services` for the manual apply, the files and the
-- compiler that handlePollPost asks, the function `alive` of a state for the process table,
-- `parse_float` for parseFloat.
--
-- Not modelled: the other HTTP handlers, cleanupSvelteComponentSessionsBeforeExit, the timers,
-- broadcasts and records of activity of live-server.mjs, the scaffold of a generation between the two
-- stamps of a lease and what leaseEvent journals after it, the overlay, the changes of source text,
-- the design detector, and the message bus in crates/, which is written in Rust.
pub mod Browser
pub mod Completion
pub mod Edits
pub mod Examples
pub mod Generation
pub mod Injection
pub mod Locking
pub mod Queue
pub mod Roll
pub mod Session
pub mod Shared
pub mod Validation
pub mod Vocabulary
