-- ===== src/Lib.antt =====
-- Verification library for mgmt, a task and calendar manager (crates/): a domain layer, an iCalendar
-- codec, a three-way sync between a local vault and a server, and backups with a retention policy.
-- A source file crates/mgmt-x/src/y.rs is modelled by the module named for it:
--
-- - Base: shared names, Boolean tests, texts, ASCII operations, decimals, stable sorting, results.
-- - Domain: crates/mgmt-domain/src. `Workflow` is workflow.rs (`Workflow::new` is `workflow`),
--   `Reminder` is reminder.rs (an offset is its minutes), `Filter` is filter.rs (`SmartView::id` is
--   `view_id`, `SortMode::id` is `mode_id`), `Occurrence` is occurrence.rs (the two loops are
--   `substitute_all` and `moved_in`, the expanded occurrences are an argument). `Task`, `Event` and
--   `Recurrence` are the data of task.rs, event.rs and recurrence.rs.
-- - Ical: crates/mgmt-ical/src. `Value` is value.rs with `unfold` of parser.rs, `Parser` is the rest of
--   parser.rs: a loop that keeps a stack is `parse_lines` over a `State`, an error is a `ParseError`.
--   `Dates` is the date-times of value.rs, over a record of what the date library does, and `Rrule` is
--   rrule.rs: the match on a key is `read_part`, what the loop has read so far a `Reading`.
-- - Sync: crates/mgmt-sync/src. `Reconcile` is reconcile.rs, the planners, which push operations to a
--   list. `Snapshot` is the merge base of http.rs, which a pass prepares before it plans and changes as
--   it runs the plan, and `Series` groups events by uid, as `group_series` of http.rs.
--   `Remote` is the client of http.rs, which calls the handlers of Web, and `Driver` is the pass over the
--   tasks, `sync_tasks_http`: it loads the vault of Store, plans with `Reconcile`, runs the operations
--   one after the other over a vault, a server and a base, and stops at the first error.
-- - Core: crates/mgmt-core/src/lib.rs, the kinds of errors. Markdown: crates/mgmt-markdown/src/lib.rs, a
--   task as a document with a frontmatter; the YAML library is a record of its two functions.
-- - Store: crates/mgmt-store/src. `Paths` is `safe_stem` of paths.rs, `Files` a directory with the
--   operations of the file system, `Vault` is vault.rs, `Trash` trash.rs, `Projects` projects.rs.
-- - Service: crates/mgmt-service/src. `Reminders` is `pending` of reminders.rs. `Focus` is time.rs and
--   status.rs (`PomodoroState` is `Session`). `Context` is the caches and the undo stack of context.rs,
--   over `Vault` and `Trash`, with the calendar store as an interface; `Mutations` are the commands that
--   change tasks and events, each of which records a snapshot that `apply` turns into its inverse,
--   `Occurrences` those that change one occurrence of a series, and `Projects` those of projects, which
--   undo does not cover. `Board` is the columns of the kanban board.
-- - Tui: crates/mgmt-tui/src. `Keymap` is keymap.rs.
-- - Web: crates/mgmt-web/src. `Sync` is sync.rs, the server that the sync talks to: the state is a
--   directory, and the handlers of tasks and of events are one at two extensions (`put_task` and
--   `put_event` are `put_item`). The digest of a file is a parameter, of which nothing is assumed.
-- - Backup: crates/mgmt-backup/src. `Retention` is retention.rs.
-- - Tests: runs of the definitions, and the theorems at concrete data.
--
-- A text is the list of its code points, or of its UTF-8 bytes in Ical, where lengths count bytes. An
-- instant is a natural number of nanoseconds from the first midnight of the date library. An `i64` is an
-- integer, wrapped to 64 bits where the source multiplies. A panic is `none`, or the error
-- `panic` of Rrule. `to_lowercase` of a title is a parameter, of which nothing is assumed.
-- Folding runs on fuel, as much as the line has bytes: every round takes at least one byte of a UTF-8
-- text (`Ical.Value.Fold`). Every other loop is a recursion over a list.
--
-- Not modelled: the pass over the events, the expansion of a rule over a window, the mapping of events
-- and to-dos to components, the calendar store, the old project registry, the queries of events of
-- context.rs, and the web server but for its sync handlers; and the file system's errors, HTTP, the
-- database, the drawing of the terminal, the command line, the YAML and XML parsers, the Google client
-- and the configuration, which are I/O or glue around other libraries.
pub mod Base
pub mod Domain
pub mod Ical
pub mod Sync
pub mod Backup
pub mod Store
pub mod Web
pub mod Core
pub mod Markdown
pub mod Service
pub mod Tui
pub mod Tests
