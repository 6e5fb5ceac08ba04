-- ===== src/Lib.antt =====
-- The libraries of the web client (frontend/src/lib and packages/shared/src), which hold its logic apart
-- from the screens.
--
-- Rule: the draft that both rule editors change (frontend/src/lib/rule-draft.ts).
--   Rule.Draft and Rule.Tree are the condition tree and its operations (`normalize`,
--   `insertBeside`, `removeNode`, `updateContact`, `setGroupOp`); Rule.Condition is the way from
--   and to the API's condition; Rule.Action and Rule.Email are the actions; Rule.Model, Rule.Loading
--   and Rule.Request are the whole draft, `draftFromRule` and `draftToRequest`; Rule.Validation is
--   `validateDraft` and `flappingRisk`; Rule.Preview is `ruleChecks` and `sectionIssues`, and
--   Rule.Sending `wouldSend` (frontend/src/lib/rule-preview.ts); Rule.Labels is the tables. A proof
--   stands in the child module named for what it proves.
-- Ladder: `layoutCondition` and `ancestry` (frontend/src/lib/ladder-layout.ts), which draw that tree.
-- Hardware: the wiring of a device. Hardware.Chips is `BOARDS` and `CHIP_PINS`, Hardware.Pins
--   frontend/src/lib/hardware/board-pins.ts, Hardware.Catalog driver-catalog.ts beside it, and
--   Hardware.Draft, Hardware.Moving, Hardware.Saving and Hardware.Checks (`validateHardware`)
--   hardware-draft.ts. Hardware.Blob is `encodeConfigBlob` with its checksum (config-blob.ts).
-- Live: Live.Buffer is `LiveBuffer` and Live.Window `reseed` and `appendToWindow`
--   (frontend/src/lib/live-buffer.ts); Live.Telemetry is packages/shared/src/live-telemetry.ts.
-- Schedule: frontend/src/lib/schedule.ts. Schedule.Fields is `cronField`, `cronParts` and `validateCron`,
--   Schedule.Picker `scheduleFromCron` and `cronFromSchedule`, Schedule.Runs `nextRuns`, Schedule.Words
--   `cronHuman`, `daysText` and `runText`. Schedule.Sets and Schedule.Allowed are on what a field
--   allows; Schedule.Lines, Singles, Stars, Picking and Shown are the steps of Schedule.RoundTrip;
--   Schedule.Days and Schedule.Wording are on what `cronHuman` says, and Schedule.Runs.Grid on what
--   `nextRuns` lists. The numbers of a schedule are whole: `clampRepeat` of a fraction, of a negative
--   number or of NaN is not modelled, nor a repeat of 2^53 or more, which `Number` rounds.
-- Realtime: `connectRealtime` (packages/shared/src/realtime.ts), a handler each a function on the
--   connection; Realtime.Steps is the relation of their calls, Realtime.Handlers what each preserves,
--   Realtime.Frames the unpacking of frames and Realtime.Url `wsUrlFromApiUrl`.
-- Provisioning: packages/shared/src/provisioning-qr.ts.
-- Dashboard: `starterLayout` (frontend/src/lib/starter-dashboard.ts), on the wire names of Names
--   (packages/shared/src/slug.ts and wire-id.ts); Dashboard.Summary is `widgetSummary`
--   (frontend/src/lib/dashboard-summary.ts).
-- Units: `UNIT_CATEGORIES`, `unitLabel` and `searchUnits` (packages/shared/src/units.ts).
-- Permissions: packages/shared/src/permissions.ts.
-- Commands: frontend/src/lib/command-status.ts.
-- Prelude: texts, JSON values, numbers and list helpers that the parts share. Samples: the concrete
--   values that the modules named Tests run.
--
-- JavaScript's number is a type `N` with the operations of the record Numbers, and reading and
-- printing JSON text is the record JsonText: both belong to the runtime and are parameters. Fresh
-- ids (`newId`) are a function or an argument. A method that throws returns `none` there. Pins, grid
-- coordinates and indexes are natural numbers, since the code only adds to them from 0. An object
-- with text keys and a Map are lists of entries in order. The listener sets of LiveBuffer, which an
-- unsubscribing closure holds on to, are cells of a store; a listener that itself subscribes during
-- a flush is not modelled.
--
-- `conditionFromNode` calls itself on the normalized children, which are not parts of its argument,
-- so it recurses on fuel; any fuel beyond the depth of the tree is enough, since normalizing never
-- deepens a tree. The binary search of `appendToWindow` takes as fuel the number of points, the
-- width of its first gap. The values of a range of a cron field and the digits of a number are listed
-- on fuel too, as many steps as the range is long and one more than the number.
--
-- The connection holds beside the variables of its closure what the runtime has yet to deliver: token
-- requests, timers and open sockets. A call of a handler takes one of these away, so every order in
-- which the runtime may call them is a sequence of steps. `SocketLike` does not say whether a socket
-- that was asked to close may still open: the flag `late` of the steps decides. A promise of getToken
-- that is rejected ends the attempt, as nothing catches it. The calendar (`wallNow`, `addDays`) and
-- `Number` on texts are the runtime's.
--
-- Not modelled: rendering (components, app, hooks), requests to the backend, the backend itself, the
-- firmware and the mobile app; of the wiring, the guide; the template drafts, the
-- charts and the flasher; the zones and the summary line of a schedule.
pub mod Prelude
pub mod Rule
pub mod Ladder
pub mod Hardware
pub mod Live
pub mod Permissions
pub mod Commands
pub mod Names
pub mod Dashboard
pub mod Realtime
pub mod Schedule
pub mod Units
pub mod Provisioning
pub mod Samples
