-- ===== src/Lib.antt =====
-- Icinga Notifications: the daemon takes events of monitoring sources, keeps an incident for each object
-- that has a problem, decides by rules and escalations whom to notify, and records all of it in a database.
--
-- The modules, and the Go code that each is about:
--   Prelude     Boolean tests, lists, results with errors, integers and byte strings
--   Filter      internal/filter: conditions, chains and their evaluation (types.go, contracts.go), and the
--               parser (parser.go). `Filter.Parser.Chars` has the readers, `Loop` the method readFilter, one
--               iteration of its loop as `iteration`; `Reads`, `Balance`, `Step`, `Iteration` and
--               `Correct` prove what the parser does.
--   Named       the conversions of enumerations by name that severity.go, contact_role.go,
--               history_event_type.go and notification_state.go share; `Conversions` has their round trips
--   Event       internal/event: `Severity`, and `Incoming` for the event, its validation and its row
--   Object      internal/object: an object, its muting, and its tags as a filterable in `Objects`, the cache and
--               FromEvent in `Cache`, and ID in `Identity`; `Synced`, `Ordered` and `Injective` are about them
--   Rule        internal/rule: `Condition` for the filterable of an escalation and ReevaluateAfter,
--               `Escalation` for rules, escalations and the channels of contacts
--   TimePeriod  internal/timeperiod
--   Recipient   internal/recipient: contacts, groups, schedules, and the rotation resolver
--   Incident    internal/incident: `State` for the incident and the database statements, `Exec` for the
--               methods as functions on it, `Contacts`, `Escalations`, `Notifications` and `Process` for
--               the methods of incident.go and sync.go; `Current` for the current incidents and ProcessEvent
--               of incidents.go, which `Isolated`, `Registry`, `Reached`, `Absent` and `Committed` are about
--   Runtime     internal/config: `Maps` and `Tables` for the tables and incrementalFetch, `Apply` for
--               incrementalApplyPending, `Elements` and `State` for the tables of the configuration,
--               `Validated` for the methods IncrementalInitAndValidate of the elements, `Pending` for the
--               callbacks of each table and UpdateFromDatabase, `Verify` for debugVerify, and `Credentials`
--               for GetSourceFromCredentials; `Faulty`, `Merge`, `Refine`, `Fetched`, `Synchronised`,
--               `Addresses`, `Failing`, `Lost`, `Overdeleted` and `Consistent` are about them
--   Listener    internal/listener: the handler of submitted events in `Handler`, and which requests have an
--               effect in `Guarded`
--   Tests       runs on small inputs, and instances of the theorems
--
-- An incident's method is a function from a `World` (the incident in memory, the statements of the open
-- transaction, those that took effect, and the number of database operations so far) to a result and a
-- new world. An `Env` says what the program does not decide: the configuration, which database operation
-- fails, the ids, the clock, time.ParseDuration, strings.EqualFold and Channel.Notify. A statement is
-- recorded as what it writes; the text of the SQL is not modelled. A Go map is a list in the order of one
-- iteration over it, so that what is proved holds for every order. Locks are not modelled: a method holds
-- the incident's lock from its start to its end.
--
-- The configuration is a `Runtime`: a table for each type of element, with every element that was allocated,
-- the map of the live configuration, that of the pending changes, and the time of the last change. A
-- pointer is the place of an element in its table, so that two maps, or a map and a list, can hold the
-- same element, and an assignment through a pointer is seen by both. The rows that a query yields are a
-- parameter.
--
-- A `Store` is the cache of objects with the current incidents, by the id of the object: FromEvent writes
-- the cached object in place, and a current incident sees what its object is at the moment. ProcessEvent
-- runs for one event after the other. ID is a parameter there, and so is what restoreRecipients selects.
--
-- Numbers: identifiers, positions and lengths are natural numbers, times and durations are integers (the
-- saturation of time.Time.Sub and the wrap-around of a duration's subtraction are written out). Text is a
-- list of bytes, and a byte that Go converts to a string becomes the UTF-8 encoding of that number.
--
-- The parser's recursion has fuel: one iteration of readFilter's loop, or one nested call, takes one unit.
-- `parse` starts with one more than the number of bytes, since every iteration reads a byte or returns.
-- The index of the text in parseError and that of the last rule panic out of range in the model as well; the
-- index rules[0] stands behind rules != nil and is the first of a list that is not empty.
--
-- Libraries are parameters: a recurrence rule of rrule-go is a record of the two functions of it that
-- timeperiod.go calls, and time.LoadLocation, StrToROptionInLocation with NewRRule, and time.ParseDuration are
-- functions. ID takes SHA-256 as a function and sort.Slice as any function that sorts, since it does not
-- say how it orders equal keys. The listener takes JSON decoding and the comparison of bcrypt as functions.
--
-- Not modelled: internal/channel but for the validation of a channel's type, and internal/icinga2
-- (processes, HTTP streams, goroutines), the HTTP server and the debugging pages of the listener, the
-- daemon's configuration, what the daemon restores from the database at its start, and the channel
-- plugins. A map of the configuration is never nil, and RefreshRotations of a schedule that is not there,
-- a nil pointer whose use panics, does nothing. The value of a filter is taken as valid UTF-8, without
-- which EvalLike panics.
pub mod Prelude
pub mod Filter
pub mod Named
pub mod Event
pub mod Incident
pub mod Conversions
pub mod Rule
pub mod TimePeriod
pub mod Recipient
pub mod Object
pub mod Tests
pub mod Runtime
pub mod Listener
