-- ===== src/Lib.antt =====
-- A model of the backend of myccmonitor: monitors of Clever Cloud resources, rules on their states
-- and metrics, actions that change states, notify and escalate.
--
-- The parts and their sources, by paths from the root of the repository:
--   Rules/Condition, Rules/Field, Rules/Fetch, Rules/Evaluator
--       backend/src/rules/condition.rs, field.rs, evaluator.rs: the condition tree, the references
--       `monitor:{uuid}:property`, their live values, comparisons and durations.
--   Rules/Dependencies, Rules/Cycle   backend/src/rules/dependencies.rs and cycle.rs.
--   Rules/Cooldown   `cooldown_decision` of backend/src/rules/exec.rs and `compute_cooldown` of
--       backend/src/rules/debug.rs.
--   Rules/Trigger, Rules/Exec, Rules/Actions   backend/src/rules/exec.rs and actions.rs: from a
--       change of a monitor to the dependent rules, to their actions, and on to chained rules.
--   Rules/Debug   the rest of backend/src/rules/debug.rs: the snapshot for the debug panel.
--   Groups/Rollup   backend/src/groups/rollup.rs.
--   Notifications/Dispatch   backend/src/notifications/dispatch.rs, with `render` of template.rs
--       and `for_kind` of adapters.rs.
--   Webhooks   backend/src/webhooks/event.rs and receiver.rs: a webhook of Clever Cloud, where it
--       is routed to, and the endpoint that hands it to the topic `cc-webhooks`.
--   Bus   backend/src/bus/consumer.rs and escalations.rs: what each message of a topic does, and
--       the loop over a subscription.
--   Monitors   backend/src/monitors/state_map.rs, sync.rs and poller.rs: the synchronisation of an
--       organisation and one cycle of the poller.
--   Handlers/Rules   backend/src/handlers/rules.rs: saving, restoring, deleting and testing a rule.
--   Handlers/Channels, Handlers/Groups   backend/src/handlers/channels.rs, with `validate_config` of
--       backend/src/notifications/adapters.rs, and backend/src/handlers/groups.rs.
--   Store   the tables and the queries of backend/src/db that these parts run; what they publish
--       (backend/src/ws/mod.rs, backend/src/bus/producer.rs and escalations.rs) is kept in the same
--       record.
--   Task, World, Host   asynchronous code, its state, and what other crates provide.
--   Prelude, Json, Error, Examples   shared names, plain data, errors, and theorems at concrete
--       inputs.
--
-- Asynchronous code is a task, a tree of atomic steps: one for each call that leaves the process
-- and for each stretch of code on the in-flight set. Every call may fail, as an oracle in the
-- state says, and then changes nothing; the oracle also gives the time and which future of a
-- `join_all` is polled next, so that a theorem for every oracle holds for every interleaving.
-- Identifiers are natural numbers; an instant is its microseconds since the epoch; an i64 or i32
-- is an integer, and counters of type u32 wrap around. Floats are bit patterns whose operations
-- are parameters, as are regular expressions, serde's decoders, handlebars and petgraph. A panic is
-- not modelled; where the code has one, on durations beyond the range of chrono, the theorems are on
-- durations up to `max_seconds`.
--
-- The actions of a rule set off further rules. The recursion is on fuel, eight units from depth
-- zero; that this is enough is a theorem. All other functions are structural.
--
-- A save of a rule is one transaction, and so one step that takes effect as a whole or fails. The
-- stream of a subscription is a list, with an error where the stream has one. What Clever Cloud,
-- Warp10 and the advisory locks of Postgres answer is a parameter, indexed by the step of the call,
-- as is the order in which a `HashMap` is walked.
--
-- Not modelled: the listings and the other HTTP handlers, the MCP server, OAuth and sessions, the
-- scripts and requests for Warp10, the WebSocket server, the endless loops around a cycle of the
-- poller, and the bodies of the adapters, which are one external call each. Log lines are left out.
pub mod Prelude
pub mod Json
pub mod Bus
pub mod Monitors
pub mod Handlers
pub mod Error
pub mod Task
pub mod Store
pub mod Groups
pub mod World
pub mod Webhooks
pub mod Host
pub mod Rules
pub mod Notifications
pub mod Examples
