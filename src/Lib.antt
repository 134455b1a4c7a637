-- ===== src/Lib.antt =====
-- AIOS-Tools: the governed execution core, as a model of src/aios_tools and theorems about it.
--
-- A request reaches the handler of a tool through `invoke`. It loads the execution policy and the
-- tool registry, checks the request, the mode, the effect class and the approvals, builds the
-- grants of remote mutations and session captures, asks the trust evaluator, and only then calls
-- the handler. The browser tools keep state of their own behind it: leases of stored sessions,
-- budgets of a run, one-shot grants, and the ledger of reserved idempotency keys. A remote mutation
-- uses its grant, reserves its key in the ledger, sends its requests, and marks what came of them.
-- Beside this core stand the event store of the daily debriefs, the graph of the cartography, and
-- functions that decide on packets that they are given.
--
-- Prelude: shared names; texts, dictionaries, JSON values, and calls that return or raise.
-- Governance/Registry, Governance/Policy: `load_registry` and `load_policy` of
--   src/aios_tools/config.py.
-- Governance/Runner: `_write_approval_error` and the data of src/aios_tools/runner.py;
--   Governance/Runner/Gates has `invoke`, gate by gate.
-- Trust: `evaluate_trust_binding` of src/aios_tools/execution_trust.py, over documents of
--   contracts/execution-trust-binding.v0.1.schema.json.
-- Browser/Policy: src/aios_tools/browser/policy.py.
-- Browser/Origin: src/aios_tools/browser/origin.py, and `canonical_http_url` of
--   src/aios_tools/browser/mutation.py.
-- Browser/Mutation: `build_mutation_grant`, `MutationGrant.consume` and `MutationLedger` of
--   src/aios_tools/browser/mutation.py.
-- Browser/Effects: `mutate_request_async` and `mutate_reversible_async` of
--   src/aios_tools/browser/effects_runtime.py; Browser/Effects/Check has their reads of the remote
--   state, Browser/Effects/Check/Passed what a read that passes has seen, and Browser/Effects/Plan
--   what both do alike.
-- Browser/Capture: the grants of src/aios_tools/browser/session_capture.py.
-- Browser/Leases: `SessionLeaseRegistry` of src/aios_tools/browser/session.py.
-- Browser/Budget: `BudgetLedger` of src/aios_tools/browser/budget.py.
-- Deciders/Retry: `decide_retry` of src/aios_tools/experimental/non_atomic_tool_retry.py.
-- Deciders/NextAction, Deciders/Completion, Deciders/Continuation, Deciders/Fallback, Deciders/Skills
--   and Deciders/Gates: next_action_priority.py, execution_completion.py, route_continuation.py,
--   resource_fallback_equivalence.py, skill_install_lifecycle.py and daily_debrief_gates.py of
--   src/aios_tools/experimental.
-- Debrief/Event, Debrief/Store: `validate_finding_event` of daily_debrief_adapter.py and the store of
--   daily_debrief_event_store.py, both of src/aios_tools/experimental.
-- Cartography/Graph: `_find_parent_cycles` of src/aios_tools/cartography/graph_ir.py.
--
-- An exception is a value of `Result`; an exception that the caller does not catch is a case of its
-- own. An object that the code changes in place is an argument and a result. Dates are natural
-- numbers of microseconds, the monotonic clock counts natural numbers of a unit for budgets, and for
-- leases its numbers are a parameter. Every loop is structural recursion but the one
-- over the parents of a node, whose fuel is one more than there are nodes. A JSON number is a natural
-- number or unknown; a float with an integral value is not a value of the model.
--
-- Parameters: the standard library's address splitting, IDNA, case folding, dates, SHA-256, JSON
-- printing and sorting; the JSON schema validators; SQLite, whose table is a dictionary by its
-- primary key, or its rows in their order; the files; the network and the browser, as answers to the
-- requests sent so far; the handlers, as functions on a world of any type; and the values that
-- the binding of `system.health` is built from.
--
-- Not modelled: files that are not in UTF-8, the copy of the semantic authority in a trust receipt,
-- the other handlers, uploads and downloads, the restored sessions of the browser, a
-- call that is cancelled, DNS resolution, the cognition receipt and the external effects that a
-- receipt reports, the MCP server, the command line, the audio tools, the rest of the cartography,
-- the benchmarks and the other experimental deciders.
pub mod Prelude
pub mod Trust
pub mod Browser
pub mod Governance
pub mod Cartography
pub mod Debrief
pub mod Deciders
