-- ===== src/Lib.antt =====
-- A verification library of the budget ledger, the metadata contract and the runtime dispatcher of
-- Agentic OS.
--
-- The budget ledger (src/agentic_os/budgets.py) keeps, in three SQLite tables, what a run may spend:
-- `run_budgets` caches counters, `budget_events` is the ledger of reservations, releases, usage,
-- retries and human attention of each spawn request, `budget_settlements` holds the final
-- settlement of a spawn. Every call is one transaction that reads, checks, inserts its events and
-- updates the counters. The modules of Budget follow the code in this order:
--   Amounts, Tables       the amounts, the rows and the database (BudgetAmounts, BudgetSelection,
--                         the columns that the queries read);
--   Identity, Selection   _required_text, _event_id, _dedupe_hash, _created_at, _trusted_created_at;
--                         _selected_binding, _required_cost, _zero_policy_hash;
--   Ledger, Counters      the sums over events, _spawn_outstanding, _assert_budget_invariants; the
--                         two UPDATE functions _update_counters, _update_post_dispatch_counters;
--   Events                _existing_event, the collision checks, sequence numbers, the INSERTs;
--   PreAdmission, PreDispatch        record_budget_event, reserve_budget, release_budget;
--   PostAdmission, PostDispatch      record_post_dispatch_event and its four wrappers;
--   SettlementAdmission, SettlementWrites   _settle_budget_on_connection and settle_budget;
--   Writes, PostWrites, Moves, Reconcile, Soundness, LinkedEvents, SettlementLaws, Funding, Price,
--   Refusals, Idempotence lemmas and theorems about them.
-- A call is an action (Transaction): a function from the database to a result and a database.
-- `transact` is BEGIN IMMEDIATE with COMMIT on return and ROLLBACK on an exception.
--
-- The metadata contract (src/agentic_os/metadata.py) validates what an external runtime reports;
-- the dispatch probe (src/agentic_os/metadata_dispatch.py) drives an adapter and remembers which
-- intent owns which lease and session. Metadata/Json, Fields, Observation and AllowLease follow the
-- first, Intents, Registry, Probe, Operations and Scripted the second; Agreement, Binding, Replay and
-- Draining hold the theorems.
--
-- The runtime dispatcher (src/agentic_os/runtime_dispatch.py) acquires an allow lease, spawns a
-- session under it, and records what came of it in `external_rpc_intents`, `leases`,
-- `spawn_requests`, `runtime_dispatch_bindings` and `sessions`. Its modules:
--   Dispatch/Rows, World      the rows; the world that an action runs in (database, clock, adapter),
--                             statements that the schema may refuse, immediate_transaction;
--   Request, Replay, Live, Pending   DispatchRequest and its metadata; _existing_spawn_replay_result
--                             and its parts; assert_no_potentially_live_dispatch;
--                             insert_pending_dispatch and its parts;
--   Marks, Columns, Persist, Release   mark_human_review, mark_unknown, the two marks of a release;
--                             persist_acquired_lease, persist_spawn_acceptance and the candidates;
--                             prepare_owned_lease_release, persist_released_lease;
--   Flow                      release_owned_lease and dispatch_with_metadata: each try with its
--                             handlers is `try_else`, which keeps what was written before a raise;
--   Lifecycle, Steps, Moves, Writes, Evolution   the automata of intents and leases, and that each
--                             write and so each call moves the rows along them;
--   Local, Handlers, Leads, Calls, Once   what a call does to the adapter, and to later calls for
--                             its key;
--   Returns, Accepted, Outcomes   what holds where a call returns;
--   Storage, Times            what a release stores of the gateway's metadata, and the time at which
--                             an accepted call is recorded.
-- The dispatcher validates answers by the metadata contract. A result of the adapter is an
-- `Outcome`: an observation, an ambiguous transport error, or another exception.
--
-- Parameters. `Runtime` stands for hashlib, datetime and str.strip. `Engine` stands for SQLite and
-- the migrations: whether the schema identity holds, whether the SLO contract queries return no
-- row, and whether constraints and triggers let a row be written. `Platform` is the same for the
-- dispatcher: hashlib, time.strftime, json.dumps, json.loads, LIKE, and whether the schema admits a
-- statement; `Clock` is time.time; `Adapter` is the gateway client in the dispatcher's three calls,
-- over any state. `Decoder` stands for json.loads before its hooks run. `MetadataDispatchAdapter` is
-- the code's own protocol, over any state.
--
-- Amounts are natural numbers, since the schema and BudgetAmounts admit no negative one; a sum that
-- may be negative is an integer of Budget/Amounts. One loop runs on fuel, the `while` of session_list
-- of the scripted adapter: each round takes an observation off the queue, so one more than the
-- observations in it is enough. All other recursion is on lists and trees. The columns of
-- `budget_events` that name the provider, the model, the endpoint and the cost row are not NULL here:
-- the code always fills them, although the schema admits NULL in rows written by others. The
-- counters are bounded by the budget, so no wrap-around of SQLite's 64-bit integers is modelled.
--
-- Not modelled: opening the database file, sqlite3's own errors, the wording of messages, and the
-- rest of the repository (gates, the adapter client, reconciliation, migrations, shadows, scripts).
pub mod Prelude
pub mod Result
pub mod Transaction
pub mod Budget
pub mod Metadata
pub mod Dispatch
mod Scenarios
