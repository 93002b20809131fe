-- ===== src/Dispatch/Columns.antt =====
-- The `external_…` columns that an observation fills (src/agentic_os/runtime_dispatch.py, lines 822
-- to 1168).
use openclaw_agentic_os.Prelude.{String, Option, none, some}
use openclaw_agentic_os.Result.{Result, ok, err}
use openclaw_agentic_os.Metadata.Fields.{Values}
use openclaw_agentic_os.Metadata.AllowLease.{LeaseValues}
use openclaw_agentic_os.Metadata.Probe.{item}
use openclaw_agentic_os.Dispatch.Rows.{External}
use openclaw_agentic_os.Dispatch.World.{Observation}

-- The `external_…` columns of an allow lease.
abbrev pub lease_external : Observation → LeaseValues → String → External → External
lease_external o v gateway_lease_id e = record e {
  metadata_contract_version = o.metadata_contract_version;
  metadata_json = o.raw_json;
  run_id = item "run_id" v.identity;
  transition_id = item "transition_id" v.identity;
  client_request_id = item "client_lease_id" v.identity;
  idempotency_key = item "idempotency_key" v.identity;
  phase = item "phase" v.identity;
  agent_id = item "agent_id" v.identity;
  requester_agent_id = item "requester_agent_id" v.identity;
  ttl_ms = some v.ttl_ms;
  external_id = some gateway_lease_id;
}

-- The same on a lease, whose row holds its gateway identity elsewhere.
abbrev pub lease_row_external : Observation → LeaseValues → External → External
lease_row_external o v e = record e {
  metadata_contract_version = o.metadata_contract_version;
  metadata_json = o.raw_json;
  run_id = item "run_id" v.identity;
  transition_id = item "transition_id" v.identity;
  client_request_id = item "client_lease_id" v.identity;
  idempotency_key = item "idempotency_key" v.identity;
  phase = item "phase" v.identity;
  agent_id = item "agent_id" v.identity;
  requester_agent_id = item "requester_agent_id" v.identity;
  ttl_ms = some v.ttl_ms;
}

-- The `external_…` columns of a session.
abbrev pub session_external : Observation → Values → String → External → External
session_external o v session_key e = record e {
  metadata_contract_version = o.metadata_contract_version;
  metadata_json = o.raw_json;
  run_id = item "run_id" v;
  transition_id = item "transition_id" v;
  client_request_id = item "client_request_id" v;
  idempotency_key = item "idempotency_key" v;
  phase = item "phase" v;
  agent_id = item "agent_id" v;
  task_digest = item "task_digest" v;
  external_id = some session_key;
}

-- COALESCE(?, column)
abbrev or_keep : {A : Type 0} → Option A → Option A → Option A
or_keep none y = y
or_keep (some x) y = some x

-- `persist_ambiguous_spawn_candidate` on the columns, where nothing of the metadata validated.
abbrev unverified_external : Observation → String → External → External
unverified_external o external_id e = record e {
  metadata_contract_version = or_keep o.metadata_contract_version e.metadata_contract_version;
  external_id = some external_id;
}

abbrev verified_external : Observation → Values → String → External → External
verified_external o v external_id e = record e {
  metadata_contract_version = or_keep o.metadata_contract_version e.metadata_contract_version;
  metadata_json = or_keep o.raw_json e.metadata_json;
  run_id = or_keep (item "run_id" v) e.run_id;
  transition_id = or_keep (item "transition_id" v) e.transition_id;
  client_request_id = or_keep (item "client_request_id" v) e.client_request_id;
  idempotency_key = or_keep (item "idempotency_key" v) e.idempotency_key;
  phase = or_keep (item "phase" v) e.phase;
  agent_id = or_keep (item "agent_id" v) e.agent_id;
  task_digest = or_keep (item "task_digest" v) e.task_digest;
  external_id = some external_id;
}

unfoldable pub candidate_external : Observation → Result Values → String → External → External
candidate_external o (ok v) external_id e = verified_external o v external_id e
candidate_external o (err _) external_id e = unverified_external o external_id e
