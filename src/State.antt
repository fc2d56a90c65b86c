-- ===== src/State.antt =====
-- crates/edison-stdiod/src/state.rs: the status record that the daemon rewrites. Each update takes
-- the lock, so an update is one step.
use stdiod.Base.{ℕ, String, Option, none, List, [], ◌+◌, ◌-◌, ◌^◌, min}

pub data ConnectionState : Type 0 where
  starting connected reconnecting needs_reauth needs_upgrade : ConnectionState

pub data ServerStatus : Type 0 where
  starting running crashed : ServerStatus

pub record ServerEntry : Type 0 where
  pub name : String
  pub status : ServerStatus
  pub pid : Option ℕ

-- Times are opaque stamps.
pub record State : Type 0 where
  pub connection_state : ConnectionState
  pub backend_url : Option String
  pub device_id : Option String
  pub device_label : Option String
  pub last_connected_at : Option ℕ
  pub last_error : Option String
  pub servers : List ServerEntry
  pub generation : ℕ

abbrev pub default_state : State
default_state = record {
  connection_state = ConnectionState.starting;
  backend_url = none;
  device_id = none;
  device_label = none;
  last_connected_at = none;
  last_error = none;
  servers = [];
  generation = 0;
}

abbrev pub u64_max : ℕ
u64_max = 2 ^ 64 - 1

-- `StateWriter::update`: the mutation, and the generation saturating at 64 bits.
unfoldable pub update : (State → State) → State → State
update f s = let t : State = f s in record t { generation = min (t.generation + 1) u64_max }
