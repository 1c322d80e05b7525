-- ===== src/Runs/Run.antt =====
-- Run, RunStatus, Readiness, ExpectedPort and PortVerification of internal/domain/domain.go, less the
-- telemetry, the log paths and the times that no modelled operation reads. A text of the source that
-- only takes listed values is a data type with one more constructor for any other text.
use agent_shell.Base.{ℤ, Text, ℕ, Bool, true, false, Option, List}

pub data RunStatus : Type 0 where
  starting running stopping completed failed stopped killed unknown : RunStatus

pub data Readiness : Type 0 where
  not_known waiting ready : Readiness

pub data PortState : Type 0 where
  listening closed other_state : PortState

pub data PortStatus : Type 0 where
  pending verified preexisting still_listening port_stopped unavailable other_status : PortStatus

pub data LifecycleAction : Type 0 where
  no_action start stop_action restart other_action : LifecycleAction

pub record ExpectedPort : Type 0 where
  pub port : ℕ
  pub name : Text
  pub protocol : Text
  pub service : Text

pub record PortVerification : Type 0 where
  pub port : ℕ
  pub protocol : Text
  pub before : PortState
  pub after : PortState
  pub current : PortState
  pub status : PortStatus

pub record Run : Type 0 where
  pub id : Text
  pub label : Text
  pub command : Text
  pub cwd : Text
  pub shell : Text
  pub kind : Text
  pub source : Text
  pub status : RunStatus
  pub readiness : Readiness
  pub process_group_id : ℕ
  pub exit_code : Option ℤ
  pub stop_reason : Text
  pub ended_at : Option ℕ
  pub expected_ports : List ExpectedPort
  pub port_verifications : List PortVerification
  pub env : List (Text × Text)
  pub command_definition_id : Text
  pub stack_run_id : Text
  pub restart_of_run_id : Text
  pub project_id : Text
  pub lifecycle_action : LifecycleAction
  pub check_definition_id : Text

abbrev pub is_active : RunStatus → Bool
is_active starting = true
is_active running = true
is_active stopping = true
is_active _ = false

abbrev pub active : Run → Bool
active r = is_active r.status
