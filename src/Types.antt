-- ===== src/Types.antt =====
-- src/common/types.ts: the records that several parts of the program pass to one another.
use Prim.Native.String.{String}
use edgecoder.Prelude.{ℕ, Bool, Option, List, Ident}

pub data Language : Type 0 where
  python javascript : Language

pub data ResourceClass : Type 0 where
  cpu gpu : ResourceClass

pub record AllowedHours : Type 0 where
  pub start_hour_utc : ℕ
  pub end_hour_utc : ℕ

pub record ExecutionPolicy : Type 0 where
  pub cpu_cap_percent : ℕ
  pub memory_limit_mb : ℕ
  pub idle_only : Bool
  pub max_concurrent_tasks : ℕ
  pub allowed_hours : AllowedHours

pub record TaskProjectMeta : Type 0 where
  pub project_id : Ident
  pub tenant_id : Option Ident
  pub resource_class : ResourceClass
  pub priority : ℕ

pub data SubtaskKind : Type 0 where
  micro_loop single_step : SubtaskKind

pub record Subtask : Type 0 where
  pub id : Ident
  pub task_id : Ident
  pub kind : SubtaskKind
  pub language : Language
  pub input : String
  pub timeout_ms : ℕ
  pub snapshot_ref : Ident
  pub project_meta : TaskProjectMeta
  pub requested_model : Option Ident
  pub depends_on : Option (List Ident)
  pub subtask_index : Option ℕ

pub record SubtaskResult : Type 0 where
  pub subtask_id : Ident
  pub task_id : Ident
  pub agent_id : Ident
  pub is_ok : Bool
  pub output : String
  pub error : Option String
  pub duration_ms : ℕ
  pub snapshot_ref : Option Ident
  pub report_nonce : Option Ident
  pub report_signature : Option Ident
