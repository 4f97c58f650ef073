-- ===== src/Approval/State.antt =====
-- The tables that the approval workflow writes, its trace of tool calls, and its environment.
use fxfill_enterprise_bankin.Common.{ℕ, String, Bool, ◌&&◌, Option, none, some, List, ◌==◌, eqb}
use fxfill_enterprise_bankin.Sql
use fxfill_enterprise_bankin.Hitl.{HitlSession}
use fxfill_enterprise_bankin.Grants.{GrantRecord}
use fxfill_enterprise_bankin.Idempotency.{IdempotencyRecord}

-- `EventKind` of persistence.py.
pub data EventKind : Type 0 where
  user_message agent_message tool_call tool_result error checkpoint reconciliation_required :
      EventKind

pub record AgentEvent : Type 0 where
  pub run_id : String
  pub seq : ℕ
  pub kind : EventKind
  pub payload : List (String × String)

-- `ToolCall` and `ToolResult` of mcp_client.py; arguments as their canonical JSON text.
pub record ToolCall : Type 0 where
  pub name : String
  pub arguments : String

pub record ToolResult : Type 0 where
  pub tool_name : String
  pub success : Bool
  pub content : String
  pub error : Option String

-- `call_tool` raises or returns.
pub data McpOutcome : Type 0 where
  raised : McpOutcome
  returned : ToolResult → McpOutcome

-- A tool call that was sent, with the session it was sent for.
pub record Dispatch : Type 0 where
  pub session_id : String
  pub call : ToolCall

pub record World : Type 0 where
  pub sessions : List HitlSession
  pub grants : List GrantRecord
  pub records : List IdempotencyRecord
  pub events : List AgentEvent
  pub dispatched : List Dispatch

pub record Env : Type 0 where
  pub sha256 : String → String
  pub loads : String → Option String
  pub mcp : ToolCall → McpOutcome
  pub actor : Option String
  pub now : ℕ → ℕ

-- UNIQUE(run_id, seq)
abbrev pub same_event : AgentEvent → AgentEvent → Bool
same_event new old = old.run_id == new.run_id && eqb old.seq new.seq

abbrev pub or_kept : List AgentEvent → Option (List AgentEvent) → List AgentEvent
or_kept old none = old
or_kept old (some new) = new

-- `_persist_event`: an insert that fails is only logged.
unfoldable pub persist_event : String → ℕ → EventKind → List (String × String) → World → World
persist_event run_id seq kind payload w = record w {
  events = or_kept w.events (
      Sql.insert same_event (record { run_id = run_id; seq = seq; kind = kind; payload = payload })
        w.events);
}
