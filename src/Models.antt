-- ===== src/Models.antt =====
-- src/phera/db/models.py: the rows that the modelled code reads and writes. A UUID is its canonical
-- text, a time is a number of microseconds since the epoch.
use phera.Common.{ℕ, String, Bool, Option, List, [], Dict}
use phera.Json.{Json, ℤ}

abbrev pub Uuid : Type 0
Uuid = String

abbrev pub Time : Type 0
Time = ℕ

pub record Workspace : Type 0 where
  pub id : Uuid
  pub slug : String

pub record User : Type 0 where
  pub id : String
  pub email : Option String
  pub name : Option String
  pub workspace_id : Uuid

pub record Team : Type 0 where
  pub id : Uuid
  pub workspace_id : Uuid
  pub name : String
  pub slug : String

pub record TeamMember : Type 0 where
  pub team_id : Uuid
  pub user_id : String
  pub role : String

pub record OwnershipProfile : Type 0 where
  pub workspace_id : Uuid
  pub mode : String
  pub flags : Dict Json

pub record Contact : Type 0 where
  pub id : Uuid
  pub workspace_id : Uuid
  pub name : Option String
  pub primary_email : Option String
  pub primary_phone : Option String
  pub owner_user_id : Option String
  pub source : Option String
  pub custom_fields : Dict Json
  pub is_deleted : Bool

pub record Pipeline : Type 0 where
  pub id : Uuid
  pub workspace_id : Uuid
  pub name : String
  pub slug : String
  pub is_active : Bool
  pub resubmission_policy : String

pub record PipelineTeam : Type 0 where
  pub pipeline_id : Uuid
  pub team_id : Uuid

pub record Stage : Type 0 where
  pub id : Uuid
  pub pipeline_id : Uuid
  pub name : String
  pub position : ℕ

pub record Deal : Type 0 where
  pub id : Uuid
  pub workspace_id : Uuid
  pub contact_id : Uuid
  pub pipeline_id : Uuid
  pub stage_id : Uuid
  pub owner_user_id : Option String
  pub source_form_id : Option Uuid
  pub status : String
  pub custom_fields : Dict Json
  pub created_at : Time
  pub stage_entered_at : Option Time
  pub closed_at : Option Time

pub record Form : Type 0 where
  pub id : Uuid
  pub workspace_id : Uuid
  pub name : String
  pub target_pipeline_id : Uuid
  pub entry_stage_id : Uuid
  pub matching_keys : List String
  pub resubmission_policy : Option String
  pub source_default : Option String

pub record FormSubmission : Type 0 where
  pub id : Uuid
  pub form_id : Uuid
  pub contact_id : Uuid
  pub deal_id : Option Uuid
  pub payload : Dict Json

pub record Interaction : Type 0 where
  pub id : Uuid
  pub workspace_id : Option Uuid
  pub contact_id : Uuid
  pub deal_id : Option Uuid
  pub ticket_id : Option Uuid
  pub type : String
  pub direction : Option String
  pub body : Option String
  pub occurred_at : Time
  pub actor_type : String
  pub actor_id : Option String

pub record FieldChange : Type 0 where
  pub field : String
  pub from_value : Option String
  pub to_value : Option String

pub record AuditEvent : Type 0 where
  pub id : Uuid
  pub occurred_at : Time
  pub workspace_id : Option Uuid
  pub actor_type : String
  pub actor_id : Option String
  pub entity_type : String
  pub entity_id : Uuid
  pub action : String
  pub pipeline_id : Option Uuid
  pub stage_from_id : Option Uuid
  pub stage_to_id : Option Uuid
  pub changes : List FieldChange
  pub after : Option (Dict String)
  pub context : Dict String

pub record OutboxEvent : Type 0 where
  pub id : Uuid
  pub occurred_at : Time
  pub workspace_id : Option Uuid
  pub event_type : String
  pub entity_type : String
  pub entity_id : Uuid
  pub idempotency_key : String
  pub payload : Dict String
  pub status : String
  pub attempts : ℕ
  pub last_error : Option String

pub record Ticket : Type 0 where
  pub id : Uuid
  pub workspace_id : Uuid
  pub contact_id : Uuid
  pub channel_account_id : Option Uuid
  pub assignee_user_id : Option String
  pub routing_tier : ℕ
  pub short_id : Option String
  pub subject : Option String
  pub status : String
  pub priority : String
  pub last_activity_at : Time
  pub created_at : Time
  pub updated_at : Time
  pub status_entered_at : Option Time
  pub first_assigned_at : Option Time
  pub first_response_at : Option Time
  pub resolved_at : Option Time
  pub closed_at : Option Time

pub record ChannelAccount : Type 0 where
  pub id : Uuid
  pub workspace_id : Uuid
  pub kind : String
  pub adapter_type : String
  pub address : String
  pub connector_id : Option Uuid
  pub routing_policy_id : Option Uuid
  pub is_active : Bool

pub record Message : Type 0 where
  pub id : Uuid
  pub channel_account_id : Uuid
  pub ticket_id : Option Uuid
  pub contact_id : Option Uuid
  pub direction : String
  pub provider_message_id : Option String
  pub body : Option String
  pub raw : Dict Json
  pub occurred_at : Time

pub record RoutingPolicy : Type 0 where
  pub id : Uuid
  pub workspace_id : Uuid
  pub focus_on_voice : Bool
  pub created_at : Time

pub record RoutingTier : Type 0 where
  pub id : Uuid
  pub policy_id : Uuid
  pub position : ℕ
  pub name : String
  pub team_id : Option Uuid
  pub overflow_after_seconds : Option ℕ

pub record AgentPresence : Type 0 where
  pub user_id : String
  pub status : String
  pub on_voice_call : Bool
  pub last_assigned_at : Option Time
  pub updated_at : Time

pub record AgentTelephonyIdentity : Type 0 where
  pub user_id : String
  pub workspace_id : Uuid
  pub sip_user : String
  pub is_active : Bool

pub record TicketOffer : Type 0 where
  pub id : Uuid
  pub ticket_id : Uuid
  pub user_id : String
  pub status : String
  pub expires_at : Option Time

pub record WorkflowNode : Type 0 where
  pub id : String
  pub kind : Option String
  pub type : Option String
  pub config : Dict Json

pub record WorkflowEdge : Type 0 where
  pub source : Option String
  pub target : Option String

pub record Connector : Type 0 where
  pub id : Uuid
  pub workspace_id : Uuid
  pub type : String
  pub credentials : Dict Json
  pub secrets_encrypted : Option String
  pub is_active : Bool

pub record EmailPollState : Type 0 where
  pub channel_account_id : Uuid
  pub last_uid : ℕ
  pub last_polled_at : Option Time
  pub status : String
  pub last_error : Option String

pub record Call : Type 0 where
  pub id : Uuid
  pub workspace_id : Uuid
  pub contact_id : Option Uuid
  pub ticket_id : Option Uuid
  pub agent_user_id : Option String
  pub provider : String
  pub provider_call_id : Option String
  pub direction : String
  pub from_number : Option String
  pub to_number : Option String
  pub duration_seconds : Option ℤ
  pub recording_url : Option String
  pub status : String
  pub created_at : Time

pub record Transcript : Type 0 where
  pub id : Uuid
  pub call_id : Uuid
  pub text : Option String
  pub status : String

-- A day is a number of days since the epoch.
pub record MetricDaily : Type 0 where
  pub date : ℕ
  pub workspace_id : Uuid
  pub grain_hash : String
  pub metrics : Dict ℕ

pub record AgingSnapshotDaily : Type 0 where
  pub date : ℕ
  pub workspace_id : Uuid
  pub entity_type : String
  pub entity_id : Uuid
  pub pipeline_id : Option Uuid
  pub stage_id : Option Uuid
  pub owner_user_id : Option String
  pub age_seconds : ℕ
  pub stage_age_seconds : ℕ
  pub stage_entered_at : Option Time

pub record RollupRun : Type 0 where
  pub day : ℕ
  pub workspace_id : Uuid
  pub started_at : Option Time
  pub finished_at : Option Time
  pub rows_in : ℕ
  pub rows_out : ℕ
  pub status : String

pub record LifecycleDestination : Type 0 where
  pub id : Uuid
  pub workspace_id : Uuid
  pub event_types : List Json
  pub is_active : Bool

pub record Workflow : Type 0 where
  pub id : Uuid
  pub workspace_id : Uuid
  pub nodes : List WorkflowNode
  pub edges : List WorkflowEdge
  pub version : ℕ
  pub is_active : Bool
  pub is_draft : Bool
  pub event_types : List Json

pub record WorkflowRun : Type 0 where
  pub id : Uuid
  pub workflow_id : Uuid
  pub version : ℕ
  pub status : String
  pub current_node : Option String
  pub wake_at : Option Time
  pub payload : Dict String
  pub idempotency_key : String
  pub contact_id : Option Uuid
  pub deal_id : Option Uuid

pub record WorkflowNodeRun : Type 0 where
  pub id : Uuid
  pub workflow_run_id : Uuid
  pub node_id : String
  pub status : String
  pub provider_message_id : Option String
  pub error : Option String
  pub started_at : Option Time
  pub finished_at : Option Time

-- The rows of every table, in the order of their insertion.
pub record Db : Type 0 where
  pub workspaces : List Workspace
  pub connectors : List Connector
  pub email_poll_states : List EmailPollState
  pub calls : List Call
  pub transcripts : List Transcript
  pub metrics_daily : List MetricDaily
  pub aging_snapshots : List AgingSnapshotDaily
  pub rollup_runs : List RollupRun
  pub lifecycle_destinations : List LifecycleDestination
  pub pipeline_teams : List PipelineTeam
  pub users : List User
  pub teams : List Team
  pub team_members : List TeamMember
  pub ownership_profiles : List OwnershipProfile
  pub contacts : List Contact
  pub pipelines : List Pipeline
  pub stages : List Stage
  pub deals : List Deal
  pub form_submissions : List FormSubmission
  pub interactions : List Interaction
  pub audit_events : List AuditEvent
  pub outbox_events : List OutboxEvent
  pub tickets : List Ticket
  pub channel_accounts : List ChannelAccount
  pub messages : List Message
  pub routing_policies : List RoutingPolicy
  pub routing_tiers : List RoutingTier
  pub agent_presence : List AgentPresence
  pub agent_identities : List AgentTelephonyIdentity
  pub ticket_offers : List TicketOffer
  pub workflows : List Workflow
  pub workflow_runs : List WorkflowRun
  pub workflow_node_runs : List WorkflowNodeRun

abbrev pub empty_db : Db
empty_db = record {
  workspaces = [];
  connectors = [];
  email_poll_states = [];
  calls = [];
  transcripts = [];
  metrics_daily = [];
  aging_snapshots = [];
  rollup_runs = [];
  lifecycle_destinations = [];
  pipeline_teams = [];
  users = [];
  teams = [];
  team_members = [];
  ownership_profiles = [];
  contacts = [];
  pipelines = [];
  stages = [];
  deals = [];
  form_submissions = [];
  interactions = [];
  audit_events = [];
  outbox_events = [];
  tickets = [];
  channel_accounts = [];
  messages = [];
  routing_policies = [];
  routing_tiers = [];
  agent_presence = [];
  agent_identities = [];
  ticket_offers = [];
  workflows = [];
  workflow_runs = [];
  workflow_node_runs = [];
}
