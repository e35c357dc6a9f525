-- ===== src/Api/Requests.antt =====
-- The requests of src/phera/api/routes/tickets.py, inbox.py and contacts.py that write, and what other
-- sessions see when they fail.
use phera.Common.{String, ◌≡◌, Option}
use phera.Models.{Uuid, Ticket, Contact, Deal, Message}
use phera.Session.{M, Session, Error, err}
use phera.Session.Atomic.{IsUnseen}
use phera.Authz.Actor.{Actor}
use phera.Api.Tickets.{TicketCreate, TicketUpdate, create_ticket, update_ticket, assign_ticket}
use phera.Api.Enrichment.{TicketDetail}
use phera.Api.Tickets.Outcome.{
  create_ticket-IsAtomic, update_ticket-IsAtomic, assign_ticket-IsAtomic,
}
use phera.Api.Reply.{send_ticket_message}
use phera.Api.Providers.{Providers}
use phera.Api.Reply.Outcome.{send_ticket_message-IsUnseen}
use phera.Api.Inbox.{claim_ticket, update_presence}
use phera.Api.Inbox.Outcome.{claim_ticket-IsAtomic, update_presence-IsAtomic}
use phera.Api.Contacts.{ContactCreate, create_contact, update_contact}
use phera.Models.{Call, Team}
use phera.Api.Teams.{TeamMemberOut, create_team, add_team_member, remove_team_member}
use phera.Api.Teams.Members.{
  create_team-IsAtomic, add_team_member-IsAtomic, remove_team_member-IsAtomic,
}
use phera.Api.Calls.{CallCreate, start_call}
use phera.Api.Calls.Outcome.{start_call-IsAtomic}
use phera.Api.Pipelines.{PipelineCreate, PipelineOut, create_pipeline, replace_pipeline_teams}
use phera.Api.Deals.{DealCreate, create_deal, move_deal_stage, assign_deal}
use phera.Api.Deals.Stages.{move_deal_stage-IsAtomic, assign_deal-IsAtomic}
use phera.Common.{List}
use phera.Common.{Bool, Dict}
use phera.Json.{Json}
use phera.Session.{Result}
use phera.Tickets.Contacts.{Inbound}
use phera.Tickets.Inbound.{Outcome, ingest_inbound_message}
use phera.Tickets.Inbound.Quiet.{ingest_inbound_message-IsAtomic}
use phera.Voice.Events.{exotel_call_event}
use phera.Voice.Routes.{exotel_route_call}
use phera.Voice.Outcome.{exotel_call_event-IsAtomic, exotel_route_call-IsAtomic}
use phera.Api.Outcomes.{
  create_contact-IsAtomic, update_contact-IsAtomic, create_pipeline-IsAtomic,
  replace_pipeline_teams-IsAtomic, create_deal-IsAtomic,
}

-- A request that writes, of somebody in a workspace.
pub data IsWrite (workspace : Uuid) (actor : Actor) : (A : Type 0) → M A → Type 1 where
  creates :
      (body : TicketCreate) → IsWrite workspace actor Ticket (create_ticket workspace actor body)
  updates :
      (id : Uuid) (body : TicketUpdate)
      → IsWrite workspace actor TicketDetail (update_ticket workspace actor id body)
  assigns :
      (id : Uuid) (user : String)
      → IsWrite workspace actor Ticket (assign_ticket workspace actor id user)
  replies :
      (providers : Providers) (id : Uuid) (body : String)
      → IsWrite workspace actor Message (send_ticket_message providers workspace actor id body)
  claims : (id : Uuid) → IsWrite workspace actor TicketDetail (claim_ticket workspace actor id)
  sets_presence :
      (status : String) → IsWrite workspace actor Unit (update_presence workspace actor status)
  creates_contact :
      (body : ContactCreate) → IsWrite workspace actor Contact (create_contact workspace actor body)
  renames_contact :
      (id : Uuid) (name : Option String)
      → IsWrite workspace actor Contact (update_contact workspace actor id name)
  creates_pipeline :
      (body : PipelineCreate)
      → IsWrite workspace actor PipelineOut (create_pipeline workspace actor body)
  replaces_teams :
      (id : Uuid) (ids : List Uuid)
      → IsWrite workspace actor (List Uuid) (replace_pipeline_teams workspace actor id ids)
  creates_deal :
      (body : DealCreate) → IsWrite workspace actor Deal (create_deal workspace actor body)
  moves_deal :
      (id stage : Uuid) → IsWrite workspace actor Deal (move_deal_stage workspace actor id stage)
  assigns_deal :
      (id : Uuid) (user : String)
      → IsWrite workspace actor Deal (assign_deal workspace actor id user)
  starts_call : (body : CallCreate) → IsWrite workspace actor Call (start_call workspace actor body)
  creates_team :
      (name slug : String) → IsWrite workspace actor Team (create_team workspace actor name slug)
  adds_member :
      (team : Uuid) (user role : String)
      → IsWrite workspace actor TeamMemberOut (add_team_member workspace actor team user role)
  removes_member :
      (team : Uuid) (user : String)
      → IsWrite workspace actor Unit (remove_team_member workspace actor team user)
  -- What comes in from outside has no actor.
  routes_call :
      (decrypt : String → Result (Dict Json)) (le : String → String → Bool) (params : Dict String)
      (token : String)
      → IsWrite workspace actor String (exotel_route_call decrypt le params token)
  notes_call :
      (decrypt : String → Result (Dict Json)) (params : Dict String) (token : String)
      → IsWrite workspace actor (Uuid × String) (exotel_call_event decrypt params token)
  takes_in :
      (inbound : Inbound)
      → IsWrite workspace actor Outcome (ingest_inbound_message workspace inbound)

-- A writing request about tickets, replies, presence, contacts, pipelines, deals, calls or teams, a callback of the
-- telephony provider, or the taking in of a message, that fails, for whatever reason and also at its
-- commit or after its provider raised, is not seen outside its session: nothing is committed, no outbox id is pushed and no inbox event is published.
pub IsWrite-IsUnseen :
    {A : Type 0} (workspace : Uuid) (actor : Actor) (m : M A) (s : Session) (e : Error)
    → IsWrite workspace actor A m
    → (m s).0 ≡ err e
    → IsUnseen s (m s).1
IsWrite-IsUnseen workspace actor _ s e (creates body) =
    create_ticket-IsAtomic workspace actor body s e
IsWrite-IsUnseen workspace actor _ s e (updates id body) =
    update_ticket-IsAtomic workspace actor id body s e
IsWrite-IsUnseen workspace actor _ s e (assigns id user) =
    assign_ticket-IsAtomic workspace actor id user s e
IsWrite-IsUnseen workspace actor _ s e (replies providers id body) =
    send_ticket_message-IsUnseen providers workspace actor id body s e
IsWrite-IsUnseen workspace actor _ s e (claims id) = claim_ticket-IsAtomic workspace actor id s e
IsWrite-IsUnseen workspace actor _ s e (sets_presence status) =
    update_presence-IsAtomic workspace actor status s e
IsWrite-IsUnseen workspace actor _ s e (creates_contact body) =
    create_contact-IsAtomic workspace actor body s e
IsWrite-IsUnseen workspace actor _ s e (renames_contact id name) =
    update_contact-IsAtomic workspace actor id name s e
IsWrite-IsUnseen workspace actor _ s e (creates_pipeline body) =
    create_pipeline-IsAtomic workspace actor body s e
IsWrite-IsUnseen workspace actor _ s e (replaces_teams id ids) =
    replace_pipeline_teams-IsAtomic workspace actor id ids s e
IsWrite-IsUnseen workspace actor _ s e (creates_deal body) =
    create_deal-IsAtomic workspace actor body s e
IsWrite-IsUnseen workspace actor _ s e (moves_deal id stage) =
    move_deal_stage-IsAtomic workspace actor id stage s e
IsWrite-IsUnseen workspace actor _ s e (assigns_deal id user) =
    assign_deal-IsAtomic workspace actor id user s e
IsWrite-IsUnseen workspace actor _ s e (starts_call body) =
    start_call-IsAtomic workspace actor body s e
IsWrite-IsUnseen workspace actor _ s e (creates_team name slug) =
    create_team-IsAtomic workspace actor name slug s e
IsWrite-IsUnseen workspace actor _ s e (adds_member team user role) =
    add_team_member-IsAtomic workspace actor team user role s e
IsWrite-IsUnseen workspace actor _ s e (removes_member team user) =
    remove_team_member-IsAtomic workspace actor team user s e
IsWrite-IsUnseen workspace actor _ s e (routes_call decrypt le params token) =
    exotel_route_call-IsAtomic decrypt le params token s e
IsWrite-IsUnseen workspace actor _ s e (notes_call decrypt params token) =
    exotel_call_event-IsAtomic decrypt params token s e
IsWrite-IsUnseen workspace actor _ s e (takes_in inbound) =
    ingest_inbound_message-IsAtomic workspace inbound s e
