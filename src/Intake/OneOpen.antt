-- ===== src/Intake/OneOpen.antt =====
-- A contact has one open deal in a pipeline, whatever a form's policy is.
use phera.Common.{ℕ, ◌≤◌, ◌≡◌, Bool, false, List, [], ◌∷◌, ◌==◌, any, where_, length, if◌then◌else◌}
use phera.Models.{Uuid, Deal}
use phera.Session.{Session}
use phera.Intake.{is_open_of}

-- The open deals of a contact in a pipeline.
abbrev pub open_deals : Uuid → Uuid → List Deal → List Deal
open_deals contact pipeline deals = where_ (is_open_of contact pipeline) deals

-- The index ix_deals_open_contact_pipeline.
abbrev pub IsIndexed : List Deal → Type 0
IsIndexed deals = (contact pipeline : Uuid) → length (open_deals contact pipeline deals) ≤ 1

abbrev pub HasOwnIds : List Deal → Type 0
HasOwnIds [] = Unit
HasOwnIds (d ∷ ds) = (any (λ e. e.id == d.id) ds ≡ false) × HasOwnIds ds

abbrev weight : Bool → ℕ
weight b = if b then 1 else 0
