-- ===== src/Request/Runs.antt =====
-- Runs of the service: its operations one after another, while other services change the tables that
-- it only reads; and what holds of the world all along.
pub mod Rows
pub mod Soundness
pub mod Isolation
pub mod Closing
pub mod Trail
use towerdesk_backend_clean.Prelude.{
  ℕ, ◌≡◌, ◌⊎◌, Bool, true, false, ◌&&◌, Option, List, [], ◌∷◌, map, ltb, ◌==◌, has, any, All,
}
use towerdesk_backend_clean.Directory.{Directory}
use towerdesk_backend_clean.Request.Types.{Request, ApprovalStatus}
use towerdesk_backend_clean.Prelude.{AreDistinct}
use towerdesk_backend_clean.Request.Rows.{Audit}
use towerdesk_backend_clean.Result.{ok}
use towerdesk_backend_clean.Request.Steps.Residents.{CreateDto}
use towerdesk_backend_clean.Request.Rows.{FileDto}
use towerdesk_backend_clean.Request.World.{World}
use towerdesk_backend_clean.Request.Callers.{AuthUser}
use towerdesk_backend_clean.Request.Service.{create_resident_request}
use towerdesk_backend_clean.Request.Operations.{Operation, run}
use towerdesk_backend_clean.Request.Moves.Validity.{IsValid}
use towerdesk_backend_clean.Request.Moves.Auditing.{same_approval}

-- One thing that happens: an operation succeeds, a request is created, or the clock and the tables
-- of the other services change in any way.
pub data Happens (w w' : World) : Type 0 where
  operate : (op : Operation) {r : Request} → run op w ≡ ok (r, w') → Happens w w'
  create :
      (user : Option AuthUser) (dto : CreateDto) (files : List FileDto) {r : Request}
      → create_resident_request user dto files w ≡ ok (r, w')
      → Happens w w'
  elsewhere : (now : ℕ) (dir : Directory) → w' ≡ record w { now = now; dir = dir } → Happens w w'

pub data Runs : World → World → Type 0 where
  done : {w : World} → Runs w w
  then : {u v w : World} → Runs u v → Happens v w → Runs u w

abbrev pub ids : List Request → List ℕ
ids rs = map (λ r. r.id) rs

-- Every row is valid, no two rows share an id, and the next id is new.
pub record IsSound (w : World) : Type 0 where
  pub rows_valid : All IsValid w.requests
  pub ids_distinct : AreDistinct (ids w.requests)
  pub ids_used : All (λ k. ltb k w.next_id ≡ true) (ids w.requests)

-- The audit row is of the request, into the status.
abbrev pub is_about : ℕ → ApprovalStatus → Audit → Bool
is_about id status a = (a.request_id == id) && same_approval a.entry.to_status status

-- The status of the approval is the initial one, or the trail has an audit row into it.
abbrev pub IsTrailed : List Audit → Request → Type 0
IsTrailed audits r =
    (r.approval.status ≡ ApprovalStatus.not_required)
    ⊎ (any (is_about r.id r.approval.status) audits ≡ true)
