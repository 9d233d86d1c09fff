-- ===== src/Parking/Types.antt =====
-- The rows of prisma/schema.prisma that the parking service reads and writes.
use towerdesk_backend_clean.Prelude.{ℕ, Bool, Option, Text}

pub data SlotType : Type 0 where
  car bike ev : SlotType

pub record Slot : Type 0 where
  pub id : ℕ
  pub org_id : ℕ
  pub building_id : ℕ
  pub code : Text
  pub level : Option Text
  pub type : SlotType
  pub is_covered : Bool
  pub is_active : Bool
  pub created_at : ℕ

-- A row of `ParkingAllocation`.
pub record Allocation : Type 0 where
  pub id : ℕ
  pub org_id : ℕ
  pub building_id : ℕ
  pub slot_id : ℕ
  pub occupancy_id : Option ℕ
  pub unit_id : Option ℕ
  pub start_date : ℕ
  pub end_date : Option ℕ
  pub created_at : ℕ

pub record Vehicle : Type 0 where
  pub id : ℕ
  pub org_id : ℕ
  pub occupancy_id : ℕ
  pub plate_number : Text
  pub label : Option Text
  pub created_at : ℕ

-- The columns of `Unit` and `Lease` that parking reads.
pub record UnitPlace : Type 0 where
  pub id : ℕ
  pub building_id : ℕ

pub record LeaseRow : Type 0 where
  pub id : ℕ
  pub org_id : ℕ
  pub occupancy_id : ℕ
  pub is_active : Bool

-- The actions of `LeaseActivity` that parking writes.
pub data ActivityAction : Type 0 where
  parking_allocated parking_allocation_ended vehicle_added : ActivityAction
  vehicle_updated vehicle_deleted : ActivityAction

-- A row of `LeaseActivity`; of the payload, how many rows it tells of.
pub record Activity : Type 0 where
  pub org_id : ℕ
  pub lease_id : ℕ
  pub action : ActivityAction
  pub changed_by_user_id : Option ℕ
  pub count : ℕ

-- To whom a slot is given.
pub data Target : Type 0 where
  occupancy unit : ℕ → Target
