-- ===== src/Parking/Board.antt =====
-- The abstract view of parking: which allocation has each slot, and what a call does to that.
use towerdesk_backend_clean.Prelude.{
  ℕ, ◌≡◌, Bool, not, Option, none, some, List, if◌then◌else◌, length, find, has, is_id, keep, All,
  AreDistinct, ◌==◌, ◌&&◌,
}
use towerdesk_backend_clean.Result.{ok}
use towerdesk_backend_clean.Request.Callers.{AuthUser, org_of}
use towerdesk_backend_clean.Parking.Types.{Allocation, Target}
use towerdesk_backend_clean.Parking.World.{holds}
use towerdesk_backend_clean.Parking.Allocating.{AllocateDto, allocation_target, new_allocation}
use towerdesk_backend_clean.Parking.Operations.{
  Call, to_allocate, to_end_allocation, to_end_for_occupancy, to_end_for_unit,
}

abbrev pub Board : Type 0
Board = ℕ → Option Allocation

-- The allocation that has the slot.
abbrev pub board : List Allocation → Board
board allocations slot = find (holds slot) allocations

abbrev pub Unchanged : Board → Board → Type 0
Unchanged before after = (slot : ℕ) → after slot ≡ before slot

-- The allocations that pass are given back.
abbrev pub Released : (Allocation → Bool) → Board → Board → Type 0
Released p before after = (slot : ℕ) → after slot ≡ keep (λ a. not (p a)) (before slot)

-- The slots are those that were asked for, or as many.
abbrev pub AreAsked : Option (List ℕ) → Option ℕ → List ℕ → Type 0
AreAsked (some ids) none slots = slots ≡ ids
AreAsked none (some n) slots = length slots ≡ n
AreAsked _ _ slots = ⊥

-- Distinct slots that nobody had are given to a target, each by an allocation of its own.
abbrev pub AreGiven : ℕ → ℕ → ℕ → Target → List ℕ → Board → Board → Type 0
AreGiven org building now target slots before after =
    AreDistinct slots
    × All (λ slot. before slot ≡ none) slots
    × (id : ℕ → ℕ) × ((slot : ℕ)
        → after slot ≡ (
            if has slots slot
            then some (new_allocation (id slot) org building target now slot)
            else before slot))

-- What `allocate` does.
abbrev pub Given : Option AuthUser → ℕ → AllocateDto → ℕ → Board → Board → Type 0
Given user building dto now before after =
    (org : ℕ) × (target : Target) × (slots : List ℕ) × (org_of user ≡ some org)
    × (allocation_target dto.occupancy_id dto.unit_id ≡ ok target)
    × AreAsked dto.slot_ids dto.count slots
    × AreGiven org building now target slots before after

-- The rows that belong to the organisation of the user.
abbrev pub of_caller : Option AuthUser → Allocation → Bool
of_caller user a = is_id (org_of user) a.org_id

-- What each call does to the board.
abbrev pub Does : Option AuthUser → Call → ℕ → Board → Board → Type 0
Does user (to_allocate building dto) now before after = Given user building dto now before after
Does user (to_end_allocation id end) now before after = Released (λ a. a.id == id) before after
Does user (to_end_for_occupancy o end) now before after =
    Released (λ a. of_caller user a && is_id a.occupancy_id o) before after
Does user (to_end_for_unit u end) now before after =
    Released (λ a. of_caller user a && is_id a.unit_id u) before after
Does user _ now before after = Unchanged before after
