-- ===== src/Parking/Sound/Released.antt =====
-- What the handlers that end allocations leave.
use towerdesk_backend_clean.Prelude.{
  ℕ, ◌≡◌, refl, ◌∙◌, Bool, not, ◌&&◌, Option, some, List, [], ◌∷◌, find, is_some, is_id, keep, All,
  or_else, ◌==◌, arith, Bool-cases, inl, inr,
}
use towerdesk_backend_clean.Result.{
  throw_if, or_throw, not_found, bad_request, allocation_not_found, allocation_already_ended,
}
use towerdesk_backend_clean.Action.{pure, ◌>>=◌, ◌>>◌, After, After-bind, After-reader, After-lift}
use towerdesk_backend_clean.Request.Callers.{AuthUser, org_of}
use towerdesk_backend_clean.Parking.Types.{Allocation, LeaseRow, ActivityAction}
use towerdesk_backend_clean.Parking.World.{ParkingWorld, is_active, holds}
use towerdesk_backend_clean.Parking.Allocating.{tell_lease}
use towerdesk_backend_clean.Parking.Ending.{
  find_allocation, end_where, write_ends, end_allocation, end_all_for_occupancy, end_all_for_unit,
  is_active_of_occupancy, is_active_of_unit, is_unit_in_org, if_any,
}
use towerdesk_backend_clean.Parking.Board.{Board, board, Released, of_caller}
use towerdesk_backend_clean.Parking.Sound.Allocations.{end_where-AreExclusive, find-end_where}
use towerdesk_backend_clean.Parking.Sound.Readers.{
  org_scope-Reads, active_lease-Reads, allocation_lease-Reads, tell_lease-After,
}
use towerdesk_backend_clean.Parking.Sound.{IsSound, HasTarget}

end_where-HasTarget :
    (p : Allocation → Bool) (end : ℕ) (l : List Allocation)
    → All HasTarget l
    → All HasTarget (end_where p end l)
unfolding end_where
end_where-HasTarget p end [] h = tt
end_where-HasTarget p end (a ∷ l) h = elim (Bool-cases (p a)) [
  | inl e ↦ rw e (h.0, end_where-HasTarget p end l h.1)
  | inr e ↦ rw e (h.0, end_where-HasTarget p end l h.1)
]

-- The tables are sound, and the allocations that pass are given back.
abbrev pub Ended : (Allocation → Bool) → ParkingWorld → ParkingWorld → Type 0
Ended p w v = IsSound v × Released p (board w.allocations) (board v.allocations)

write_ends-Released :
    (p : Allocation → Bool) (end : ℕ) (w : ParkingWorld)
    → IsSound w
    → After (λ _ v. Ended p w v) (write_ends p end w)
unfolding write_ends
write_ends-Released p end w (exclusive, targets, distinct, used) = (
  (
    end_where-AreExclusive p end w.allocations exclusive,
    end_where-HasTarget p end w.allocations targets,
    distinct,
    used,
  ),
  λ slot. find-end_where p end slot w.allocations exclusive,
)

-- The board shows active allocations only, so a test may leave it out that they are active.
Released-same :
    (p q : Allocation → Bool) (l : List Allocation) (after : Board)
    → ((a : Allocation) → p a ≡ (q a && is_active a))
    → Released p (board l) after
    → Released q (board l) after
Released-same p q l after same r slot = r slot ∙ kept l
  where
    kept :
        (m : List Allocation)
        → keep (λ a. not (p a)) (find (holds slot) m) ≡ keep (λ a. not (q a)) (find (holds slot) m)
    kept [] = refl
    kept (a ∷ m) = elim (Bool-cases (holds slot a)) [
      | inl e ↦ rw e (ground (arith, same a))
      | inr e ↦ rw e (kept m)
    ]

-- The same under a test that leaves it out that the allocation is active.
write_ends-Ended :
    (p q : Allocation → Bool) (end : ℕ) (w : ParkingWorld)
    → IsSound w
    → ((a : Allocation) → p a ≡ (q a && is_active a))
    → After (λ _ v. Ended q w v) (write_ends p end w)
unfolding write_ends
write_ends-Ended p q end w sound same =
    let (kept, released) = write_ends-Released p end w sound in
    (kept, Released-same p q w.allocations (board (end_where p end w.allocations)) same released)

-- The end, and then the activity.
write_ends-tell_lease :
    (p q : Allocation → Bool) (end : ℕ) (w : ParkingWorld)
    → (org : ℕ) (lease : ℕ → Option LeaseRow) (user : Option AuthUser) (said : ℕ → ℕ) → IsSound w
    → ((a : Allocation) → p a ≡ (q a && is_active a))
    → After
        (λ _ v. Ended q w v)
        ((write_ends p end >>= λ count.
            tell_lease org (lease count) ActivityAction.parking_allocation_ended user (said count)
            >> pure count)
          w)
write_ends-tell_lease p q end w org lease user said sound same =
    After-bind (λ _ v. Ended q w v) (write_ends p end) _ w (λ _ v. Ended q w v)
      (write_ends-Ended p q end w sound same)
      (λ count v ended.
        After-bind (λ _ u. Ended q w u)
          (tell_lease org (lease count) ActivityAction.parking_allocation_ended user (said count)) _
          v (λ _ u. Ended q w u)
          (tell_lease-After (Ended q w) org (lease count) ActivityAction.parking_allocation_ended
            user (said count) v (λ rows. ended))
          (λ _ u r. r))

pub end_all_for_occupancy-Released :
    (user : Option AuthUser) (o : ℕ) (end : Option ℕ) (w : ParkingWorld)
    → IsSound w
    → After
        (λ _ v. Ended (λ a. of_caller user a && is_id a.occupancy_id o) w v)
        (end_all_for_occupancy user o end w)
unfolding end_all_for_occupancy
end_all_for_occupancy-Released user o end w sound =
    After-reader _ _ _ w _ (org_scope-Reads user) (λ org is_org.
      After-reader _ _ _ w _ (active_lease-Reads org o) (λ context _.
        write_ends-tell_lease (is_active_of_occupancy org o)
          (λ a. of_caller user a && is_id a.occupancy_id o) (or_else end w.now) w org
          (λ count. if_any count context.1) user (λ count. count) sound
          (λ a. rw is_org (ground arith))))

pub end_all_for_unit-Released :
    (user : Option AuthUser) (u : ℕ) (end : Option ℕ) (w : ParkingWorld)
    → IsSound w
    → After
        (λ _ v. Ended (λ a. of_caller user a && is_id a.unit_id u) w v)
        (end_all_for_unit user u end w)
unfolding end_all_for_unit
end_all_for_unit-Released user u end w sound =
    After-reader _ _ _ w _ (org_scope-Reads user) (λ org is_org.
      elim (Bool-cases (is_unit_in_org org u w)) [
        | inr e ↦ rw (After, e) tt
        | inl e ↦ rw (After, e) (in_org org is_org)
      ])
  where
    in_org :
        (org : ℕ)
        → org_of user ≡ some org
        → After
            (λ _ v. Ended (λ a. of_caller user a && is_id a.unit_id u) w v)
            (write_ends (is_active_of_unit org u) (or_else end w.now) w)
    in_org org is_org =
        write_ends-Ended (is_active_of_unit org u) (λ a. of_caller user a && is_id a.unit_id u)
          (or_else end w.now) w sound (λ a. rw is_org (ground arith))

pub end_allocation-Released :
    (user : Option AuthUser) (id : ℕ) (end : Option ℕ) (w : ParkingWorld)
    → IsSound w
    → After (λ _ v. Ended (λ a. a.id == id) w v) (end_allocation user id end w)
unfolding end_allocation
end_allocation-Released user id end w sound =
    After-reader _ _ _ w _ (org_scope-Reads user) (λ org _.
      After-lift _
        (or_throw (find_allocation org id w.allocations) (not_found allocation_not_found)) _ w
        (λ a _.
          After-lift _ (throw_if (is_some a.end_date) (bad_request allocation_already_ended)) _ w
            (λ _ _. After-reader _ _ _ w _ (allocation_lease-Reads org a.occupancy_id) (λ lease _.
              After-bind _ (write_ends (λ b. b.id == id) (or_else end w.now)) _ w
                (λ _ v. Ended (λ b. b.id == id) w v)
                (write_ends-Released (λ b. b.id == id) (or_else end w.now) w sound)
                (λ _ v p.
                  After-lift (λ _ v. Ended (λ b. b.id == id) w v)
                    (or_throw (find_allocation org id v.allocations)
                      (not_found allocation_not_found))
                    _ v
                    (λ again _.
                      After-bind (λ _ v. Ended (λ b. b.id == id) w v)
                        (tell_lease org lease ActivityAction.parking_allocation_ended user 1) _ v
                        (λ _ v. Ended (λ b. b.id == id) w v)
                        (tell_lease-After (Ended (λ b. b.id == id) w) org lease
                          ActivityAction.parking_allocation_ended user 1 v (λ rows. p))
                        (λ _ u q. q)))))))
