-- ===== src/Delivery/Claims.antt =====
-- The claim of a failed task for a retry.
use towerdesk_backend_clean.Prelude.{
  ℕ, ◌≡◌, refl, false, ◌&&◌, Option, none, List, [], ◌∷◌, ◌==◌, if◌then◌else◌, any, arith,
  Bool-cases, inl, inr,
}
use towerdesk_backend_clean.Result.{ok}
use towerdesk_backend_clean.Delivery.Tasks.{
  TaskStatus, Task, DeliveryWorld, find_task, find_by_id, write, is_claimable, claim_for_retry,
}

abbrev pub claimed : Task → Task
claimed t = if is_claimable t then record t { status = TaskStatus.processing } else t

claimed-unclaimable : (t : Task) → is_claimable (claimed t) ≡ false
claimed-unclaimable t = elim (Bool-cases (is_claimable t)) [ inl e ↦ rw e refl | inr e ↦ rw e e ]

claimed-id : (t : Task) (id : ℕ) → ((claimed t).id == id) ≡ (t.id == id)
claimed-id t id = elim (Bool-cases (is_claimable t)) [ inl e ↦ rw e refl | inr e ↦ rw e refl ]

any-write-claimed :
    (id : ℕ) (ts : List Task)
    → any (λ t. (t.id == id) && is_claimable t) (write id claimed ts) ≡ false
unfolding write
any-write-claimed id [] = refl
any-write-claimed id (t ∷ ts) = elim (Bool-cases (t.id == id)) [
  | inl e ↦
      rw (any, e) (ground (arith, claimed-unclaimable t, claimed-id t id, any-write-claimed id ts))
  | inr e ↦ rw (any, e) (ground (arith, any-write-claimed id ts))
]

-- After a call of `claimForRetry`, whatever it returned, another call for the same task returns null and
-- changes nothing: a task that is claimed can not be claimed again as long as nothing else is called.
pub claim_for_retry-twice :
    (id : ℕ) (w : DeliveryWorld)
    → (o : Option Task) × (v : DeliveryWorld) × (claim_for_retry id w ≡ ok (o, v))
      × (claim_for_retry id v ≡ ok (none, v))
unfolding claim_for_retry find_by_id
claim_for_retry-twice id w = elim (Bool-cases (any (λ t. (t.id == id) && is_claimable t) w.tasks)) [
  | inl e ↦
      let v : DeliveryWorld = record w { tasks = write id claimed w.tasks } in
      (find_task id v.tasks, v, rw e refl, rw (any-write-claimed id w.tasks) refl)
  | inr e ↦ (none, w, rw e refl, rw e refl)
]
