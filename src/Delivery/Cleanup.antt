-- ===== src/Delivery/Cleanup.antt =====
-- `cleanup` of platform-delivery-tasks.service.ts and `pruneExpiredTasks` of
-- delivery-task-retention.service.ts.
use towerdesk_backend_clean.Prelude.{
  ℕ, ◌-◌, ◌*◌, ◌≡◌, refl, ap, sym, subst, Bool, true, false, not, Option, none, some, List, [], ◌∷◌,
  ◌==◌, filter, any, all, is_true, or_else, arith, Bool-cases, inl, inr,
}
use towerdesk_backend_clean.Result.{bad_request, throw_if, terminal_only}
use towerdesk_backend_clean.Action.{After, ◌>>=◌, ◌>>◌, gets, lift}
use towerdesk_backend_clean.Delivery.Rows.{some_same}
use towerdesk_backend_clean.Delivery.Tasks.{
  TaskStatus, Task, DeliveryWorld, Action, same_status, find_task, cleanup_terminal_older_than,
}

abbrev pub default_statuses : List TaskStatus
default_statuses = TaskStatus.succeeded ∷ (TaskStatus.failed ∷ (TaskStatus.retried ∷ []))

abbrev day_ms : ℕ
day_ms = 86400000

-- `pruneExpiredTasks`; the days of retention are those of the environment, unless they are given.
unfoldable pub prune_expired_tasks :
    ℕ → Option ℕ → Option (List TaskStatus) → Option Bool → Action ℕ
prune_expired_tasks retention_days older_than_days statuses dry_run = do
  now ← gets (λ w. w.now)
  cleanup_terminal_older_than (now - or_else older_than_days retention_days * day_ms)
      (some (or_else statuses default_statuses)) dry_run

abbrev pub is_terminal : TaskStatus → Bool
is_terminal s = any (same_status s) default_statuses

-- `dto.statuses?.length ? dto.statuses : …`
abbrev pub chosen_statuses : Option (List TaskStatus) → List TaskStatus
chosen_statuses none = default_statuses
chosen_statuses (some []) = default_statuses
chosen_statuses (some (s ∷ ss)) = s ∷ ss

-- `cleanup`
unfoldable pub cleanup : ℕ → Option ℕ → Option (List TaskStatus) → Option Bool → Action ℕ
unfolding prune_expired_tasks
cleanup retention_days older_than_days statuses dry_run = do
  lift (throw_if (not (all is_terminal (chosen_statuses statuses))) (bad_request terminal_only))
  prune_expired_tasks retention_days older_than_days (some (chosen_statuses statuses)) dry_run

live_differs :
    (s c : TaskStatus) → is_terminal c ≡ true → is_terminal s ≡ false → same_status s c ≡ false
live_differs TaskStatus.pending TaskStatus.pending h n = sym h
live_differs TaskStatus.processing TaskStatus.processing h n = sym h
live_differs TaskStatus.succeeded TaskStatus.succeeded h n = n
live_differs TaskStatus.failed TaskStatus.failed h n = n
live_differs TaskStatus.retried TaskStatus.retried h n = n
live_differs _ _ h n = refl

any-terminal :
    (s : TaskStatus) (chosen : List TaskStatus)
    → all is_terminal chosen ≡ true
    → is_terminal s ≡ false
    → any (same_status s) chosen ≡ false
any-terminal s [] h n = refl
any-terminal s (c ∷ cs) h n = ground (arith, live_differs s c, any-terminal s cs)

find-filter :
    (id : ℕ) (p : Task → Bool) (ts : List Task) {t : Task}
    → find_task id ts ≡ some t
    → p t ≡ true
    → find_task id (filter p ts) ≡ some t
find-filter id p [] h k = cc
find-filter id p (u ∷ us) {t} h k = elim (Bool-cases (u.id == id)) [
  | inl e ↦
      let same : u ≡ t = some_same (rw e at h) in
      rw (subst (λ v. p v ≡ true) (sym same) k, e) (ap (λ x. some x) same)
  | inr e ↦ elim (Bool-cases (p u)) [
    | inl f ↦ rw (f, e) (find-filter id p us (rw e at h) k)
    | inr f ↦ rw f (find-filter id p us (rw e at h) k)
  ]
]

-- A cleanup leaves each task that waits or is processed where it was, whatever statuses are asked for.
pub cleanup-live :
    (retention_days : ℕ) (older_than_days : Option ℕ) (statuses : Option (List TaskStatus))
    → (dry_run : Option Bool) (w : DeliveryWorld) (id : ℕ) (t : Task)
    → find_task id w.tasks ≡ some t
    → is_terminal t.status ≡ false
    → After
        (λ _ v. find_task id v.tasks ≡ some t)
        (cleanup retention_days older_than_days statuses dry_run w)
unfolding cleanup cleanup_terminal_older_than
cleanup-live retention_days older_than_days statuses dry_run w id t h live =
    elim (Bool-cases (all is_terminal (chosen_statuses statuses))) [
      | inr e ↦ rw (After, e) tt
      | inl e ↦ elim (Bool-cases (is_true dry_run)) [
        | inl f ↦ rw (After, e, f) h
        | inr f ↦
            rw (After, e, f)
              (find-filter id _ w.tasks h
                (ground (arith, any-terminal t.status (chosen_statuses statuses))))
      ]
    ]
