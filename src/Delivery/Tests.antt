-- ===== src/Delivery/Tests.antt =====
-- A task of a password e-mail whose attempts are used up, and its claim for a retry.
use towerdesk_backend_clean.Prelude.{ℕ, ◌≡◌, refl, Option, none, some, List, [], ◌∷◌, Text, codes}
use towerdesk_backend_clean.Result.{ok}
use towerdesk_backend_clean.Action.{After, Returns}
use towerdesk_backend_clean.Delivery.Tasks.{
  claim_for_retry, TaskKind, TaskStatus, Task, DeliveryWorld, find_task,
}
use towerdesk_backend_clean.Delivery.Passwords.{process_all}
use towerdesk_backend_clean.Delivery.Claims.{claim_for_retry-twice}
use towerdesk_backend_clean.Delivery.Cleanup.{cleanup, cleanup-live}
use towerdesk_backend_clean.Delivery.Attempts.{final_status, process_all-final_status}

abbrev email : Task
email = record {
  id = 4;
  kind = TaskKind.auth_password_email;
  status = TaskStatus.pending;
  invite_token_hash = none;
  attempt_count = 0;
  max_attempts = 2;
  last_attempt_at = none;
  processing_started_at = none;
  completed_at = none;
  last_error = none;
  retried_at = none;
  replaced_by_task_id = none;
  created_at = 0;
}

abbrev outbox : DeliveryWorld
outbox = record { now = 0; next_id = 5; tasks = email ∷ []; invites = [] }

abbrev timeouts : List (ℕ × Option Text)
timeouts = (10, some (codes "timeout")) ∷ ((20, some (codes "timeout")) ∷ [])

used_up : final_status email timeouts ≡ TaskStatus.failed
used_up = refl

process_all-final_status_example :
    Returns
      (λ _ v.
        (u : Task) × (find_task 4 v.tasks ≡ some u) × (u.status ≡ final_status email timeouts))
      (process_all 4 timeouts outbox)
process_all-final_status_example = process_all-final_status 4 timeouts outbox email refl refl refl

-- A long time after, with a task that was done.
abbrev later : DeliveryWorld
later = record outbox {
  now = 1000000000000;
  tasks =
      email ∷ (record email { id = 3; status = TaskStatus.succeeded; completed_at = some 5 } ∷ []);
}

abbrev failed_email : Task
failed_email = record email { status = TaskStatus.failed; attempt_count = 2 }

abbrev failures : DeliveryWorld
failures = record outbox { tasks = failed_email ∷ [] }

-- A cleanup of everything that is over leaves the task that waits.
cleanup-live_example :
    After (λ _ v. find_task 4 v.tasks ≡ some email) (cleanup 30 (some 0) none none later)
cleanup-live_example = cleanup-live 30 (some 0) none none later 4 email refl refl

claim_for_retry-twice_example :
    (o : Option Task) × (v : DeliveryWorld) × (claim_for_retry 4 failures ≡ ok (o, v))
    × (claim_for_retry 4 v ≡ ok (none, v))
claim_for_retry-twice_example = claim_for_retry-twice 4 failures
