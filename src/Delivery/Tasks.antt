-- ===== src/Delivery/Tasks.antt =====
-- `DeliveryTasksRepo`: the table of the tasks and its operations.
use towerdesk_backend_clean.Prelude.{
  ℕ, suc, Bool, true, false, not, ◌&&◌, ◌||◌, Option, none, some, List, [], ◌∷◌, ◌++◌, ◌==◌,
  if◌then◌else◌, find, filter, any, length, take, is_some, is_true, or_else, or_option, ltb, Text,
}
use towerdesk_backend_clean.Result.{ok, err, record_not_found}
use towerdesk_backend_clean.Action as Stateful
use towerdesk_backend_clean.Action.{pure, ◌>>=◌, ◌>>◌, gets, lift}

pub data TaskKind : Type 0 where
  auth_password_email push_notification broadcast_fanout : TaskKind

pub data TaskStatus : Type 0 where
  pending processing succeeded failed retried : TaskStatus

-- A row; of the payload, the hash of the token of a resident's invite, which the worker reads.
pub record Task : Type 0 where
  pub id : ℕ
  pub kind : TaskKind
  pub status : TaskStatus
  pub invite_token_hash : Option ℕ
  pub attempt_count : ℕ
  pub max_attempts : ℕ
  pub last_attempt_at : Option ℕ
  pub processing_started_at : Option ℕ
  pub completed_at : Option ℕ
  pub last_error : Option Text
  pub retried_at : Option ℕ
  pub replaced_by_task_id : Option ℕ
  pub created_at : ℕ

pub data InviteStatus : Type 0 where
  sent failed accepted : InviteStatus

pub record Invite : Type 0 where
  pub token_hash : ℕ
  pub status : InviteStatus
  pub failure_reason : Option Text

pub record DeliveryWorld : Type 0 where
  pub now : ℕ
  pub next_id : ℕ
  pub tasks : List Task
  pub invites : List Invite

abbrev pub Action : Type 0 → Type 0
Action A = Stateful.Action DeliveryWorld A

abbrev pub same_status : TaskStatus → TaskStatus → Bool
same_status TaskStatus.pending TaskStatus.pending = true
same_status TaskStatus.processing TaskStatus.processing = true
same_status TaskStatus.succeeded TaskStatus.succeeded = true
same_status TaskStatus.failed TaskStatus.failed = true
same_status TaskStatus.retried TaskStatus.retried = true
same_status _ _ = false

-- `create`
unfoldable pub create : TaskKind → Option ℕ → Option ℕ → Action Task
create kind invite max w =
    let t : Task = record {
      id = w.next_id;
      kind = kind;
      status = TaskStatus.pending;
      invite_token_hash = invite;
      attempt_count = 0;
      max_attempts = or_else max 5;
      last_attempt_at = none;
      processing_started_at = none;
      completed_at = none;
      last_error = none;
      retried_at = none;
      replaced_by_task_id = none;
      created_at = w.now;
    } in
    ok (t, record w { next_id = suc w.next_id; tasks = w.tasks ++ (t ∷ []) })

-- `findById`
abbrev pub find_task : ℕ → List Task → Option Task
find_task id tasks = find (λ t. t.id == id) tasks

unfoldable pub find_by_id : ℕ → Action (Option Task)
find_by_id id = gets (λ w. find_task id w.tasks)

unfoldable pub write : ℕ → (Task → Task) → List Task → List Task
write id f [] = []
write id f (t ∷ ts) = (if t.id == id then f t else t) ∷ write id f ts

-- `update`; a task that is not there is an error of Prisma.
unfoldable pub update : ℕ → (Task → Task) → Action Task
unfolding write
update id f w = elim (find_task id w.tasks) [
  | none ↦ err record_not_found
  | some t ↦ ok (f t, record w { tasks = write id f w.tasks })
]

-- The task has succeeded, or another one has its place.
abbrev pub is_settled : Task → Bool
is_settled t = same_status t.status TaskStatus.succeeded || same_status t.status TaskStatus.retried

abbrev pub to_processing : ℕ → Task → Task → Task
to_processing now existing t = record t {
  status = TaskStatus.processing;
  attempt_count = suc existing.attempt_count;
  processing_started_at = or_option existing.processing_started_at (some now);
  last_attempt_at = some now;
  last_error = none;
}

-- `markProcessing`
unfoldable pub mark_processing : ℕ → Action (Option Task)
mark_processing id w = elim (find_task id w.tasks) [
  | none ↦ ok (none, w)
  | some t ↦ elim (is_settled t) [
    | true ↦ ok (some t, w)
    | false ↦ (do u ← update id (to_processing w.now t); pure (some u)) w
  ]
]

-- The condition of `claimForRetry`.
abbrev pub is_claimable : Task → Bool
is_claimable t =
    same_status t.status TaskStatus.failed
    && not (is_some t.retried_at)
    && not (is_some t.replaced_by_task_id)

-- `claimForRetry`
unfoldable pub claim_for_retry : ℕ → Action (Option Task)
claim_for_retry id w =
    if any (λ t. (t.id == id) && is_claimable t) w.tasks
    then find_by_id id (record w {
      tasks =
          write id (λ t. if is_claimable t then record t { status = TaskStatus.processing } else t)
            w.tasks;
    })
    else ok (none, w)

-- `releaseRetryClaim`
unfoldable pub release_retry_claim : ℕ → Action Task
release_retry_claim id = update id (λ t. record t { status = TaskStatus.failed })

-- `markRetried`
unfoldable pub mark_retried : ℕ → ℕ → Action Task
mark_retried id replacement = do
  now ← gets (λ w. w.now)
  update id (λ t. record t {
    status = TaskStatus.retried;
    retried_at = some now;
    replaced_by_task_id = some replacement;
    completed_at = some now;
  })

-- `truncateError`
abbrev pub truncate_error : Text → Text
truncate_error message = take 2000 message

-- `markRetryScheduled`
unfoldable pub mark_retry_scheduled : ℕ → Text → Action Task
mark_retry_scheduled id message =
    update id
      (λ t. record t { status = TaskStatus.pending; last_error = some (truncate_error message) })

-- `markFailed`
unfoldable pub mark_failed : ℕ → Text → Action Task
mark_failed id message = do
  now ← gets (λ w. w.now)
  update id (λ t. record t {
    status = TaskStatus.failed;
    completed_at = some now;
    last_error = some (truncate_error message);
  })

-- `markSucceeded`
unfoldable pub mark_succeeded : ℕ → Action Task
mark_succeeded id = do
  now ← gets (λ w. w.now)
  update id
      (λ t. record t { status = TaskStatus.succeeded; completed_at = some now; last_error = none })

abbrev pub is_expired : ℕ → List TaskStatus → Task → Bool
is_expired older_than statuses t =
    any (same_status t.status) statuses && ltb t.created_at older_than

-- `cleanupTerminalOlderThan`, with the statuses that are cleaned up by default.
unfoldable pub cleanup_terminal_older_than : ℕ → Option (List TaskStatus) → Option Bool → Action ℕ
cleanup_terminal_older_than older_than statuses dry_run w =
    let chosen =
      or_else statuses (TaskStatus.succeeded ∷ (TaskStatus.failed ∷ (TaskStatus.retried ∷ []))) in
    let count = length (filter (is_expired older_than chosen) w.tasks) in
    if is_true dry_run
    then ok (count, w)
    else ok (count, record w { tasks = filter (λ t. not (is_expired older_than chosen t)) w.tasks })
