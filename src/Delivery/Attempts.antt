-- ===== src/Delivery/Attempts.antt =====
-- Attempts at a task of a password e-mail, one after another.
use towerdesk_backend_clean.Prelude.{
  ℕ, suc, ◌+◌, ◌≡◌, refl, ap, ◌∙◌, Bool, true, false, not, Option, none, some, List, [], ◌∷◌,
  if◌then◌else◌, any, is_some, length, leb, Text, arith, Bool-cases, inl, inr,
}
use towerdesk_backend_clean.Action.{Returns, Returns-bind, Returns-map}
use towerdesk_backend_clean.Delivery.Tasks.{
  TaskStatus, Task, DeliveryWorld, find_task, is_settled, to_processing,
}
use towerdesk_backend_clean.Delivery.Passwords.{is_password, process_task, process_all}
use towerdesk_backend_clean.Delivery.Rows.{
  HasRow, processed, attempted, ended_row, again_row, process_task-Returns,
}

-- The row after all attempts.
abbrev pub processed_all : List (ℕ × Option Text) → Task → Task
processed_all [] t = t
processed_all (a ∷ rest) t = processed_all rest (processed a.0 a.1 t)

abbrev pub is_sent : ℕ × Option Text → Bool
is_sent a = not (is_some a.1)

-- The status after attempts of which some may have succeeded.
abbrev pub final_status : Task → List (ℕ × Option Text) → TaskStatus
final_status t [] = t.status
final_status t (a ∷ rest) =
    if any is_sent (a ∷ rest)
    then TaskStatus.succeeded
    else if leb t.max_attempts (t.attempt_count + length (a ∷ rest))
    then TaskStatus.failed
    else TaskStatus.pending

processed_all-settled :
    (rest : List (ℕ × Option Text)) (t : Task) → is_settled t ≡ true → processed_all rest t ≡ t
processed_all-settled [] t h = refl
processed_all-settled (a ∷ rest) t h = rw h (processed_all-settled rest t h)

add_one : (n : ℕ) → n + 1 ≡ suc n
add_one n = omega arith

add_suc : (n m : ℕ) → n + suc (suc m) ≡ suc n + suc m
add_suc n m = omega arith

-- A failed attempt first.
final_status-failed :
    (t u : Task) (now : ℕ) (message : Text) (rest : List (ℕ × Option Text))
    → u.max_attempts ≡ t.max_attempts
    → u.attempt_count ≡ suc t.attempt_count
    → u.status
      ≡ (if leb t.max_attempts (suc t.attempt_count) then TaskStatus.failed else TaskStatus.pending)
    → final_status u rest ≡ final_status t ((now, some message) ∷ rest)
final_status-failed t u now message [] max count status = status ∙ rw (add_one t.attempt_count) refl
final_status-failed t u now message (b ∷ bs) max count status =
    rw (max, count, add_suc t.attempt_count (length bs)) refl

processed_all-status :
    (rest : List (ℕ × Option Text)) (t : Task)
    → is_settled t ≡ false
    → (processed_all rest t).status ≡ final_status t rest
processed_all-status [] t h = refl
processed_all-status ((now, none) ∷ rest) t h =
    rw (processed_all, h) (ap (λ (u : Task). u.status) (processed_all-settled rest _ refl))
processed_all-status ((now, some message) ∷ rest) t h =
    let u = to_processing now t t in
    elim (Bool-cases (leb t.max_attempts (suc t.attempt_count))) [
      | inl e ↦
          rw (processed_all, h, e)
            (processed_all-status rest (ended_row now message u) refl
              ∙ final_status-failed t (ended_row now message u) now message rest refl refl
                  (rw e refl))
      | inr e ↦
          rw (processed_all, h, e)
            (processed_all-status rest (again_row message u) refl
              ∙ final_status-failed t (again_row message u) now message rest refl refl (rw e refl))
    ]

processed-kind :
    (now : ℕ) (outcome : Option Text) (t : Task)
    → is_password t.kind ≡ true
    → is_password (processed now outcome t).kind ≡ true
processed-kind now outcome t h = elim (Bool-cases (is_settled t)) [
  | inl e ↦ rw e h
  | inr e ↦ rw e (attempted-kind outcome)
]
  where
    attempted-kind : (o : Option Text) → is_password (attempted now o t).kind ≡ true
    attempted-kind none = h
    attempted-kind (some message) = elim (Bool-cases (leb t.max_attempts (suc t.attempt_count))) [
      | inl e ↦ rw e h
      | inr e ↦ rw e h
    ]

process_all-Returns :
    (id : ℕ) (rest : List (ℕ × Option Text)) (w : DeliveryWorld) {t : Task}
    → find_task id w.tasks ≡ some t
    → is_password t.kind ≡ true
    → Returns (λ _ v. find_task id v.tasks ≡ some (processed_all rest t)) (process_all id rest w)
unfolding process_all
process_all-Returns id [] w h kind = h
process_all-Returns id (a ∷ rest) w {t} h kind =
    Returns-bind (λ _ v. find_task id v.tasks ≡ some (processed_all (a ∷ rest) t))
      (process_task id a.1) _ (record w { now = a.0 })
      (λ _ v. HasRow a.0 id (processed a.0 a.1 t) v)
      (process_task-Returns id a.1 (record w { now = a.0 }) h kind)
      (λ _ v p. process_all-Returns id rest v p.1 (processed-kind a.0 a.1 t kind))

-- Calls of `processTask` on a task of a password e-mail that is neither sent nor retried, at any times
-- and with anything that came of the sendings, all return. The task then has succeeded if some sending
-- did, and else it has failed exactly when the attempts, with the earlier ones, are as many as its most
-- attempts or more, and waits for the next one otherwise; with no call it is as it was.
pub process_all-final_status :
    (id : ℕ) (rest : List (ℕ × Option Text)) (w : DeliveryWorld) (t : Task)
    → find_task id w.tasks ≡ some t
    → is_password t.kind ≡ true
    → is_settled t ≡ false
    → Returns
        (λ _ v. (u : Task) × (find_task id v.tasks ≡ some u) × (u.status ≡ final_status t rest))
        (process_all id rest w)
process_all-final_status id rest w t h kind unsettled =
    Returns-map (λ _ v. find_task id v.tasks ≡ some (processed_all rest t))
      (λ _ v. (u : Task) × (find_task id v.tasks ≡ some u) × (u.status ≡ final_status t rest))
      (process_all id rest w)
      (λ _ v e. (processed_all rest t, e, processed_all-status rest t unsettled))
      (process_all-Returns id rest w h kind)
