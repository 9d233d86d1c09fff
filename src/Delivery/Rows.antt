-- ===== src/Delivery/Rows.antt =====
-- What `processTask` leaves of the row of its task.
use towerdesk_backend_clean.Prelude.{
  ℕ, ◌≡◌, refl, ap, sym, subst, ==_iff, ◌∙◌, true, false, Option, none, some, List, [], ◌∷◌, ◌==◌,
  if◌then◌else◌, leb, Text, Bool-cases, inl, inr,
}
use towerdesk_backend_clean.Action.{pure, ◌>>=◌, ◌>>◌, Returns, Returns-bind}
use towerdesk_backend_clean.Delivery.Tasks.{
  TaskStatus, Task, DeliveryWorld, find_task, write, update, is_settled, to_processing,
  mark_processing, mark_failed, mark_retry_scheduled, mark_succeeded, truncate_error,
}
use towerdesk_backend_clean.Delivery.Passwords.{
  is_password, mark_resident_invite_failed, tell_invite, after_sending, process_task,
}

-- The row after an attempt.
abbrev pub sent_row : ℕ → Task → Task
sent_row now t = record t {
  status = TaskStatus.succeeded;
  completed_at = some now;
  last_error = none;
}

abbrev pub ended_row : ℕ → Text → Task → Task
ended_row now message t = record t {
  status = TaskStatus.failed;
  completed_at = some now;
  last_error = some (truncate_error message);
}

abbrev pub again_row : Text → Task → Task
again_row message t = record t {
  status = TaskStatus.pending;
  last_error = some (truncate_error message);
}

abbrev pub failed_row : ℕ → Text → Task → Task
failed_row now message t =
    if leb t.max_attempts t.attempt_count then ended_row now message t else again_row message t

abbrev pub sent_or_failed : ℕ → Option Text → Task → Task
sent_or_failed now none t = sent_row now t
sent_or_failed now (some message) t = failed_row now message t

abbrev pub attempted : ℕ → Option Text → Task → Task
attempted now outcome t = sent_or_failed now outcome (to_processing now t t)

-- The row after the call.
abbrev pub processed : ℕ → Option Text → Task → Task
processed now outcome t = if is_settled t then t else attempted now outcome t

pub some_same {ℓ} : {A : Type ℓ} {a b : A} → some a ≡ some b → a ≡ b
some_same e = cc

abbrev map_task : (Task → Task) → Option Task → Option Task
map_task f none = none
map_task f (some t) = some (f t)

find-write :
    (id : ℕ) (f : Task → Task) (ts : List Task) {t : Task}
    → ((u : Task) → ((f u).id == id) ≡ (u.id == id))
    → find_task id ts ≡ some t
    → find_task id (write id f ts) ≡ some (f t)
unfolding write
find-write id f [] same h = cc
find-write id f (u ∷ us) {t} same h = elim (Bool-cases (u.id == id)) [
  | inl e ↦ rw (e, same u ∙ e) (ap (λ o. map_task f o) (rw e at h))
  | inr e ↦ rw (e, e) (find-write id f us same (rw e at h))
]

find-id : (id : ℕ) (ts : List Task) {t : Task} → find_task id ts ≡ some t → t.id ≡ id
find-id id [] h = cc
find-id id (u ∷ us) h = elim (Bool-cases (u.id == id)) [
  | inl e ↦ subst (λ v. v.id ≡ id) (some_same (rw e at h)) ((==_iff u.id id).0 e)
  | inr e ↦ find-id id us (rw e at h)
]

-- The row of the task in the tables.
abbrev pub HasRow : ℕ → ℕ → Task → DeliveryWorld → Type 0
HasRow now id t w = (w.now ≡ now) × (find_task id w.tasks ≡ some t)

update-Returns :
    (id : ℕ) (f : Task → Task) (w : DeliveryWorld) {t : Task}
    → ((u : Task) → ((f u).id == id) ≡ (u.id == id))
    → find_task id w.tasks ≡ some t
    → Returns (λ u v. (u ≡ f t) × HasRow w.now id (f t) v) (update id f w)
unfolding update
update-Returns id f w same h = rw (Returns, h) (refl, (refl, find-write id f w.tasks same h))

mark_processing-Returns :
    (id : ℕ) (w : DeliveryWorld) {t : Task}
    → find_task id w.tasks ≡ some t
    → is_settled t ≡ false
    → Returns
        (λ o v. (o ≡ some (to_processing w.now t t)) × HasRow w.now id (to_processing w.now t t) v)
        (mark_processing id w)
unfolding mark_processing
mark_processing-Returns id w {t} h unsettled =
    rw (Returns, h, unsettled)
      (Returns-bind
        (λ o v. (o ≡ some (to_processing w.now t t)) × HasRow w.now id (to_processing w.now t t) v)
        (update id (to_processing w.now t)) _ w
        (λ u v. (u ≡ to_processing w.now t t) × HasRow w.now id (to_processing w.now t t) v)
        (update-Returns id (to_processing w.now t) w (λ u. refl) h)
        (λ u v p. (ap (λ x. some x) p.0, p.1)))

tell_invite-Returns :
    (hash : Option ℕ) (message : Text) (now id : ℕ) (t : Task) (w : DeliveryWorld)
    → HasRow now id t w
    → Returns (λ _ v. HasRow now id t v) (tell_invite hash message w)
unfolding mark_resident_invite_failed
tell_invite-Returns none message now id t w h = h
tell_invite-Returns (some k) message now id t w h = h

failing :
    (u : Task) (message : Text) (w : DeliveryWorld)
    → find_task u.id w.tasks ≡ some u
    → Returns
        (λ _ v. HasRow w.now u.id (ended_row w.now message u) v)
        ((mark_failed u.id message >>= λ t.
            tell_invite u.invite_token_hash message >> pure (some message))
          w)
unfolding mark_failed
failing u message w h =
    Returns-bind (λ _ v. HasRow w.now u.id (ended_row w.now message u) v)
      (update u.id (ended_row w.now message)) _ w
      (λ t v. (t ≡ ended_row w.now message u) × HasRow w.now u.id (ended_row w.now message u) v)
      (update-Returns u.id (ended_row w.now message) w (λ t. refl) h)
      (λ t v p.
        Returns-bind (λ _ x. HasRow w.now u.id (ended_row w.now message u) x)
          (tell_invite u.invite_token_hash message) _ v
          (λ _ x. HasRow w.now u.id (ended_row w.now message u) x)
          (tell_invite-Returns u.invite_token_hash message w.now u.id (ended_row w.now message u) v
            p.1)
          (λ _ x q. q))

after_sending-Returns :
    (u : Task) (outcome : Option Text) (w : DeliveryWorld)
    → find_task u.id w.tasks ≡ some u
    → Returns
        (λ _ v. HasRow w.now u.id (sent_or_failed w.now outcome u) v)
        (after_sending u outcome w)
unfolding after_sending mark_succeeded mark_failed mark_retry_scheduled
after_sending-Returns u none w h =
    Returns-bind (λ _ v. HasRow w.now u.id (sent_row w.now u) v) (update u.id (sent_row w.now)) _ w
      (λ t v. (t ≡ sent_row w.now u) × HasRow w.now u.id (sent_row w.now u) v)
      (update-Returns u.id (sent_row w.now) w (λ t. refl) h) (λ t v p. p.1)
after_sending-Returns u (some message) w h =
    elim (Bool-cases (leb u.max_attempts u.attempt_count)) [
      | inl e ↦
          subst (λ row. Returns (λ _ v. HasRow w.now u.id row v) (after_sending u (some message) w))
            {x = ended_row w.now message u} (rw e refl) (rw (Returns, e) (failing u message w h))
      | inr e ↦
          subst (λ row. Returns (λ _ v. HasRow w.now u.id row v) (after_sending u (some message) w))
            {x = again_row message u} (rw e refl)
            (rw (Returns, e)
              (Returns-bind (λ _ v. HasRow w.now u.id (again_row message u) v)
                (update u.id (again_row message)) _ w
                (λ t v. (t ≡ again_row message u) × HasRow w.now u.id (again_row message u) v)
                (update-Returns u.id (again_row message) w (λ t. refl) h) (λ t v p. p.1)))
    ]

-- A call on a task of a password e-mail returns, whatever came of the sending, and leaves its row
-- settled as it was, or as the attempt makes it.
pub process_task-Returns :
    (id : ℕ) (outcome : Option Text) (w : DeliveryWorld) {t : Task}
    → find_task id w.tasks ≡ some t
    → is_password t.kind ≡ true
    → Returns (λ _ v. HasRow w.now id (processed w.now outcome t) v) (process_task id outcome w)
unfolding process_task
process_task-Returns id outcome w {t} h kind = elim (Bool-cases (is_settled t)) [
  | inl e ↦
      subst (λ row. Returns (λ _ v. HasRow w.now id row v) (process_task id outcome w)) {x = t}
        (rw e refl) (rw (Returns, h, kind, e) (refl, h))
  | inr e ↦
      subst (λ row. Returns (λ _ v. HasRow w.now id row v) (process_task id outcome w))
        {x = attempted w.now outcome t} (rw e refl)
        (rw (Returns, h, kind, e)
          (Returns-bind (λ _ v. HasRow w.now id (attempted w.now outcome t) v) (mark_processing id)
            _ w
            (λ o v.
              (o ≡ some (to_processing w.now t t)) × HasRow w.now id (to_processing w.now t t) v)
            (mark_processing-Returns id w h e)
            (λ o v p. rw (Returns, p.0) (sending (find-id id w.tasks h) v p.1))))
]
  where
    sending :
        t.id ≡ id
        → (v : DeliveryWorld) → HasRow w.now id (to_processing w.now t t) v
        → Returns
            (λ _ x. HasRow w.now id (attempted w.now outcome t) x)
            (after_sending (to_processing w.now t t) outcome v)
    sending same v row =
        let u = to_processing w.now t t in
        subst
          (λ n.
            Returns (λ _ x. HasRow n id (sent_or_failed n outcome u) x) (after_sending u outcome v))
          row.0
          (subst
            (λ k.
              Returns (λ _ x. HasRow v.now k (sent_or_failed v.now outcome u) x)
                (after_sending u outcome v))
            same
            (after_sending-Returns u outcome v
              (subst (λ k. find_task k v.tasks ≡ some u) (sym same) row.1)))
