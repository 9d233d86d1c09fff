-- ===== src/Delivery/Passwords.antt =====
-- `processTask` of auth-password-delivery.service.ts, for the tasks of password e-mails.
use towerdesk_backend_clean.Prelude.{
  ℕ, Bool, true, false, not, ◌||◌, Option, none, some, List, [], ◌∷◌, map, take, ◌==◌,
  if◌then◌else◌, leb, Text,
}
use towerdesk_backend_clean.Result.{ok}
use towerdesk_backend_clean.Action.{pure, ◌>>=◌, ◌>>◌}
use towerdesk_backend_clean.Delivery.Tasks.{
  TaskKind, Task, Invite, InviteStatus, Action, find_task, is_settled, mark_processing, mark_failed,
  mark_retry_scheduled, mark_succeeded,
}

abbrev pub is_password : TaskKind → Bool
is_password TaskKind.auth_password_email = true
is_password _ = false

-- `markResidentInviteFailed` of auth.repo.ts
abbrev pub fail_invite : ℕ → Text → Invite → Invite
fail_invite hash reason i = elim i.status [
  | InviteStatus.sent ↦
      if i.token_hash == hash
      then record i { status = InviteStatus.failed; failure_reason = some (take 1000 reason) }
      else i
  | _ ↦ i
]

unfoldable pub mark_resident_invite_failed : ℕ → Text → Action (Unit {0})
mark_resident_invite_failed hash reason w =
    ok (tt, record w { invites = map (fail_invite hash reason) w.invites })

abbrev pub tell_invite : Option ℕ → Text → Action (Unit {0})
tell_invite none message = pure tt
tell_invite (some hash) message = mark_resident_invite_failed hash message

-- What follows the attempt to send, which fails with a message or not at all. The message is what is
-- thrown again if the caller allows it.
unfoldable pub after_sending : Task → Option Text → Action (Option Text)
after_sending t none = do u ← mark_succeeded t.id; pure none
after_sending t (some message) = elim (leb t.max_attempts t.attempt_count) [
  | true ↦ (do
    u ← mark_failed t.id message
    tell_invite t.invite_token_hash message
    pure (some message))
  | false ↦ (do u ← mark_retry_scheduled t.id message; pure (some message))
]

-- `processTask`
unfoldable pub process_task : ℕ → Option Text → Action (Option Text)
process_task id outcome w = elim (find_task id w.tasks) [
  | none ↦ ok (none, w)
  | some t ↦ elim (not (is_password t.kind) || is_settled t) [
    | true ↦ ok (none, w)
    | false ↦
        (do
          found ← mark_processing id
          elim found [
            | none ↦ pure none
            | some u ↦ elim (is_settled u) [ true ↦ pure none | false ↦ after_sending u outcome ]
          ])
          w
  ]
]

-- Attempts one after another, each with its time and what came of it.
unfoldable pub process_all : ℕ → List (ℕ × Option Text) → Action (Unit {0})
unfolding process_task
process_all id [] w = pure tt w
process_all id (a ∷ rest) w =
    (do thrown ← process_task id a.1; process_all id rest) (record w { now = a.0 })
