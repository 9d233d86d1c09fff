-- ===== src/Request/Runs/Trail.antt =====
-- The audit trail of the owners' approvals over a run.
use towerdesk_backend_clean.Prelude.{
  ℕ, ◌≡◌, inl, inr, true, List, [], ◌∷◌, ◌++◌, map, any, All, arith,
}
use towerdesk_backend_clean.Request.Types.{Request, ApprovalStatus}
use towerdesk_backend_clean.Request.Rows.{Audit}
use towerdesk_backend_clean.Request.Outcome.{AuditEntry}
use towerdesk_backend_clean.Request.World.{World, replace, commit, to_audit}
use towerdesk_backend_clean.Request.Effects.{Touched}
use towerdesk_backend_clean.Request.Moves.Auditing.{Move-audited, records}
use towerdesk_backend_clean.Request.Moves.Lifecycle.{Move-identity}
use towerdesk_backend_clean.Request.Operations.Authority.{run-Touches}
use towerdesk_backend_clean.Request.Runs.{Happens, Runs, is_about, IsTrailed}
use towerdesk_backend_clean.Request.Runs.Rows.{All-replace}
use towerdesk_backend_clean.Prelude.{any-append, All-member, All-append_one, All-map}
use towerdesk_backend_clean.Request.Runs.Soundness.{create_resident_request-Created}

IsTrailed-append :
    (audits more : List Audit) (r : Request) → IsTrailed audits r → IsTrailed (audits ++ more) r
IsTrailed-append audits more r t =
    ground (arith, any-append (is_about r.id r.approval.status) audits more)

any-records :
    (r : Request) (actor now : ℕ) (from : ApprovalStatus) (es : List AuditEntry)
    → any (records from r.approval.status) es ≡ true
    → any (is_about r.id r.approval.status) (map (to_audit r actor now) es) ≡ true
any-records r actor now from [] h = absurd (cc)
any-records r actor now from (e ∷ es) h = ground (arith, any-records r actor now from es)

module _ {Q : World → Request → Type 0} {w w' : World} (t : Touched Q w w') where
  Touched-audits :
      w'.audits ≡ w.audits ++ map (to_audit t.outcome.request t.actor w.now) t.outcome.audits
  unfolding commit
  Touched-audits = rw t.left

  Touched-row-IsTrailed : IsTrailed w.audits t.row → IsTrailed w'.audits t.outcome.request
  Touched-row-IsTrailed h =
      let id = (Move-identity t.move).0 in
      let new = map (to_audit t.outcome.request t.actor w.now) t.outcome.audits in
      rw Touched-audits (elim (Move-audited t.move) [
        | inl same ↦ IsTrailed-append w.audits new t.outcome.request (rw (same, id) h)
        | inr (inl reset) ↦ inl reset.1
        | inr (inr recorded) ↦ inr (
            ground (
              arith,
              any-append (is_about t.outcome.request.id t.outcome.request.approval.status) w.audits
                  new,
              any-records t.outcome.request t.actor w.now t.row.approval.status t.outcome.audits
                  recorded,
            ))
      ])

  Touched-IsTrailed : All (IsTrailed w.audits) w.requests → All (IsTrailed w'.audits) w'.requests
  unfolding commit
  Touched-IsTrailed h =
      let new = map (to_audit t.outcome.request t.actor w.now) t.outcome.audits in
      let left : w'.requests ≡ replace t.row.id t.outcome.request w.requests = rw t.left in
      rw left (
        All-replace (IsTrailed w'.audits) t.row.id w.requests
          (Touched-row-IsTrailed (All-member (IsTrailed w.audits) w.requests t.listed h))
          (All-map (IsTrailed w.audits) (IsTrailed w'.audits) w.requests
            (λ r k. rw Touched-audits (IsTrailed-append w.audits new r k)) h))

Happens-IsTrailed :
    {w w' : World}
    → Happens w w'
    → All (IsTrailed w.audits) w.requests
    → All (IsTrailed w'.audits) w'.requests
Happens-IsTrailed {w = w} {w' = w'} (Happens.operate op {r} h) t =
    Touched-IsTrailed ((run-Touches op).at w r w' h) t
Happens-IsTrailed {w = w} (Happens.create user dto files h) t =
    let c = create_resident_request-Created user dto files h in
    rw (c.requests, c.audits)
      (All-append_one (IsTrailed w.audits) w.requests t (inl c.row_undecided))
Happens-IsTrailed (Happens.elsewhere now dir h) t = rw h t

-- After every run that starts where this holds, an approval that is pending, approved or rejected
-- has an audit row of its request into that status.
pub Runs-IsTrailed :
    {u w : World}
    → Runs u w
    → All (IsTrailed u.audits) u.requests
    → All (IsTrailed w.audits) w.requests
Runs-IsTrailed Runs.done t = t
Runs-IsTrailed (Runs.then rs h) t = Happens-IsTrailed h (Runs-IsTrailed rs t)
