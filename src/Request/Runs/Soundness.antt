-- ===== src/Request/Runs/Soundness.antt =====
-- What an operation and a creation leave in the table of the requests, and that a run keeps it sound.
use towerdesk_backend_clean.Prelude.{
  ℕ, suc, ◌≡◌, refl, true, Option, List, [], ◌∷◌, ◌++◌, ltb, arith, Option-cases, inl, inr,
}
use towerdesk_backend_clean.Directory.{Occupancy}
use towerdesk_backend_clean.Request.Types.{Request, ApprovalStatus}
use towerdesk_backend_clean.Result.{ok}
use towerdesk_backend_clean.Request.Rows.{FileDto}
use towerdesk_backend_clean.Request.Steps.Residents.{CreateDto, new_request}
use towerdesk_backend_clean.Request.World.{World, find_active_occupancy, replace, commit}
use towerdesk_backend_clean.Request.Callers.{AuthUser, OrgCaller, org_caller}
use towerdesk_backend_clean.Request.Service.{create_resident_request, insert_request}
use towerdesk_backend_clean.Request.Effects.{Touched, >>=-eq_ok, Checks, IsAny}
use towerdesk_backend_clean.Request.Moves.Validity.{IsValid}
use towerdesk_backend_clean.Request.Moves.Kept.{Move-IsValid}
use towerdesk_backend_clean.Request.Moves.Lifecycle.{Move-identity}
use towerdesk_backend_clean.Request.Operations.Authority.{run-Touches}
use towerdesk_backend_clean.Request.Runs.{Happens, Runs, ids, IsSound}
use towerdesk_backend_clean.Prelude.{All-member, All-append_one, All-map, AreDistinct-append_one}
use towerdesk_backend_clean.Request.Runs.Rows.{All-replace, ids-replace}

pub new_request-IsValid :
    (id org user now : ℕ) (occupancy : Occupancy) (dto : CreateDto)
    → IsValid (new_request id org user now occupancy dto)
unfolding new_request
new_request-IsValid id org user now occupancy dto = ground arith

org_caller-Checks : (user : Option AuthUser) → Checks (org_caller user) IsAny
unfolding org_caller
org_caller-Checks user = record { at = λ w c w' h. (ground arith, tt) }

-- A row of the next id was added to the table.
pub record Created (w w' : World) : Type 0 where
  pub row : Request
  pub row_next : row.id ≡ w.next_id
  pub row_valid : IsValid row
  pub row_undecided : row.approval.status ≡ ApprovalStatus.not_required
  pub requests : w'.requests ≡ w.requests ++ (row ∷ [])
  pub next_id : w'.next_id ≡ suc w.next_id
  pub audits : w'.audits ≡ w.audits

insert_request-Created :
    (c : OrgCaller) (dto : CreateDto) (files : List FileDto) {w w' : World} {r : Request}
    → insert_request c dto files w ≡ ok (r, w')
    → Created w w'
unfolding insert_request new_request
insert_request-Created c dto files {w = w} h =
    elim (Option-cases (find_active_occupancy w.dir c.user_id c.org_id)) [
      | inl p ↦ absurd (cc)
      | inr (o, p) ↦ record {
        row = new_request w.next_id c.org_id c.user_id w.now o dto;
        row_next = refl;
        row_valid = new_request-IsValid w.next_id c.org_id c.user_id w.now o dto;
        row_undecided = refl;
        requests = ground arith;
        next_id = ground arith;
        audits = ground arith;
      }
    ]

pub create_resident_request-Created :
    (user : Option AuthUser) (dto : CreateDto) (files : List FileDto) {w w' : World} {r : Request}
    → create_resident_request user dto files w ≡ ok (r, w')
    → Created w w'
unfolding create_resident_request
create_resident_request-Created user dto files {w = w} {w' = w'} {r = r} h =
    let (c, v, p, q) = >>=-eq_ok (org_caller user) (λ c. insert_request c dto files) w r w' h in
    let (same, _) = (org_caller-Checks user).at w c v p in
    insert_request-Created c dto files (rw same at q)

-- A transaction leaves every row valid and every id where it was.
Touched-IsSound :
    {Q : World → Request → Type 0} {w w' : World} → Touched Q w w' → IsSound w → IsSound w'
unfolding commit
Touched-IsSound {w = w} {w' = w'} t s =
    let valid = Move-IsValid (All-member IsValid w.requests t.listed s.rows_valid) t.move in
    let left : w'.requests ≡ replace t.row.id t.outcome.request w.requests = rw t.left in
    let same : ids w'.requests ≡ ids w.requests =
      rw left (ids-replace t.row.id t.outcome.request w.requests (Move-identity t.move).0) in
    let next : w'.next_id ≡ w.next_id = rw t.left in
    record {
      rows_valid = rw left (All-replace IsValid t.row.id w.requests valid s.rows_valid);
      ids_distinct = rw same s.ids_distinct;
      ids_used = rw (same, next) s.ids_used;
    }

ids-append_one : (xs : List Request) (r : Request) → ids (xs ++ (r ∷ [])) ≡ ids xs ++ (r.id ∷ [])
ids-append_one [] r = refl
ids-append_one (x ∷ xs) r = rw (ids-append_one xs r)

Created-IsSound : {w w' : World} → Created w w' → IsSound w → IsSound w'
Created-IsSound {w = w} {w' = w'} c s =
    let same : ids w'.requests ≡ ids w.requests ++ (w.next_id ∷ []) =
      rw (c.requests, ids-append_one w.requests c.row, c.row_next) in
    record {
      rows_valid = rw c.requests (All-append_one IsValid w.requests s.rows_valid c.row_valid);
      ids_distinct =
          rw same (AreDistinct-append_one w.next_id (ids w.requests) s.ids_distinct s.ids_used);
      ids_used =
          rw (same, c.next_id)
            (All-append_one (λ k. ltb k (suc w.next_id) ≡ true) (ids w.requests)
              (All-map (λ k. ltb k w.next_id ≡ true) (λ k. ltb k (suc w.next_id) ≡ true)
                (ids w.requests) (λ k h. ground arith) s.ids_used)
              (ground arith));
    }

-- Whatever happens, every row stays valid, no two rows share an id, and the next id stays new.
pub Happens-IsSound : {w w' : World} → Happens w w' → IsSound w → IsSound w'
Happens-IsSound {w = w} {w' = w'} (Happens.operate op {r} h) s =
    Touched-IsSound ((run-Touches op).at w r w' h) s
Happens-IsSound (Happens.create user dto files h) s =
    Created-IsSound (create_resident_request-Created user dto files h) s
Happens-IsSound (Happens.elsewhere now dir h) s =
    rw h
      (record { rows_valid = s.rows_valid; ids_distinct = s.ids_distinct; ids_used = s.ids_used })

-- A run from a sound world ends in a sound world: every row is valid, no two rows share an id, and
-- every id is below the next one.
pub Runs-IsSound : {u w : World} → Runs u w → IsSound u → IsSound w
Runs-IsSound Runs.done s = s
Runs-IsSound (Runs.then rs h) s = Happens-IsSound h (Runs-IsSound rs s)
