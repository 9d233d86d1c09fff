-- ===== src/Request/Runs/Closing.antt =====
-- A request that is over stays as it is, but for its approval, in every run.
use towerdesk_backend_clean.Prelude.{
  ◌≡◌, inl, inr, true, ◌==◌, List, [], ◌∷◌, ◌++◌, arith, Bool-cases,
}
use mathlib.Core.List.{Memᴰ}
use towerdesk_backend_clean.Request.Types.{Request, Approval}
use towerdesk_backend_clean.Request.Steps.Guards.{is_closed}
use towerdesk_backend_clean.Request.World.{World, replace, commit}
use towerdesk_backend_clean.Request.Effects.{Touched}
use towerdesk_backend_clean.Request.Moves.Lifecycle.{Move-closed}
use towerdesk_backend_clean.Request.Operations.Authority.{run-Touches}
use towerdesk_backend_clean.Request.Runs.{Happens, Runs, IsSound}
use towerdesk_backend_clean.Request.Runs.Rows.{Mem-same_id, Mem-replace_other, Mem-replace_same}
use towerdesk_backend_clean.Request.Runs.Soundness.{create_resident_request-Created, Runs-IsSound}

-- The row is listed, but for its approval.
abbrev pub IsKept : Request → World → Type 0
IsKept r w = (a : Approval) × Memᴰ (record r { approval = a }) w.requests

Mem-append : {x : Request} (xs ys : List Request) → Memᴰ x xs → Memᴰ x (xs ++ ys)
Mem-append [] ys m = elim m [ ]
Mem-append (y ∷ xs) ys (Memᴰ.head e) = Memᴰ.head e
Mem-append (y ∷ xs) ys (Memᴰ.tail m) = Memᴰ.tail (Mem-append xs ys m)

Touched-IsKept :
    {Q : World → Request → Type 0} {w w' : World} {r : Request}
    → Touched Q w w'
    → IsSound w
    → Memᴰ r w.requests
    → is_closed r.status ≡ true
    → IsKept r w'
unfolding commit
Touched-IsKept {w = w} {w' = w'} {r = r} t s m over =
    let left : w'.requests ≡ replace t.row.id t.outcome.request w.requests = rw t.left in
    elim (Bool-cases (r.id == t.row.id)) [
      | inl e ↦
          let same : r ≡ t.row = Mem-same_id w.requests s.ids_distinct m t.listed e in
          let kept = Move-closed t.move (rw (← same) over) in
          (
            t.outcome.request.approval,
            rw (left, same, ← kept)
                (Mem-replace_same t.row.id t.outcome.request w.requests t.listed (ground arith)),
          )
      | inr e ↦ (r.approval, rw left (Mem-replace_other t.row.id t.outcome.request w.requests m e))
    ]

Happens-IsKept :
    {w w' : World} {r : Request}
    → Happens w w'
    → IsSound w
    → Memᴰ r w.requests
    → is_closed r.status ≡ true
    → IsKept r w'
Happens-IsKept {w = w} {w' = w'} (Happens.operate op {r = a} h) s m over =
    Touched-IsKept ((run-Touches op).at w a w' h) s m over
Happens-IsKept {w = w} {r = r} (Happens.create user dto files h) s m over =
    let c = create_resident_request-Created user dto files h in
    (r.approval, rw c.requests (Mem-append w.requests (c.row ∷ []) m))
Happens-IsKept {r = r} (Happens.elsewhere now dir h) s m over = (r.approval, rw h m)

-- A completed or canceled request of a sound world is listed after every run as it was, but for its
-- approval.
pub Runs-closed :
    {u w : World} {r : Request}
    → Runs u w
    → IsSound u
    → Memᴰ r u.requests
    → is_closed r.status ≡ true
    → (a : Approval) × Memᴰ (record r { approval = a }) w.requests
Runs-closed {r = r} Runs.done s m over = (r.approval, m)
Runs-closed (Runs.then rs h) s m over =
    let (a, listed) = Runs-closed rs s m over in Happens-IsKept h (Runs-IsSound rs s) listed over
