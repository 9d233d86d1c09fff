-- ===== src/Request/Runs/Isolation.antt =====
-- Which rows an operation leaves alone.
use towerdesk_backend_clean.Prelude.{◌≡◌, ◌⊎◌, inl, inr, ◌==◌, Bool-cases}
use mathlib.Core.List.{Memᴰ}
use towerdesk_backend_clean.Request.Types.{Request}
use towerdesk_backend_clean.Result.{ok}
use towerdesk_backend_clean.Request.World.{World, replace, commit}
use towerdesk_backend_clean.Request.Effects.{Touched}
use towerdesk_backend_clean.Request.Operations.{Operation, run, MayTouch}
use towerdesk_backend_clean.Request.Operations.Authority.{run-Touches}
use towerdesk_backend_clean.Request.Runs.{IsSound}
use towerdesk_backend_clean.Request.Runs.Rows.{Mem-same_id, Mem-replace_other}

Touched-elsewhere :
    (Q : World → Request → Type 0) {w w' : World}
    → Touched Q w w'
    → IsSound w
    → {r : Request} → Memᴰ r w.requests
    → Memᴰ r w'.requests ⊎ Q w r
unfolding commit
Touched-elsewhere Q {w = w} {w' = w'} t s {r} m =
    let left : w'.requests ≡ replace t.row.id t.outcome.request w.requests = rw t.left in
    elim (Bool-cases (r.id == t.row.id)) [
      | inl e ↦
          let same : r ≡ t.row = Mem-same_id w.requests s.ids_distinct m t.listed e in
          inr (rw same t.allowed)
      | inr e ↦ inl (rw left (Mem-replace_other t.row.id t.outcome.request w.requests m e))
    ]

-- In a sound world an operation that succeeds leaves each row as it was, or the row is
-- one that the caller may touch: of the organisation in the caller's token, for the operations of
-- buildings and residents; of a provider of which the caller is a member with access, for those of
-- providers; of a unit that the caller owns or was granted, for those of owners.
pub run-isolated :
    (op : Operation) {w w' : World} {a : Request}
    → IsSound w
    → run op w ≡ ok (a, w')
    → {r : Request} → Memᴰ r w.requests
    → Memᴰ r w'.requests ⊎ MayTouch op w r
run-isolated op {w = w} {w' = w'} {a = a} s h m =
    Touched-elsewhere (MayTouch op) ((run-Touches op).at w a w' h) s m
