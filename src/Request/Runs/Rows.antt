-- ===== src/Request/Runs/Rows.antt =====
-- The table of the requests when a row is replaced or added.
use towerdesk_backend_clean.Prelude.{
  ℕ, ◌≡◌, inl, inr, refl, true, false, List, [], ◌∷◌, ◌==◌, has, All, arith, Bool-cases,
}
use mathlib.Core.List.{Memᴰ}
use towerdesk_backend_clean.Request.Types.{Request}
use towerdesk_backend_clean.Request.World.{replace}
use towerdesk_backend_clean.Request.Runs.{ids}
use towerdesk_backend_clean.Prelude.{AreDistinct}

pub All-replace :
    (P : Request → Type 0) (k : ℕ) {r : Request} (xs : List Request)
    → P r
    → All P xs
    → All P (replace k r xs)
unfolding replace
All-replace P k [] p h = tt
All-replace P k (x ∷ xs) p h = elim (Bool-cases (x.id == k)) [
  | inl e ↦ rw e (p, All-replace P k xs p h.1)
  | inr e ↦ rw e (h.0, All-replace P k xs p h.1)
]

pub ids-replace :
    (k : ℕ) (r : Request) (xs : List Request) → r.id ≡ k → ids (replace k r xs) ≡ ids xs
unfolding replace
ids-replace k r [] h = refl
ids-replace k r (x ∷ xs) h = ground (arith, ids-replace k r xs h)

has-ids : (xs : List Request) {x : Request} → Memᴰ x xs → has (ids xs) x.id ≡ true
has-ids [] m = elim m [ ]
has-ids (y ∷ xs) (Memᴰ.head e) = rw e (ground arith)
has-ids (y ∷ xs) (Memᴰ.tail m) = ground (arith, has-ids xs m)

-- Two rows with one id are one row.
pub Mem-same_id :
    (xs : List Request) {x y : Request}
    → AreDistinct (ids xs)
    → Memᴰ x xs
    → Memᴰ y xs
    → (x.id == y.id) ≡ true
    → x ≡ y
Mem-same_id [] d m n same = elim m [ ]
Mem-same_id (z ∷ xs) d (Memᴰ.head e) (Memᴰ.head f) same = cc
Mem-same_id (z ∷ xs) d (Memᴰ.head e) (Memᴰ.tail n) same = absurd (ground (arith, has-ids xs n))
Mem-same_id (z ∷ xs) d (Memᴰ.tail m) (Memᴰ.head f) same = absurd (ground (arith, has-ids xs m))
Mem-same_id (z ∷ xs) d (Memᴰ.tail m) (Memᴰ.tail n) same = Mem-same_id xs d.1 m n same

-- A row with another id stays.
pub Mem-replace_other :
    (k : ℕ) (r : Request) (xs : List Request) {x : Request}
    → Memᴰ x xs
    → (x.id == k) ≡ false
    → Memᴰ x (replace k r xs)
unfolding replace
Mem-replace_other k r [] m other = elim m [ ]
Mem-replace_other k r (y ∷ xs) (Memᴰ.head e) other = Memᴰ.head (rw (← e, other) refl)
Mem-replace_other k r (y ∷ xs) (Memᴰ.tail m) other = Memᴰ.tail (Mem-replace_other k r xs m other)

-- A row that is replaced is listed after.
pub Mem-replace_same :
    (k : ℕ) (r : Request) (xs : List Request) {x : Request}
    → Memᴰ x xs
    → (x.id == k) ≡ true
    → Memᴰ r (replace k r xs)
unfolding replace
Mem-replace_same k r [] m same = elim m [ ]
Mem-replace_same k r (y ∷ xs) (Memᴰ.head e) same = Memᴰ.head (rw (← e, same) refl)
Mem-replace_same k r (y ∷ xs) (Memᴰ.tail m) same = Memᴰ.tail (Mem-replace_same k r xs m same)
