-- ===== src/Prelude/Distinct.antt =====
-- Lists of distinct ids, counted: a list that is no longer than a list of distinct ids that it has
-- is itself one of distinct ids.
use Prim.Native.Nat.{ℕ, suc, ◌≤◌}
use mathlib.Core.Bool.{true, false, not}
use mathlib.Core.Path.{◌≡◌, refl, ap, subst}
use mathlib.Core.Logic.{inl, inr}
use mathlib.Core.List.{List, [], ◌∷◌}
use native.Mathlib.Omega.{arith}
use towerdesk_backend_clean.Prelude.Tests.{◌==◌, ==_iff, Bool-cases}
use towerdesk_backend_clean.Prelude.Lists.{length, filter, has}
use towerdesk_backend_clean.Prelude.Members.{AreDistinct}

-- The ids without one of them.
abbrev without : ℕ → List ℕ → List ℕ
without k xs = filter (λ x. not (x == k)) xs

has-without : (k : ℕ) (xs : List ℕ) (j : ℕ) → has (without k xs) j ≡ true → has xs j ≡ true
has-without k [] j h = h
has-without k (x ∷ xs) j h = ground (arith, has-without k xs j)

has-without_self : (k : ℕ) (xs : List ℕ) → has (without k xs) k ≡ false
has-without_self k [] = refl
has-without_self k (x ∷ xs) = ground (arith, has-without_self k xs)

without-absent : (k : ℕ) (xs : List ℕ) → has xs k ≡ false → without k xs ≡ xs
without-absent k [] h = refl
without-absent k (x ∷ xs) h = elim (Bool-cases (x == k)) [
  | inl e ↦ absurd (ground arith)
  | inr e ↦ rw e (ap (λ ys. x ∷ ys) (without-absent k xs (ground arith)))
]

without-AreDistinct : (k : ℕ) (xs : List ℕ) → AreDistinct xs → AreDistinct (without k xs)
without-AreDistinct k [] d = tt
without-AreDistinct k (x ∷ xs) d = elim (Bool-cases (x == k)) [
  | inl e ↦ rw e (without-AreDistinct k xs d.1)
  | inr e ↦ rw e (ground (arith, has-without k xs x), without-AreDistinct k xs d.1)
]

length-without : (k : ℕ) (xs : List ℕ) → AreDistinct xs → length xs ≤ suc (length (without k xs))
length-without k [] d = omega arith
length-without k (x ∷ xs) d = elim (Bool-cases (x == k)) [
  | inl e ↦ ground (arith, without-absent k xs)
  | inr e ↦ rw e (omega (arith, length-without k xs d.1))
]

-- The one list has what the other one has.
abbrev pub Includes : List ℕ → List ℕ → Type 0
Includes ys xs = (k : ℕ) → has xs k ≡ true → has ys k ≡ true

Includes-without : (y : ℕ) (ys xs : List ℕ) → Includes (y ∷ ys) xs → Includes ys (without y xs)
Includes-without y ys xs h k m = ground (arith, has-without y xs k m, has-without_self y xs, h k)

pub length-Includes : (ys xs : List ℕ) → AreDistinct xs → Includes ys xs → length xs ≤ length ys
length-Includes [] [] d h = omega arith
length-Includes [] (x ∷ xs) d h = absurd (ground (arith, h x))
length-Includes (y ∷ ys) xs d h = omega (
  arith,
  length-without y xs d,
  length-Includes ys (without y xs) (without-AreDistinct y xs d) (Includes-without y ys xs h),
)

Includes-tail : (y : ℕ) (ys xs : List ℕ) → has ys y ≡ true → Includes (y ∷ ys) xs → Includes ys xs
Includes-tail y ys xs e h k m = elim (Bool-cases (y == k)) [
  | inl f ↦ subst (λ j. has ys j ≡ true) ((==_iff y k).0 f) e
  | inr f ↦ ground (arith, h k m)
]

-- The list that is long enough has no id twice.
pub AreDistinct-Includes :
    (ys xs : List ℕ) → AreDistinct xs → Includes ys xs → length ys ≤ length xs → AreDistinct ys
AreDistinct-Includes [] xs d h n = tt
AreDistinct-Includes (y ∷ ys) xs d h n = elim (Bool-cases (has ys y)) [
  | inl e ↦ absurd (omega (arith, length-Includes ys xs d (Includes-tail y ys xs e h)))
  | inr e ↦ (
    e,
    AreDistinct-Includes ys (without y xs) (without-AreDistinct y xs d) (Includes-without y ys xs h)
        (omega (arith, length-without y xs d)),
  )
]
