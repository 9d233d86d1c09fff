-- ===== src/Prelude/Members.antt =====
-- Predicates on every element of a list, and lists of ids with no id twice.
use Prim.Native.Nat.{ℕ}
use mathlib.Core.Bool.{Bool, true, false, ◌||◌}
use mathlib.Core.Path.{◌≡◌, refl}
use mathlib.Core.List.{List, [], ◌∷◌, ◌++◌, Memᴰ}
use native.Mathlib.Omega.{arith}
use towerdesk_backend_clean.Prelude.Tests.{◌==◌, ltb}
use towerdesk_backend_clean.Prelude.Lists.{has, any, All}

module _ {ℓ κ} {A : Type ℓ} (P : A → Type κ) where
  pub All-member : (xs : List A) {x : A} → Memᴰ x xs → All P xs → P x
  All-member [] m h = elim m [ ]
  All-member (y ∷ xs) (Memᴰ.head e) h = rw e h.0
  All-member (y ∷ xs) (Memᴰ.tail m) h = All-member xs m h.1

  pub All-append_one : (xs : List A) {x : A} → All P xs → P x → All P (xs ++ (x ∷ []))
  All-append_one [] h p = (p, tt)
  All-append_one (y ∷ xs) h p = (h.0, All-append_one xs h.1 p)

  pub All-map : (Q : A → Type κ) (xs : List A) → ((x : A) → P x → Q x) → All P xs → All Q xs
  All-map Q [] f h = tt
  All-map Q (x ∷ xs) f h = (f x h.0, All-map Q xs f h.1)

-- No id stands twice.
abbrev pub AreDistinct : List ℕ → Type 0
AreDistinct [] = Unit
AreDistinct (k ∷ ks) = (has ks k ≡ false) × AreDistinct ks

has-used : (n : ℕ) (ks : List ℕ) → All (λ k. ltb k n ≡ true) ks → has ks n ≡ false
has-used n [] h = refl
has-used n (k ∷ ks) h = ground (arith, has-used n ks)

has-append_one : (ks : List ℕ) (n k : ℕ) → has (ks ++ (n ∷ [])) k ≡ (has ks k || (n == k))
has-append_one [] n k = ground arith
has-append_one (j ∷ ks) n k = ground (arith, has-append_one ks n k)

-- A new id keeps the ids distinct.
pub AreDistinct-append_one :
    (n : ℕ) (ks : List ℕ)
    → AreDistinct ks
    → All (λ k. ltb k n ≡ true) ks
    → AreDistinct (ks ++ (n ∷ []))
AreDistinct-append_one n [] d u = (refl, tt)
AreDistinct-append_one n (k ∷ ks) d u =
    (ground (arith, has-append_one ks n k), AreDistinct-append_one n ks d.1 u.1)

pub any-append {ℓ} :
    {A : Type ℓ} (p : A → Bool) (xs ys : List A) → any p (xs ++ ys) ≡ (any p xs || any p ys)
any-append p [] ys = refl
any-append p (x ∷ xs) ys = ground (arith, any-append p xs ys)
