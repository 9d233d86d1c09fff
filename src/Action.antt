-- ===== src/Action.antt =====
-- Handlers as actions on the tables: an action fails and leaves the tables alone, as its transaction is
-- rolled back, or it returns a value with the tables that it leaves.
use towerdesk_backend_clean.Prelude.{◌≡◌, refl, sym, subst}
use towerdesk_backend_clean.Result.{Result, ok, err}

abbrev pub Action : Type 0 → Type 0 → Type 0
Action W A = W → Result (A × W)

abbrev pub pure : {W A : Type 0} → A → Action W A
pure a w = ok (a, w)

infixl 5 ◌>>=◌ ◌>>◌
abbrev pub ◌>>=◌ : {W A B : Type 0} → Action W A → (A → Action W B) → Action W B
◌>>=◌ m f w = elim (m w) [ ok (a, w') ↦ f a w' | err e ↦ err e ]

abbrev pub ◌>>◌ : {W A B : Type 0} → Action W A → Action W B → Action W B
m >> k = m >>= λ _. k

abbrev pub gets : {W A : Type 0} → (W → A) → Action W A
gets f w = ok (f w, w)

abbrev pub lift : {W A : Type 0} → Result A → Action W A
lift (ok a) w = ok (a, w)
lift (err e) w = err e

-- What holds of the value and of the tables that an action returns, if it returns.
abbrev pub After : {W A : Type 0} → (A → W → Type 0) → Result (A × W) → Type 0
After Q (ok (a, w)) = Q a w
After Q (err e) = Unit

-- The action leaves the tables alone, and what it returns has the property.
abbrev pub Reads : {W A : Type 0} → (A → Type 0) → Action W A → Type 0
Reads P m = (w : _) → After (λ a v. (v ≡ w) × P a) (m w)

module _ {W A B : Type 0} (Q : B → W → Type 0) where
  -- What holds after an action, and then after the next one.
  pub After-bind :
      (m : Action W A) (f : A → Action W B) (w : W) (P : A → W → Type 0)
      → After P (m w)
      → ((a : A) (v : W) → P a v → After Q (f a v))
      → After Q ((m >>= f) w)
  After-bind m f w P p next = after (m w) p
    where
      after :
          (r : Result (A × W)) → After P r → After Q (elim r [ ok (a, v) ↦ f a v | err e ↦ err e ])
      after (ok (a, v)) q = next a v q
      after (err e) q = tt

  -- The next action starts where a reader does.
  pub After-reader :
      (m : Action W A) (f : A → Action W B) (w : W) (P : A → Type 0)
      → Reads P m
      → ((a : A) → P a → After Q (f a w))
      → After Q ((m >>= f) w)
  After-reader m f w P reads next =
      After-bind m f w (λ a v. (v ≡ w) × P a) (reads w)
        (λ a v e. subst (λ u. After Q (f a u)) (sym e.0) (next a e.1))

  pub After-lift :
      (r : Result A) (f : A → Action W B) (w : W)
      → ((a : A) → r ≡ ok a → After Q (f a w))
      → After Q ((lift r >>= f) w)
  After-lift (ok a) f w next = next a refl
  After-lift (err e) f w next = tt

pub After-map :
    {W A : Type 0} (P Q : A → W → Type 0) (r : Result (A × W))
    → ((a : A) (w : W) → P a w → Q a w)
    → After P r
    → After Q r
After-map P Q (ok (a, w)) f p = f a w p
After-map P Q (err e) f p = tt

-- The action returns, and what holds then.
abbrev pub Returns : {W A : Type 0} → (A → W → Type 0) → Result (A × W) → Type 0
Returns Q (ok (a, w)) = Q a w
Returns Q (err e) = ⊥

pub Returns-bind :
    {W A B : Type 0} (Q : B → W → Type 0) (m : Action W A) (f : A → Action W B) (w : W)
    → (P : A → W → Type 0) → Returns P (m w)
    → ((a : A) (v : W) → P a v → Returns Q (f a v))
    → Returns Q ((m >>= f) w)
Returns-bind {W} {A} Q m f w P p next = after (m w) p
  where
    after :
        (r : Result (A × W))
        → Returns P r
        → Returns Q (elim r [ ok (a, v) ↦ f a v | err e ↦ err e ])
    after (ok (a, v)) q = next a v q
    after (err e) q = q

pub Returns-map :
    {W A : Type 0} (P Q : A → W → Type 0) (r : Result (A × W))
    → ((a : A) (w : W) → P a w → Q a w)
    → Returns P r
    → Returns Q r
Returns-map P Q (ok (a, w)) f p = f a w p
Returns-map P Q (err e) f p = p
