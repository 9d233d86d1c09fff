-- ===== src/Request/Effects.antt =====
-- What an action does: the checks of a handler leave the world alone, and its transaction touches
-- one row by one step.
use towerdesk_backend_clean.Prelude.{ℕ, ◌≡◌, ◌⊎◌, inl, inr, refl, Option, some, Option-cases, arith}
use mathlib.Core.List.{Memᴰ}
use towerdesk_backend_clean.Request.Types.{Request}
use towerdesk_backend_clean.Result.{Error, Result, ok, err}
use towerdesk_backend_clean.Request.Outcome.{Outcome}
use towerdesk_backend_clean.Request.Moves.{Move}
use towerdesk_backend_clean.Request.World.{World, Action, ◌>>=◌, gets, lift, commit}
use towerdesk_backend_clean.Request.Callers.{transact}

pub Result-cases :
    {A : Type 0} (x : Result A) → ((e : Error) × (x ≡ err e)) ⊎ ((a : A) × (x ≡ ok a))
Result-cases (ok a) = inr (a, refl)
Result-cases (err e) = inl (e, refl)

-- The action changes nothing, and what it returns has the property.
pub record Checks {A : Type 0} (m : Action A) (P : World → A → Type 0) : Type 0 where
  pub at : (w : World) (a : A) (w' : World) → m w ≡ ok (a, w') → (w' ≡ w) × P w a

-- One listed row that has the property was taken through one transaction.
pub record Touched (Q : World → Request → Type 0) (w w' : World) : Type 0 where
  pub actor : ℕ
  pub row : Request
  pub outcome : Outcome
  pub listed : Memᴰ row w.requests
  pub allowed : Q w row
  pub move : Move row outcome
  pub left : w' ≡ commit actor row outcome w

pub record Touches {A : Type 0} (m : Action A) (Q : World → Request → Type 0) : Type 0 where
  pub at : (w : World) (a : A) (w' : World) → m w ≡ ok (a, w') → Touched Q w w'

module _ {A B : Type 0} where
  -- Inversion of a bind that succeeds.
  pub >>=-eq_ok :
      (m : Action A) (f : A → Action B) (w : World) (b : B) (w' : World)
      → (m >>= f) w ≡ ok (b, w')
      → (a : A) × (v : World) × (m w ≡ ok (a, v)) × (f a v ≡ ok (b, w'))
  >>=-eq_ok m f w b w' h = elim (Result-cases (m w)) [
    | inl (e, p) ↦ cc
    | inr ((a, v), p) ↦ (a, v, p, rw (p, ◌>>=◌) at h)
  ]

  pub Touches-bind :
      {P : World → A → Type 0} {Q : World → Request → Type 0} (m : Action A) (f : A → Action B)
      → Checks m P
      → ((a : A) → Touches (f a) (λ w r. P w a → Q w r))
      → Touches (m >>= f) Q
  Touches-bind m f c t = record {
    at = λ w b w' h.
        let (a, v, p, q) = >>=-eq_ok m f w b w' h in
        let (same, holds) = c.at w a v p in
        let d = (t a).at w b w' (rw same at q) in
        record {
          actor = d.actor;
          row = d.row;
          outcome = d.outcome;
          listed = d.listed;
          allowed = d.allowed holds;
          move = d.move;
          left = d.left;
        };
  }

  pub Checks-bind :
      {P : World → A → Type 0} {Q : World → B → Type 0} (m : Action A) (f : A → Action B)
      → Checks m P
      → ((a : A) → Checks (f a) (λ w b. P w a → Q w b))
      → Checks (m >>= f) Q
  Checks-bind m f c t = record {
    at = λ w b w' h.
        let (a, v, p, q) = >>=-eq_ok m f w b w' h in
        let (same, holds) = c.at w a v p in
        let d = (t a).at w b w' (rw same at q) in (d.0, d.1 holds);
  }

module _ {Q : World → Request → Type 0} where
  -- A transaction touches the row that it finds.
  pub Touches-transact :
      (actor : ℕ) (find_row : World → Option Request) (step : World → Request → Result Outcome)
      → ((w : World) (r : Request) → find_row w ≡ some r → Memᴰ r w.requests × Q w r)
      → ((w : World) (r : Request) (o : Outcome) → step w r ≡ ok o → Move r o)
      → Touches (transact actor find_row step) Q
  unfolding transact
  Touches-transact actor find_row step found moved = record {
    at = λ w a w' h. elim (Option-cases (find_row w)) [
      | inl p ↦ absurd (cc)
      | inr (r, p) ↦ elim (Result-cases (step w r)) [
        | inl (e, q) ↦ absurd (cc)
        | inr (o, q) ↦ record {
          actor = actor;
          row = r;
          outcome = o;
          listed = (found w r p).0;
          allowed = (found w r p).1;
          move = moved w r o q;
          left = ground arith;
        }
      ]
    ];
  }

-- A test, a read, or nothing before a transaction.
module _ {A B : Type 0} where
  pub Touches-after :
      {P : World → A → Type 0} {Q : World → Request → Type 0} (m : Action A) (f : A → Action B)
      → Checks m P
      → ((a : A) → Touches (f a) Q)
      → Touches (m >>= f) Q
  Touches-after m f c t = record {
    at = λ w b w' h.
        let (a, v, p, q) = >>=-eq_ok m f w b w' h in
        let (same, _) = c.at w a v p in (t a).at w b w' (rw same at q);
  }

abbrev pub IsAny : {A : Type 0} → World → A → Type 0
IsAny w a = Unit

pub Checks-lift : {A : Type 0} (x : Result A) → Checks (lift x) IsAny
Checks-lift (ok a) = record { at = λ w b w' h. (cc, tt) }
Checks-lift (err e) = record { at = λ w b w' h. absurd (cc) }

pub Checks-gets : {A : Type 0} (f : World → A) → Checks (gets f) IsAny
Checks-gets f = record { at = λ w b w' h. (cc, tt) }
