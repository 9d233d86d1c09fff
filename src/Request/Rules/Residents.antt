-- ===== src/Request/Rules/Residents.antt =====
-- What a resident's request starts from: the occupancy that is found and the signals that are kept.
use towerdesk_backend_clean.Prelude.{
  ℕ, ◌≡◌, ◌&&◌, inl, inr, refl, Bool, Bool-cases, Option-cases, true, false, not, none, some, List,
  [], ◌∷◌, ◌==◌, arith, any, filter, All,
}
use towerdesk_backend_clean.Directory.{Directory, Occupancy}
use towerdesk_backend_clean.Request.Types.{EmergencySignal}
use towerdesk_backend_clean.Prelude.{All-map}
use towerdesk_backend_clean.Request.World.{is_later, latest, find_active_occupancy}
use towerdesk_backend_clean.Request.Steps.Residents.{same_signal, normalize_signals}

-- The occupancy counts: it is the user's, active, and in a building of the organisation.
abbrev pub counts : Directory → ℕ → ℕ → Occupancy → Bool
counts dir user org o =
    (o.resident_user_id == user)
    && o.is_active
    && any (λ b. (b.id == o.building_id) && (b.org_id == org)) dir.buildings

is_later_trans :
    (a b c : Occupancy) → is_later b a ≡ false → is_later c b ≡ false → is_later c a ≡ false
is_later_trans a b c h k = ground arith

is_later_self : (a : Occupancy) → is_later a a ≡ false
is_later_self a = ground arith

is_later_asym : (a b : Occupancy) → is_later a b ≡ true → is_later b a ≡ false
is_later_asym a b h = ground arith

latest-passes :
    (p : Occupancy → Bool) (os : List Occupancy) {o : Occupancy}
    → latest (filter p os) ≡ some o
    → p o ≡ true
unfolding latest
latest-passes p [] h = absurd (cc)
latest-passes p (x ∷ xs) {o = o} h = elim (Bool-cases (p x)) [
  | inl e ↦ elim (Option-cases (latest (filter p xs))) [
    | inl f ↦ let same : x ≡ o = cc (rw (e, f) at h) in rw (← same) e
    | inr (b, f) ↦ elim (Bool-cases (is_later b x)) [
      | inl g ↦ let same : b ≡ o = cc (rw (e, f, g) at h) in rw (← same) (latest-passes p xs f)
      | inr g ↦ let same : x ≡ o = cc (rw (e, f, g) at h) in rw (← same) e
    ]
  ]
  | inr e ↦ latest-passes p xs (rw e at h)
]

latest-none :
    (p : Occupancy → Bool) (os : List Occupancy)
    → latest (filter p os) ≡ none
    → All (λ x. p x ≡ false) os
unfolding latest
latest-none p [] h = tt
latest-none p (x ∷ xs) h = elim (Bool-cases (p x)) [
  | inl e ↦ absurd (elim (Option-cases (latest (filter p xs))) [
    | inl f ↦ cc (rw (e, f) at h)
    | inr (b, f) ↦ elim (Bool-cases (is_later b x)) [
      | inl g ↦ cc (rw (e, f, g) at h)
      | inr g ↦ cc (rw (e, f, g) at h)
    ]
  ])
  | inr e ↦ (e, latest-none p xs (rw e at h))
]

latest-later :
    (p : Occupancy → Bool) (os : List Occupancy) {o : Occupancy}
    → latest (filter p os) ≡ some o
    → All (λ x. p x ≡ true → is_later x o ≡ false) os
unfolding latest
latest-later p [] h = tt
latest-later p (x ∷ xs) {o = o} h = elim (Bool-cases (p x)) [
  | inl e ↦ elim (Option-cases (latest (filter p xs))) [
    | inl f ↦
        let same : x ≡ o = cc (rw (e, f) at h) in
        (
          λ _. rw same (is_later_self o),
          All-map (λ y. p y ≡ false) (λ y. p y ≡ true → is_later y o ≡ false) xs
              (λ y no yes. absurd (cc)) (latest-none p xs f),
        )
    | inr (b, f) ↦ elim (Bool-cases (is_later b x)) [
      | inl g ↦
          let same : b ≡ o = cc (rw (e, f, g) at h) in
          (λ _. rw same at (is_later_asym b x g), rw same at (latest-later p xs f))
      | inr g ↦
          let same : x ≡ o = cc (rw (e, f, g) at h) in
          (
            λ _. rw same (is_later_self o),
            All-map (λ y. p y ≡ true → is_later y b ≡ false)
                (λ y. p y ≡ true → is_later y o ≡ false) xs
                (λ y no yes. is_later_trans o b y (rw same at g) (no yes)) (latest-later p xs f),
          )
    ]
  ]
  | inr e ↦ (λ yes. absurd (cc), latest-later p xs (rw e at h))
]

-- The occupancy of a resident's request is active, the user's and in a building of the organisation,
-- and no other such occupancy starts later, or as late and was created later.
pub find_active_occupancy-latest :
    (dir : Directory) (user org : ℕ) {o : Occupancy}
    → find_active_occupancy dir user org ≡ some o
    → (counts dir user org o ≡ true)
      × All (λ x. counts dir user org x ≡ true → is_later x o ≡ false) dir.occupancies
unfolding find_active_occupancy
find_active_occupancy-latest dir user org h = (
  latest-passes (counts dir user org) dir.occupancies h,
  latest-later (counts dir user org) dir.occupancies h,
)

abbrev pub has_signal : List EmergencySignal → EmergencySignal → Bool
has_signal ss s = any (λ x. same_signal x s) ss

-- No signal stands twice.
abbrev pub AreOnce : List EmergencySignal → Type 0
AreOnce [] = Unit
AreOnce (s ∷ ss) = (has_signal ss s ≡ false) × AreOnce ss

has_signal-filter :
    (s t : EmergencySignal) (ss : List EmergencySignal)
    → has_signal (filter (λ x. not (same_signal x s)) ss) t
      ≡ (has_signal ss t && not (same_signal s t))
has_signal-filter s t [] = refl
has_signal-filter s t (x ∷ xs) = ground (arith, has_signal-filter s t xs)

AreOnce-filter :
    (s : EmergencySignal) (ss : List EmergencySignal)
    → AreOnce ss
    → AreOnce (filter (λ x. not (same_signal x s)) ss)
AreOnce-filter s [] h = tt
AreOnce-filter s (x ∷ xs) h = elim (Bool-cases (same_signal x s)) [
  | inl e ↦ rw e (AreOnce-filter s xs h.1)
  | inr e ↦ rw e (ground (arith, has_signal-filter s x xs), AreOnce-filter s xs h.1)
]

-- The signals that are stored are the ones given, each once.
pub normalize_signals-once :
    (ss : List EmergencySignal)
    → AreOnce (normalize_signals ss)
      × ((t : EmergencySignal) → has_signal (normalize_signals ss) t ≡ has_signal ss t)
unfolding normalize_signals
normalize_signals-once [] = (tt, λ t. refl)
normalize_signals-once (s ∷ ss) =
    let (once, same) = normalize_signals-once ss in
    (
      (
        ground (arith, has_signal-filter s s (normalize_signals ss)),
        AreOnce-filter s (normalize_signals ss) once,
      ),
      λ t. ground (arith, has_signal-filter s t (normalize_signals ss), same t),
    )
