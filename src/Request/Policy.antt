-- ===== src/Request/Policy.antt =====
-- maintenance-request-policy.ts: how a request is routed, and the work queue that shows it.
pub mod Routes
pub mod Queues
use towerdesk_backend_clean.Prelude.{
  ℕ, ◌+◌, ◌*◌, Bool, true, false, not, ◌&&◌, ◌||◌, Option, none, some, List, [], ◌∷◌, ◌++◌, Text,
  codes, trim, to_lower_case, collapse_spaces, includes, any, ltb, leb, if◌then◌else◌, or_else,
  is_true, ◌==◌,
}
use towerdesk_backend_clean.Request.Types.{
  Status, ApprovalStatus, EstimateStatus, EmergencySignal, Recommendation, Route, Queue,
  RequestType, Priority, Rest, Amount,
}

-- A `null` of `emergencySignals` is the empty list; times are milliseconds.
pub record PolicyInput : Type 0 where
  pub status : Option Status
  pub owner_approval_status : Option ApprovalStatus
  pub estimate_status : Option EstimateStatus
  pub estimated_amount : Option Amount
  pub is_emergency : Option Bool
  pub emergency_signals : List EmergencySignal
  pub is_like_for_like : Option Bool
  pub is_upgrade : Option Bool
  pub is_major_replacement : Option Bool
  pub is_responsibility_disputed : Option Bool
  pub created_at : Option ℕ
  pub title : Option Text
  pub description : Option Text
  pub type : Option RequestType
  pub priority : Option Priority

abbrev emergency_keywords : List Text
emergency_keywords =
    codes "water leak"
    ∷ codes "leak causing damage"
    ∷ codes "flood"
    ∷ codes "flooding"
    ∷ codes "burst pipe"
    ∷ codes "sewage"
    ∷ codes "backup"
    ∷ codes "electrical hazard"
    ∷ codes "sparking"
    ∷ codes "spark"
    ∷ codes "fire"
    ∷ codes "smoke"
    ∷ codes "gas leak"
    ∷ codes "no power"
    ∷ codes "power outage"
    ∷ codes "security risk"
    ∷ codes "unsafe"
    ∷ []

abbrev direct_assign_keywords : List Text
direct_assign_keywords =
    codes "light bulb"
    ∷ codes "bulb out"
    ∷ codes "switch plate"
    ∷ codes "faceplate"
    ∷ codes "door jammed"
    ∷ codes "door handle"
    ∷ codes "lock repair"
    ∷ codes "handle repair"
    ∷ codes "dripping faucet"
    ∷ codes "faucet drip"
    ∷ codes "minor leak"
    ∷ codes "small leak"
    ∷ codes "touch up"
    ∷ codes "touch-up"
    ∷ []

normalize_text : PolicyInput → Text
normalize_text i =
    collapse_spaces (to_lower_case (trim (or_else i.title [] ++ (32 ∷ or_else i.description []))))

has_any_keyword : Text → List Text → Bool
has_any_keyword text keywords = any (λ k. includes text k) keywords

pub infer_emergency_from_intake : PolicyInput → Bool
unfolding normalize_text has_any_keyword trim to_lower_case collapse_spaces includes
infer_emergency_from_intake i = has_any_keyword (normalize_text i) emergency_keywords

abbrev pub has_emergency_signals : PolicyInput → Bool
has_emergency_signals i = elim i.emergency_signals [ [] ↦ false | s ∷ ss ↦ true ]

abbrev is_high : Option Priority → Bool
is_high (some Priority.high) = true
is_high _ = false

-- The four tests on the type of the request.
infer_from_type : Option RequestType → Option Priority → Text → Bool
infer_from_type (some RequestType.cleaning) p text = not (is_high p)
infer_from_type (some RequestType.electrical) p text =
    includes text (codes "light") || includes text (codes "bulb") || includes text (codes "switch")
infer_from_type (some RequestType.plumbing_ac_heating) p text =
    includes text (codes "faucet") || includes text (codes "drip")
infer_from_type (some RequestType.maintenance) p text =
    includes text (codes "lock") || includes text (codes "handle") || includes text (codes "door")
infer_from_type _ p text = false

pub infer_direct_assign_from_intake : PolicyInput → Bool
unfolding normalize_text has_any_keyword infer_from_type trim to_lower_case collapse_spaces includes
infer_direct_assign_from_intake i =
    let text = normalize_text i in
    has_any_keyword text direct_assign_keywords || infer_from_type i.type i.priority text

-- The disjunction that stands twice in `getMaintenanceRequestPolicyRoute`.
abbrev pub is_emergency_indicated : PolicyInput → Bool
is_emergency_indicated i =
    is_true i.is_emergency || has_emergency_signals i || infer_emergency_from_intake i

abbrev pub is_requested : EstimateStatus → Bool
is_requested EstimateStatus.requested = true
is_requested _ = false

abbrev pub is_pending : ApprovalStatus → Bool
is_pending ApprovalStatus.pending = true
is_pending _ = false

abbrev pub is_rejected : ApprovalStatus → Bool
is_rejected ApprovalStatus.rejected = true
is_rejected _ = false

abbrev pub is_approved : ApprovalStatus → Bool
is_approved ApprovalStatus.approved = true
is_approved _ = false

abbrev pub is_not_required : ApprovalStatus → Bool
is_not_required ApprovalStatus.not_required = true
is_not_required _ = false

-- `value === false`
abbrev pub is_false : Option Bool → Bool
is_false (some false) = true
is_false _ = false

-- 1000 in hundredths.
abbrev pub approval_threshold : ℕ
approval_threshold = 100000

abbrev pub approval_of : PolicyInput → ApprovalStatus
approval_of i = or_else i.owner_approval_status ApprovalStatus.not_required

abbrev pub estimate_of : PolicyInput → EstimateStatus
estimate_of i = or_else i.estimate_status EstimateStatus.not_requested

abbrev has_rest : Rest → Bool
has_rest Rest.nothing = false
has_rest _ = true

-- The amount is above the threshold, be it by less than a hundredth.
unfoldable pub is_above_threshold : Amount → Bool
is_above_threshold a =
    ltb approval_threshold a.hundredths || ((a.hundredths == approval_threshold) && has_rest a.rest)

route_by_amount : PolicyInput → Option Amount → Route
route_by_amount i (some amount) =
    if is_above_threshold amount then Route.owner_approval_required else Route.direct_assign
route_by_amount i none =
    if is_true i.is_like_for_like || infer_direct_assign_from_intake i
    then Route.direct_assign
    else Route.needs_estimate

-- `getMaintenanceRequestPolicyRoute`
unfoldable pub policy_route : PolicyInput → Route
unfolding route_by_amount
policy_route i =
    if is_requested (estimate_of i)
    then Route.needs_estimate
    else if is_pending (approval_of i) || is_rejected (approval_of i)
    then Route.owner_approval_required
    else if is_approved (approval_of i)
    then if is_emergency_indicated i then Route.emergency_dispatch else Route.direct_assign
    else if is_emergency_indicated i
    then Route.emergency_dispatch
    else if is_true i.is_upgrade
        || is_true i.is_major_replacement
        || is_true i.is_responsibility_disputed
    then Route.owner_approval_required
    else if is_false i.is_like_for_like
    then Route.owner_approval_required
    else route_by_amount i i.estimated_amount

recommendation_of : Route → Recommendation
recommendation_of Route.direct_assign = Recommendation.proceed_now
recommendation_of Route.emergency_dispatch = Recommendation.proceed_and_notify
recommendation_of Route.owner_approval_required = Recommendation.request_owner_approval
recommendation_of Route.needs_estimate = Recommendation.get_estimate

-- `getMaintenanceRequestPolicyRecommendation`
unfoldable pub policy_recommendation : PolicyInput → Recommendation
unfolding recommendation_of
policy_recommendation i = recommendation_of (policy_route i)

abbrev overdue_ms : ℕ
overdue_ms = 72 * 60 * 60 * 1000

abbrev is_active : Option Status → Bool
is_active (some Status.opened) = true
is_active (some Status.assigned) = true
is_active (some Status.in_progress) = true
is_active _ = false

is_created_before : Option ℕ → ℕ → Bool
is_created_before none now = false
is_created_before (some created) now = leb (created + overdue_ms) now

-- `isMaintenanceRequestOverdue`
unfoldable pub is_overdue : PolicyInput → ℕ → Bool
unfolding is_created_before
is_overdue i now = is_active i.status && is_created_before i.created_at now

abbrev is_opened : Option Status → Bool
is_opened (some Status.opened) = true
is_opened _ = false

abbrev is_assigned : Option Status → Bool
is_assigned (some Status.assigned) = true
is_assigned _ = false

abbrev is_in_progress : Option Status → Bool
is_in_progress (some Status.in_progress) = true
is_in_progress _ = false

abbrev pub is_ready : Route → Bool
is_ready Route.direct_assign = true
is_ready Route.emergency_dispatch = true
is_ready _ = false

abbrev is_needs_estimate : Route → Bool
is_needs_estimate Route.needs_estimate = true
is_needs_estimate _ = false

-- `matchesMaintenanceRequestQueue`
unfoldable pub matches_queue : Queue → PolicyInput → ℕ → Bool
matches_queue Queue.new i now =
    is_opened i.status
    && is_not_required (approval_of i)
    && not (is_needs_estimate (policy_route i))
    && not (is_ready (policy_route i))
matches_queue Queue.needs_estimate i now =
    is_not_required (approval_of i)
    && is_needs_estimate (policy_route i)
    && not (is_requested (estimate_of i))
    && is_opened i.status
matches_queue Queue.awaiting_estimate i now =
    is_not_required (approval_of i)
    && is_needs_estimate (policy_route i)
    && is_requested (estimate_of i)
matches_queue Queue.awaiting_owner i now = is_pending (approval_of i)
matches_queue Queue.ready_to_assign i now =
    is_opened i.status
    && not (is_pending (approval_of i))
    && not (is_rejected (approval_of i))
    && is_ready (policy_route i)
matches_queue Queue.assigned i now = is_assigned i.status
matches_queue Queue.in_progress i now = is_in_progress i.status
matches_queue Queue.overdue i now = is_overdue i now

-- `getPrimaryMaintenanceRequestQueue`
unfoldable pub primary_queue : PolicyInput → ℕ → Option Queue
primary_queue i now =
    if matches_queue Queue.overdue i now
    then some Queue.overdue
    else if matches_queue Queue.awaiting_owner i now
    then some Queue.awaiting_owner
    else if matches_queue Queue.awaiting_estimate i now
    then some Queue.awaiting_estimate
    else if matches_queue Queue.needs_estimate i now
    then some Queue.needs_estimate
    else if matches_queue Queue.in_progress i now
    then some Queue.in_progress
    else if matches_queue Queue.assigned i now
    then some Queue.assigned
    else if matches_queue Queue.ready_to_assign i now
    then some Queue.ready_to_assign
    else if matches_queue Queue.new i now
    then some Queue.new
    else none
