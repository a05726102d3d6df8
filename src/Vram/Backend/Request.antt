-- ===== src/Vram/Backend/Request.antt =====
-- internal/backend/vram/vram.go: `selectInner`, `Infer` and what they call, over the request's
-- wishes. Of a `backend.Request` they read the image's length, the priority and the two tier labels.
pub mod Cascade
pub mod Quality
pub mod Slots
pub mod Liveness
use home_inference_server.Prelude.{
  ℕ, zero, suc, ◌+◌, ◌-◌, Bool, true, false, ◌&&◌, ◌||◌, not, Option, none, some, List, [], ◌∷◌,
  String, str_eq, if◌then◌else◌, ltb, ◌==◌, length,
}
use home_inference_server.Prelude.Int.{ℤ, pos, ltb_ℤ}
use home_inference_server.Types.Model.{ModelDescriptor, TierLabel, has_vision, tier_weak}
use home_inference_server.Vram.Layers.{effective_headroom_fits}
use home_inference_server.Vram.Backend.{
  Backend, State, Inner, Rate, Response, Error, Result, ok, err, backend_error, other_error, Effect,
  notified, effect, observed, reading, evict, tier_rank,
}
use home_inference_server.Vram.Backend.Load.{select_and_load}

pub record Request : Type 0 where
  pub image_length : ℕ
  pub priority : String
  pub min_tier : TierLabel
  pub preferred_tier : TierLabel

abbrev pub needs_vision_of : Request → Bool
needs_vision_of req = ltb 0 req.image_length

abbrev pub external_pressure_floor_mb : ℤ
external_pressure_floor_mb = pos 800

pub tier_by_label : TierLabel → List ModelDescriptor → Option ModelDescriptor
tier_by_label label [] = none
tier_by_label label (d ∷ r) = if str_eq d.tier_label label then some d else tier_by_label label r

-- `tierBelow`: the entry before the first one with the label.
below_after : TierLabel → ModelDescriptor → List ModelDescriptor → Option ModelDescriptor
below_after label before [] = none
below_after label before (d ∷ r) =
    if str_eq d.tier_label label then some before else below_after label d r

pub tier_below : TierLabel → List ModelDescriptor → Option ModelDescriptor
unfolding below_after
tier_below label [] = none
tier_below label (d ∷ r) = if str_eq d.tier_label label then none else below_after label d r

-- The `for next != nil && !next.HasVision()` of a vision request; the roster bounds its rounds.
vision_below : ℕ → List ModelDescriptor → Option ModelDescriptor → Option ModelDescriptor
vision_below zero roster next = next
vision_below (suc fuel) roster none = none
vision_below (suc fuel) roster (some d) =
    let lower = vision_below fuel roster (tier_below d.tier_label roster) in
    if has_vision d then some d else lower

next_tier : List ModelDescriptor → Bool → TierLabel → Option ModelDescriptor
unfolding vision_below
next_tier roster needs_vision label =
    if needs_vision
    then vision_below (length roster) roster (tier_below label roster)
    else tier_below label roster

-- `enforceMinTier`, where a minimum is given.
pub below_min : TierLabel → TierLabel → Bool
below_min min_tier label = not (str_eq min_tier "") && ltb (tier_rank label) (tier_rank min_tier)

speed_floor : String → Option ℕ
speed_floor priority =
    if str_eq priority "high" then some 8 else if str_eq priority "normal" then some 4 else none

-- `checkSpeedFloor` returns nil.
unfoldable pub meets_speed_floor : String → Rate → Bool
unfolding speed_floor
meets_speed_floor priority tps =
    if tps.is_zero
    then true
    else elim (speed_floor priority) [ none ↦ true | some floor ↦ not (tps.below floor) ]

-- `detectContention`: once per episode it warns; it changes nothing else.
pub detect_contention : Backend → ModelDescriptor → State → State
detect_contention b d s = elim (reading b s) [
  | none ↦ observed s
  | some avail ↦ if ltb_ℤ avail (pos 0) then observed s else record s {
    contention_logged =
        not (
          effective_headroom_fits d s.loaded_layers s.loaded_vision b.opts.max_parallel avail
            b.opts.buffer_pct)
        && ltb_ℤ avail external_pressure_floor_mb;
    observations = s.observations + 1;
  }
]

-- How a round of the loop in `selectInner` ends.
pub data Round : Type 0 where
  done : Result (ModelDescriptor × Inner) → State → Round
  cascade : ModelDescriptor → State → Round

-- The speed-floor cascade: a lower tier to try, or this one, degraded if need be.
below_floor : Backend → Request → ModelDescriptor → Inner → State → Round
below_floor b req d inner s = elim (next_tier b.roster (needs_vision_of req) d.tier_label) [
  | none ↦ done (ok (d, inner)) s
  | some next ↦
      if below_min req.min_tier next.tier_label then done (ok (d, inner)) s else cascade next s
]

measured : Backend → Request → Bool → ModelDescriptor → Inner → State → Round
unfolding below_floor
measured b req is_pinned d inner s =
    if is_pinned || not inner.measurable
    then done (ok (d, inner)) s
    else if meets_speed_floor req.priority (b.world.tok_per_sec s.observations d.tier_label)
    then done (ok (d, inner)) (observed s)
    else below_floor b req d inner (observed s)

judge : Backend → Request → Bool → Result ModelDescriptor × State → Round
unfolding measured
judge b req is_pinned (err e, s) = done (err e) s
judge b req is_pinned (ok d, s) =
    if below_min req.min_tier d.tier_label
    then done (err (backend_error "overloaded")) s
    else elim (b.inners d.tier_label) [
      | none ↦ done (err (backend_error "internal_error")) (detect_contention b d s)
      | some inner ↦ measured b req is_pinned d inner (detect_contention b d s)
    ]

round : Backend → Request → Bool → Option ModelDescriptor → State → Round
unfolding judge
round b req is_pinned forced s =
    judge b req is_pinned (select_and_load b forced (needs_vision_of req) s)

-- What follows a round.
after_round :
    (ModelDescriptor → State → Result (ModelDescriptor × Inner) × State)
    → Round
    → Result (ModelDescriptor × Inner) × State
after_round continue (done r s) = (r, s)
after_round continue (cascade next s) = continue next s

-- The loop, with what follows it: `rest` is the plain selection after the last round.
select_loop :
    Backend
    → Request
    → Bool
    → (Option ModelDescriptor → State → Result (ModelDescriptor × Inner) × State)
    → ℕ
    → Option ModelDescriptor
    → State
    → Result (ModelDescriptor × Inner) × State
unfolding after_round
select_loop b req is_pinned rest zero forced s = rest forced s
select_loop b req is_pinned rest (suc fuel) forced s =
    after_round (λ next s'. select_loop b req is_pinned rest fuel (some next) s')
      (round b req is_pinned forced s)

-- After the last round: whatever is selected is served by the inner backend that the map gives; a
-- missing one is a nil interface, on which the caller's call would panic.
nil_inner : Inner
nil_inner = record { gpu_layer_sink = false; vision_sink = false; measurable = false }

plain_selection :
    Backend → Request → Option ModelDescriptor → State → Result (ModelDescriptor × Inner) × State
unfolding nil_inner
plain_selection b req forced s =
    let r = select_and_load b forced (needs_vision_of req) s in
    elim r.0 [
      | err e ↦ (err e, r.1)
      | ok d ↦ elim (b.inners d.tier_label) [
        | none ↦ (ok (d, nil_inner), r.1)
        | some inner ↦ (ok (d, inner), r.1)
      ]
    ]

-- The pin: none is wanted, the request is refused, or the roster's entry.
pub data Pin : Type 0 where
  free : Pin
  invalid : Pin
  pinned : ModelDescriptor → Pin

pub pin_of : Backend → Request → Pin
pin_of b req =
    if str_eq req.preferred_tier ""
    then free
    else elim (tier_by_label req.preferred_tier b.roster) [
      | none ↦ invalid
      | some d ↦ if needs_vision_of req && not (has_vision d) then invalid else pinned d
    ]

select_from :
    Backend
    → Request
    → Option ModelDescriptor
    → Pin
    → State
    → Result (ModelDescriptor × Inner) × State
unfolding select_loop plain_selection
select_from b req initial invalid s = (err (backend_error "invalid_request"), s)
select_from b req initial (pinned d) s =
    select_loop b req true (plain_selection b req) (length b.roster) (some d) s
select_from b req initial free s =
    select_loop b req false (plain_selection b req) (length b.roster) initial s

pub select_inner :
    Backend → Request → Option ModelDescriptor → State → Result (ModelDescriptor × Inner) × State
unfolding select_from
select_inner b req initial s = select_from b req initial (pin_of b req) s

-- `oomFallbackTier`.
is_load_failure : Error → Bool
is_load_failure (backend_error code) = str_eq code "model_load_failed" || str_eq code "oom"
is_load_failure other_error = false

pub oom_fallback_tier : Backend → Request → ModelDescriptor → Error → Option ModelDescriptor
unfolding is_load_failure
oom_fallback_tier b req current e =
    if not (is_load_failure e) || not (str_eq req.preferred_tier "")
    then none
    else elim (tier_below current.tier_label b.roster) [
      | none ↦ none
      | some next ↦ if below_min req.min_tier next.tier_label then none else some next
    ]

-- `markDegraded`, on the response that has the tier already.
pub mark_degraded : Request → ModelDescriptor → Response → State → Response × State
mark_degraded req d resp s =
    if str_eq req.priority "high" && str_eq d.tier_label tier_weak
    then (record resp { quality_degraded = true }, effect notified s)
    else (resp, s)

answered : Request → ModelDescriptor → Response → State → Result Response × State
unfolding mark_degraded
answered req d resp s =
    let r = mark_degraded req d (record resp { model_tier = d.tier_label }) s in (ok r.0, r.1)

-- What follows the inner backend's answer: on a failed load, evict and go one tier down.
after_inference :
    Backend
    → Request
    → ModelDescriptor
    → (ModelDescriptor → State → Result Response × State)
    → Result Response
    → State
    → Result Response × State
unfolding answered
after_inference b req d retry (ok resp) s = answered req d resp s
after_inference b req d retry (err e) s = elim (oom_fallback_tier b req d e) [
  | none ↦ (err e, s)
  | some next ↦ retry next (evict b s)
]

after_selection :
    Backend
    → Request
    → (ModelDescriptor → State → Result Response × State)
    → Result (ModelDescriptor × Inner) × State
    → Result Response × State
unfolding after_inference
after_selection b req retry (err e, s) = (err e, s)
after_selection b req retry (ok (d, inner), s) =
    after_inference b req d retry (b.world.inner_infer s.observations d.tier_label) (observed s)

-- The loop of `Infer`.
infer_loop : Backend → Request → ℕ → Option ModelDescriptor → State → Result Response × State
unfolding after_selection
infer_loop b req zero forced s = (err (backend_error "overloaded"), s)
infer_loop b req (suc fuel) forced s =
    after_selection b req (λ next s'. infer_loop b req fuel (some next) s')
      (select_inner b req forced s)

-- A counted request: `inflight++`, and the deferred `inflight--`.
abbrev pub entered : State → State
entered s = record s { inflight = s.inflight + 1 }

abbrev pub left : State → State
left s = record s { inflight = s.inflight - 1 }

-- `Infer`; `slot` says which case of the first `select` is taken, a free slot or the done context.
pub infer : Backend → Request → Bool → State → Result Response × State
unfolding infer_loop
infer b req false s = (err (backend_error "timeout"), s)
infer b req true s = let r = infer_loop b req (length b.roster) none (entered s) in (r.0, left r.1)

-- `Shutdown` of the backend itself; it then shuts down every inner backend.
pub shutdown : State → State
shutdown s = record s {
  loaded_tier = none;
  loaded_layers = pos 0;
  loaded_vision = false;
  loaded_at = 0;
}
