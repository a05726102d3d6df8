-- ===== src/Vram/Backend/Request/Slots.antt =====
-- The count of requests in flight, which keeps the eviction loop away: `Infer` takes its own request
-- off again on every path.
use home_inference_server.Prelude.{
  ℕ, zero, suc, Bool, true, false, Option, none, some, ◌≡◌, refl, ◌∙◌, arith, Bool-cases,
  Option-cases, inl, inr, length,
}
use home_inference_server.Types.Model.{ModelDescriptor}
use home_inference_server.Vram.Backend.{
  Backend, State, Inner, Response, Result, ok, err, observed, evict,
}
use home_inference_server.Vram.Backend.Load.Slots.{evict-inflight, select_and_load-inflight}
use home_inference_server.Vram.Backend.Request.{
  Request, Round, done, cascade, after_round, round, select_loop, plain_selection,
  detect_contention, below_min, needs_vision_of, judge, measured, below_floor, select_inner,
  select_from, pin_of, Pin, free, invalid, pinned, infer_loop, infer, entered, oom_fallback_tier,
  answered, after_inference, after_selection,
}

detect-inflight :
    (b : Backend) (d : ModelDescriptor) (s : State)
    → (detect_contention b d s).inflight ≡ s.inflight
unfolding detect_contention
detect-inflight b d s = ground arith

abbrev round_state : Round → State
round_state (done r s) = s
round_state (cascade next s) = s

below_floor-inflight :
    (b : Backend) (req : Request) (d : ModelDescriptor) (i : Inner) (s : State)
    → (round_state (below_floor b req d i s)).inflight ≡ s.inflight
unfolding below_floor
below_floor-inflight b req d i s = ground arith

measured-inflight :
    (b : Backend) (req : Request) (p : Bool) (d : ModelDescriptor) (i : Inner) (s : State)
    → (round_state (measured b req p d i s)).inflight ≡ s.inflight
unfolding measured
measured-inflight b req p d i s = ground (arith, below_floor-inflight b req d i (observed s))

judge-inflight :
    (b : Backend) (req : Request) (p : Bool) (r : Result ModelDescriptor × State)
    → (round_state (judge b req p r)).inflight ≡ r.1.inflight
unfolding judge
judge-inflight b req p (err e, s) = refl
judge-inflight b req p (ok d, s) = elim (Bool-cases (below_min req.min_tier d.tier_label)) [
  | inl low ↦ rw low
  | inr fine ↦ elim (Option-cases (b.inners d.tier_label)) [
    | inl e ↦ rw fine (rw (e, judge) (detect-inflight b d s))
    | inr (i, e) ↦ rw fine (
        rw (e, judge)
          (measured-inflight b req p d i (detect_contention b d s) ∙ detect-inflight b d s))
  ]
]

round-inflight :
    (b : Backend) (req : Request) (p : Bool) (f : Option ModelDescriptor) (s : State)
    → (round_state (round b req p f s)).inflight ≡ s.inflight
unfolding round
round-inflight b req p f s =
    judge-inflight b req p _ ∙ select_and_load-inflight b f (needs_vision_of req) s

after_round-inflight :
    (continue : ModelDescriptor → State → Result (ModelDescriptor × Inner) × State)
    → ((next : ModelDescriptor) (t : State) → (continue next t).1.inflight ≡ t.inflight)
    → (r : Round) → (after_round continue r).1.inflight ≡ (round_state r).inflight
unfolding after_round
after_round-inflight continue keep (done r s) = refl
after_round-inflight continue keep (cascade next s) = keep next s

plain-inflight :
    (b : Backend) (req : Request) (f : Option ModelDescriptor) (s : State)
    → (plain_selection b req f s).1.inflight ≡ s.inflight
unfolding plain_selection
plain-inflight b req f s = ground (arith, select_and_load-inflight b f (needs_vision_of req) s)

select_loop-inflight :
    (b : Backend) (req : Request) (p : Bool) (fuel : ℕ) (f : Option ModelDescriptor) (s : State)
    → (select_loop b req p (plain_selection b req) fuel f s).1.inflight ≡ s.inflight
unfolding select_loop
select_loop-inflight b req p zero f s = plain-inflight b req f s
select_loop-inflight b req p (suc fuel) f s =
    after_round-inflight _ (λ next t. select_loop-inflight b req p fuel (some next) t)
      (round b req p f s)
    ∙ round-inflight b req p f s

select_from-inflight :
    (b : Backend) (req : Request) (f : Option ModelDescriptor) (p : Pin) (s : State)
    → (select_from b req f p s).1.inflight ≡ s.inflight
unfolding select_from
select_from-inflight b req f invalid s = refl
select_from-inflight b req f (pinned d) s = select_loop-inflight b req true _ (some d) s
select_from-inflight b req f free s = select_loop-inflight b req false _ f s

pub select_inner-inflight :
    (b : Backend) (req : Request) (f : Option ModelDescriptor) (s : State)
    → (select_inner b req f s).1.inflight ≡ s.inflight
unfolding select_inner
select_inner-inflight b req f s = select_from-inflight b req f (pin_of b req) s

answered-inflight :
    (req : Request) (d : ModelDescriptor) (resp : Response) (s : State)
    → (answered req d resp s).1.inflight ≡ s.inflight
unfolding answered
answered-inflight req d resp s = ground arith

module _ (b : Backend) (req : Request) (retry : ModelDescriptor → State → Result Response × State)
    (keep : (next : ModelDescriptor) (t : State) → (retry next t).1.inflight ≡ t.inflight) where
  after_inference-inflight :
      (d : ModelDescriptor) (r : Result Response) (s : State)
      → (after_inference b req d retry r s).1.inflight ≡ s.inflight
  unfolding after_inference
  after_inference-inflight d (ok resp) s = answered-inflight req d resp s
  after_inference-inflight d (err e) s = elim (Option-cases (oom_fallback_tier b req d e)) [
    | inl last ↦ rw (last, after_inference)
    | inr (next, o) ↦ rw (o, after_inference) (keep next (evict b s) ∙ evict-inflight b s)
  ]

  after_selection-inflight :
      (picked : Result (ModelDescriptor × Inner) × State)
      → (after_selection b req retry picked).1.inflight ≡ picked.1.inflight
  unfolding after_selection
  after_selection-inflight (err e, s) = refl
  after_selection-inflight (ok (d, i), s) =
      after_inference-inflight d (b.world.inner_infer s.observations d.tier_label) (observed s)

infer_loop-inflight :
    (b : Backend) (req : Request) (fuel : ℕ) (f : Option ModelDescriptor) (s : State)
    → (infer_loop b req fuel f s).1.inflight ≡ s.inflight
unfolding infer_loop
infer_loop-inflight b req zero f s = refl
infer_loop-inflight b req (suc fuel) f s =
    after_selection-inflight b req (λ next t. infer_loop b req fuel (some next) t)
      (λ next t. infer_loop-inflight b req fuel (some next) t) (select_inner b req f s)
    ∙ select_inner-inflight b req f s

-- `Infer` leaves the count of requests in flight as it found it, whether it answers, fails at the
-- selection, fails in the inner backend, runs through the roster or is cancelled before it has a slot.
pub infer-inflight :
    (b : Backend) (req : Request) (slot : Bool) (s : State)
    → (infer b req slot s).1.inflight ≡ s.inflight
unfolding infer
infer-inflight b req false s = refl
infer-inflight b req true s =
    omega (arith, infer_loop-inflight b req (length b.roster) none (entered s))
