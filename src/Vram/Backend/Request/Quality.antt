-- ===== src/Vram/Backend/Request/Quality.antt =====
-- What an answer of `Infer` says of the tier that it was made on.
use home_inference_server.Prelude.{
  ℕ, zero, suc, ◌<◌, Bool, true, false, ◌&&◌, Option, none, some, ◌≡◌, refl, arith, str_eq,
  Bool-cases, Option-cases, inl, inr, length,
}
use home_inference_server.Types.Model.{ModelDescriptor, tier_weak}
use home_inference_server.Vram.Backend.{
  Backend, State, Inner, Response, Result, ok, err, observed, evict,
}
use home_inference_server.Vram.Backend.Load.Residency.{IsConsistent, evict-loaded}
use home_inference_server.Vram.Backend.Request.{
  Request, below_min, select_inner, infer_loop, infer, entered, left, oom_fallback_tier, answered,
  after_inference, after_selection,
}
use home_inference_server.Vram.Backend.Request.Cascade.{
  Honours, Answers, keeps_pin, select_inner-Answers, observed-Honours, Honours-IsConsistent,
}

-- A response that names the tier that is loaded, one within the request's wishes, and says so when a
-- high-priority request was answered by the weak tier.
pub record IsHonest (req : Request) (resp : Response) (s : State) : Type 0 where
  pub tier : ModelDescriptor
  pub loaded : s.loaded_tier ≡ some tier
  pub named : resp.model_tier ≡ tier.tier_label
  pub minimum : below_min req.min_tier resp.model_tier ≡ false
  pub pin : keeps_pin req resp.model_tier ≡ true
  pub degraded :
      str_eq req.priority "high" ≡ true
      → str_eq resp.model_tier tier_weak ≡ true
      → resp.quality_degraded ≡ true

abbrev pub Outcome : Request → Result Response × State → Type 0
Outcome req (ok resp, s) = IsHonest req resp s
Outcome req (err e, s) = IsConsistent s

not_both : {x y : Bool} → x ≡ true → y ≡ true → x && y ≡ false → ⊥
not_both p q r = ground arith

answered-Outcome :
    (req : Request) (d : ModelDescriptor) (resp : Response) (s : State)
    → Honours req d s
    → keeps_pin req d.tier_label ≡ true
    → Outcome req (answered req d resp s)
unfolding answered
answered-Outcome req d resp s h k =
    elim (Bool-cases (str_eq req.priority "high" && str_eq d.tier_label tier_weak)) [
      | inl weak ↦ rw weak (record {
        tier = d;
        loaded = h.loaded;
        named = refl;
        minimum = h.minimum;
        pin = k;
        degraded = λ _ _. refl;
      })
      | inr fine ↦ rw fine (record {
        tier = d;
        loaded = h.loaded;
        named = refl;
        minimum = h.minimum;
        pin = k;
        degraded = λ high low. absurd (not_both high low fine);
      })
    ]

evict-IsConsistent : (b : Backend) (s : State) → IsConsistent (evict b s)
evict-IsConsistent b s = rw (evict-loaded b s)

module _ (b : Backend) (req : Request) (retry : ModelDescriptor → State → Result Response × State)
    (keep : (next : ModelDescriptor) (t : State)
      → IsConsistent t
      → Outcome req (retry next t)) where
  after_inference-Outcome :
      (d : ModelDescriptor) (r : Result Response) (s : State)
      → Honours req d s
      → keeps_pin req d.tier_label ≡ true
      → IsConsistent s
      → Outcome req (after_inference b req d retry r s)
  unfolding after_inference
  after_inference-Outcome d (ok resp) s h p k = answered-Outcome req d resp s h p
  after_inference-Outcome d (err e) s h p k = elim (Option-cases (oom_fallback_tier b req d e)) [
    | inl last ↦ rw (last, after_inference) k
    | inr (next, o) ↦ rw (o, after_inference) (keep next (evict b s) (evict-IsConsistent b s))
  ]

  after_selection-Outcome :
      (picked : Result (ModelDescriptor × Inner) × State)
      → Answers req (keeps_pin req) picked
      → Outcome req (after_selection b req retry picked)
  unfolding after_selection
  after_selection-Outcome (err e, s) h = h
  after_selection-Outcome (ok (d, i), s) (h, p) =
      after_inference-Outcome d (b.world.inner_infer s.observations d.tier_label) (observed s)
        (observed-Honours req d s h) p (Honours-IsConsistent req d s h)

infer_loop-Outcome :
    (b : Backend) (req : Request) (fuel : ℕ) (f : Option ModelDescriptor) (s : State)
    → 0 < length b.roster
    → IsConsistent s
    → Outcome req (infer_loop b req fuel f s)
unfolding infer_loop
infer_loop-Outcome b req zero f s some_tier k = k
infer_loop-Outcome b req (suc fuel) f s some_tier k =
    after_selection-Outcome b req _
      (λ next t k'. infer_loop-Outcome b req fuel (some next) t some_tier k')
      (select_inner b req f s) (select_inner-Answers b req f s some_tier k)

left-Outcome :
    (req : Request) (r : Result Response × State) → Outcome req r → Outcome req (r.0, left r.1)
left-Outcome req (ok resp, s) h = record {
  tier = h.tier;
  loaded = h.loaded;
  named = h.named;
  minimum = h.minimum;
  pin = h.pin;
  degraded = h.degraded;
}
left-Outcome req (err e, s) h = h

-- `Infer` on a roster that is not empty, from a state in which a model in vision mode has a vision
-- variant: an answer names the tier that is loaded; that tier is not
-- below the request's minimum and is the preferred one if the request names one; and a high-priority
-- request that the weak tier answered is marked degraded. An error leaves the state consistent.
pub infer-Outcome :
    (b : Backend) (req : Request) (slot : Bool) (s : State)
    → 0 < length b.roster
    → IsConsistent s
    → Outcome req (infer b req slot s)
unfolding infer
infer-Outcome b req false s some_tier k = k
infer-Outcome b req true s some_tier k =
    left-Outcome req (infer_loop b req (length b.roster) none (entered s))
      (infer_loop-Outcome b req (length b.roster) none (entered s) some_tier k)
