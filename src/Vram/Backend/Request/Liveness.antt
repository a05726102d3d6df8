-- ===== src/Vram/Backend/Request/Liveness.antt =====
-- When nothing stands in the way, a request is answered.
use home_inference_server.Prelude.{
  ℕ, zero, suc, ◌<◌, true, false, Option, none, some, ◌≡◌, refl, sym, subst, arith, str_eq, length,
  Bool-cases, inl, inr,
}
use home_inference_server.Types.Model.{ModelDescriptor, TierLabel}
use home_inference_server.Vram.Backend.{Backend, Inner, Response, State, Result, ok, err, observed}
use home_inference_server.Vram.Backend.Load.{select_and_load}
use home_inference_server.Vram.Backend.Load.Liveness.{IsOk, Roomy, select_and_load-IsOk}
use home_inference_server.Vram.Backend.Request.{
  Request, needs_vision_of, below_min, meets_speed_floor, Round, done, cascade, measured, judge,
  round, after_round, select_loop, plain_selection, select_from, select_inner, free, pin_of,
  detect_contention, after_inference, after_selection, answered, infer_loop, entered, infer,
}

-- There is room; every tier has its inner backend, which answers; and each tier is fast enough for the
-- request's priority.
pub record Favourable (b : Backend) (req : Request) : Type 0 where
  pub room : Roomy b
  pub inner : (label : TierLabel) → (i : Inner) × (b.inners label ≡ some i)
  pub infers : (n : ℕ) (label : TierLabel) → (r : Response) × (b.world.inner_infer n label ≡ ok r)
  pub fast :
      (n : ℕ) (label : TierLabel)
      → meets_speed_floor req.priority (b.world.tok_per_sec n label) ≡ true

-- A text request that names neither a tier nor a minimum.
pub record Plain (req : Request) : Type 0 where
  pub text : needs_vision_of req ≡ false
  pub unpinned : str_eq req.preferred_tier "" ≡ true
  pub no_minimum : str_eq req.min_tier "" ≡ true

module _ (b : Backend) (req : Request) (fav : Favourable b req) (plain : Plain req) where
  -- A round that ends with a tier.
  IsServed : Round → Type 0
  IsServed r = (p : ModelDescriptor × Inner) × (s : State) × (r ≡ done (ok p) s)

  measured-IsServed :
      (d : ModelDescriptor) (i : Inner) (s : State) → IsServed (measured b req false d i s)
  unfolding measured IsServed
  measured-IsServed d i s = elim (Bool-cases i.measurable) [
    | inr blind ↦ simp (blind, measured) ((d, i), s, refl)
    | inl sees ↦
        simp (sees, fav.fast s.observations d.tier_label, measured) ((d, i), observed s, refl)
  ]

  judge-IsServed : (r : Result ModelDescriptor × State) → IsOk r → IsServed (judge b req false r)
  unfolding judge below_min
  judge-IsServed (err e, s) (d, h) = absurd (apart h)
    where
      apart : err e ≡ ok d → ⊥
      apart h = cc
  judge-IsServed (ok c, s) _ =
      let (i, has) = fav.inner c.tier_label in
      simp (plain.no_minimum, has, judge) (measured-IsServed c i (detect_contention b c s))

  round-IsServed : (s : State) → IsServed (round b req false none s)
  unfolding round
  round-IsServed s = judge-IsServed (select_and_load b none (needs_vision_of req) s) (
      subst (λ v. IsOk (select_and_load b none v s)) (sym plain.text)
        (select_and_load-IsOk b fav.room s))

  after-IsOk :
      (continue : ModelDescriptor → State → Result (ModelDescriptor × Inner) × State) (r : Round)
      → IsServed r
      → IsOk (after_round continue r)
  unfolding after_round IsServed
  after-IsOk continue (done r s) (p, t, h) = (p, same h)
    where
      same : done r s ≡ done (ok p) t → r ≡ ok p
      same e = cc
  after-IsOk continue (cascade next s) (p, t, h) = absurd (apart h)
    where
      apart : cascade next s ≡ done (ok p) t → ⊥
      apart e = cc

  select_loop-IsOk :
      (rest : Option ModelDescriptor → State → Result (ModelDescriptor × Inner) × State) (fuel : ℕ)
      (s : State)
      → IsOk (select_loop b req false rest (suc fuel) none s)
  unfolding select_loop
  select_loop-IsOk rest fuel s =
      after-IsOk (λ next s'. select_loop b req false rest fuel (some next) s')
        (round b req false none s) (round-IsServed s)

  pin-free : pin_of b req ≡ free
  unfolding pin_of
  pin-free = rw plain.unpinned refl

  from-IsOk : (n : ℕ) (s : State) → length b.roster ≡ suc n → IsOk (select_from b req none free s)
  unfolding select_from
  from-IsOk n s e = rw e (select_loop-IsOk (plain_selection b req) n s)

  select_inner-IsOk :
      (n : ℕ) (s : State) → length b.roster ≡ suc n → IsOk (select_inner b req none s)
  unfolding select_inner
  select_inner-IsOk n s e =
      subst (λ p. IsOk (select_from b req none p s)) (sym pin-free) (from-IsOk n s e)

  selection-IsOk :
      (retry : ModelDescriptor → State → Result Response × State)
      (r : Result (ModelDescriptor × Inner) × State)
      → IsOk r
      → IsOk (after_selection b req retry r)
  unfolding after_selection after_inference answered
  selection-IsOk retry (err e, s) (p, h) = absurd (apart h)
    where
      apart : err e ≡ ok p → ⊥
      apart f = cc
  selection-IsOk retry (ok (d, i), s) _ =
      let (resp, answer) = fav.infers s.observations d.tier_label in
      subst (λ o. IsOk (after_inference b req d retry o (observed s))) (sym answer) (_, refl)

  infer_loop-IsOk :
      (n : ℕ) (s : State) → length b.roster ≡ suc n → IsOk (infer_loop b req (suc n) none s)
  unfolding infer_loop
  infer_loop-IsOk n s e =
      selection-IsOk (λ next s'. infer_loop b req n (some next) s') (select_inner b req none s)
        (select_inner-IsOk n s e)

  loop-IsOk : (n : ℕ) (s : State) → length b.roster ≡ n → 0 < n → IsOk (infer_loop b req n none s)
  loop-IsOk zero s e h = absurd (omega (arith, h))
  loop-IsOk (suc n) s e h = infer_loop-IsOk n s e

-- A text request that names neither a tier nor a minimum and has a slot is answered, from every state,
-- if every reading of the free VRAM succeeds and finds a tier that fits, no load runs out of memory, every
-- tier has its inner backend, which answers, and each is fast enough for the request's priority.
pub infer-IsOk :
    (b : Backend) (req : Request) (s : State)
    → 0 < length b.roster
    → Favourable b req
    → Plain req
    → IsOk (infer b req true s)
unfolding infer
infer-IsOk b req s some_tier fav plain =
    loop-IsOk b req fav plain (length b.roster) (entered s) refl some_tier
