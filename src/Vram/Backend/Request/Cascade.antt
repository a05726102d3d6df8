-- ===== src/Vram/Backend/Request/Cascade.antt =====
-- The loop of `selectInner`: it ends by a return, and what it returns honours the request.
use home_inference_server.Prelude.{
  ℕ, zero, suc, ◌-◌, ◌≤◌, ◌<◌, Bool, true, false, ◌&&◌, ◌||◌, not, Option, none, some, List, [],
  ◌∷◌, ◌≡◌, refl, sym, subst, ap, ◌∙◌, str_eq, str_eq_iff, arith, if◌then◌else◌, Bool-cases,
  Option-cases, ◌⊎◌, inl, inr, length,
}
use home_inference_server.Types.Model.{ModelDescriptor, TierLabel, has_vision}
use home_inference_server.Vram.Backend.{Backend, State, Inner, Result, ok, err, observed, reading}
use home_inference_server.Vram.Backend.Choose.{matches}
use home_inference_server.Vram.Backend.Load.{label_of}
use home_inference_server.Vram.Backend.Load.Residency.{
  IsConsistent, Serves, select_and_load-Serves, Serves-IsConsistent,
}
use home_inference_server.Vram.Backend.Request.{
  Request, needs_vision_of, tier_by_label, below_after, tier_below, vision_below, next_tier,
  below_min, meets_speed_floor, detect_contention, Round, done, cascade, after_round, below_floor,
  measured, judge, round, select_loop, plain_selection, free, invalid, pinned, pin_of, select_from,
  select_inner,
}

-- The position of the first entry with a label; the length if there is none.
index_of : TierLabel → List ModelDescriptor → ℕ
index_of label [] = 0
index_of label (d ∷ r) = if str_eq d.tier_label label then 0 else suc (index_of label r)

index_of-head : (d : ModelDescriptor) (r : List ModelDescriptor) → index_of d.tier_label (d ∷ r) ≡ 0
unfolding index_of
index_of-head d r = ground (arith, str_eq_iff d.tier_label d.tier_label)

below_after-index :
    (label : TierLabel) (before : ModelDescriptor) (r : List ModelDescriptor)
    (next : ModelDescriptor)
    → below_after label before r ≡ some next
    → (index_of next.tier_label (before ∷ r) ≤ index_of label r) × (index_of label r < length r)
unfolding below_after index_of
below_after-index label before [] next h = cc
below_after-index label before (d ∷ r) next h = ground (
  arith,
  below_after-index label d r next,
  index_of-head before (d ∷ r),
  str_eq_iff before.tier_label before.tier_label,
)

-- The tier below stands earlier in the roster.
tier_below-index :
    (label : TierLabel) (roster : List ModelDescriptor) (next : ModelDescriptor)
    → tier_below label roster ≡ some next
    → (index_of next.tier_label roster < index_of label roster)
      × (index_of label roster < length roster)
unfolding tier_below index_of
tier_below-index label [] next h = cc
tier_below-index label (d ∷ r) next h = ground (arith, below_after-index label d r next)

vision_below-none :
    (fuel : ℕ) (roster : List ModelDescriptor) → vision_below fuel roster none ≡ none
unfolding vision_below
vision_below-none zero roster = refl
vision_below-none (suc fuel) roster = refl

vision_below-index :
    (fuel : ℕ) (roster : List ModelDescriptor) (d next : ModelDescriptor)
    → vision_below fuel roster (some d) ≡ some next
    → index_of next.tier_label roster ≤ index_of d.tier_label roster
unfolding vision_below
vision_below-index zero roster d next h = ground arith
vision_below-index (suc fuel) roster d next h =
    elim (Option-cases (tier_below d.tier_label roster)) [
      | inl e ↦ ground (arith, vision_below-none fuel roster, ap (vision_below fuel roster) e)
      | inr (lower, e) ↦ ground (
        arith,
        ap (vision_below fuel roster) e,
        vision_below-index fuel roster lower next,
        tier_below-index d.tier_label roster lower e,
      )
    ]

next_tier-index :
    (roster : List ModelDescriptor) (v : Bool) (label : TierLabel) (next : ModelDescriptor)
    → next_tier roster v label ≡ some next
    → (index_of next.tier_label roster < index_of label roster)
      × (index_of label roster < length roster)
unfolding next_tier
next_tier-index roster v label next h = elim (Option-cases (tier_below label roster)) [
  | inl e ↦
      ground (
        arith,
        vision_below-none (length roster) roster,
        ap (vision_below (length roster) roster) e,
      )
  | inr (lower, e) ↦ ground (
    arith,
    ap (vision_below (length roster) roster) e,
    vision_below-index (length roster) roster lower next,
    tier_below-index label roster lower e,
  )
]

-- An answer of `selectInner`: it meets the minimum tier, it is loaded in the right mode, and it has
-- vision if the request carries an image.
pub record Honours (req : Request) (d : ModelDescriptor) (s : State) : Type 0 where
  pub minimum : below_min req.min_tier d.tier_label ≡ false
  pub loaded : s.loaded_tier ≡ some d
  pub mode : s.loaded_vision ≡ needs_vision_of req
  pub vision : matches none (needs_vision_of req) d ≡ true

-- A label that a forced choice leaves.
abbrev allows : Option ModelDescriptor → TierLabel → Bool
allows none label = true
allows (some f) label = str_eq label f.tier_label

abbrev RoundOk : Backend → Request → Bool → Option ModelDescriptor → Round → Type 0
RoundOk b req p forced (done (ok (d, i)) t) = Honours req d t × (allows forced d.tier_label ≡ true)
RoundOk b req p forced (done (err e) t) = IsConsistent t
RoundOk b req p forced (cascade next t) =
    IsConsistent t
    × (p ≡ false)
    × (label : TierLabel) × (allows forced label ≡ true)
    × (index_of next.tier_label b.roster < index_of label b.roster)
    × (index_of label b.roster < length b.roster)

matches-split :
    (forced : Option ModelDescriptor) (v : Bool) (d : ModelDescriptor)
    → matches (label_of forced) v d ≡ true
    → (matches none v d ≡ true) × (allows forced d.tier_label ≡ true)
unfolding matches
matches-split none v d h = (h, refl)
matches-split (some f) v d h = ground arith

-- The state that a contention check leaves.
detect-loaded :
    (b : Backend) (d : ModelDescriptor) (s : State)
    → ((detect_contention b d s).loaded_tier ≡ s.loaded_tier)
      × ((detect_contention b d s).loaded_vision ≡ s.loaded_vision)
unfolding detect_contention
detect-loaded b d s = elim (Option-cases (reading b s)) [
  | inl e ↦ rw (e, detect_contention) (refl, refl)
  | inr (a, e) ↦ rw (e, detect_contention) (ground arith)
]

pub observed-Honours :
    (req : Request) (d : ModelDescriptor) (s : State) → Honours req d s → Honours req d (observed s)
observed-Honours req d s h = record {
  minimum = h.minimum;
  loaded = h.loaded;
  mode = h.mode;
  vision = h.vision;
}

below_floor-RoundOk :
    (b : Backend) (req : Request) (forced : Option ModelDescriptor) (d : ModelDescriptor)
    (i : Inner) (s : State)
    → Honours req d s
    → allows forced d.tier_label ≡ true
    → IsConsistent s
    → RoundOk b req false forced (below_floor b req d i s)
unfolding below_floor
below_floor-RoundOk b req forced d i s h a k =
    elim (Option-cases (next_tier b.roster (needs_vision_of req) d.tier_label)) [
      | inl e ↦ rw (e, below_floor) (h, a)
      | inr (next, e) ↦
          rw (e, below_floor)
            (elim (Bool-cases (below_min req.min_tier next.tier_label)) [
              | inl low ↦ rw low (h, a)
              | inr fine ↦
                  let (less, there) =
                    next_tier-index b.roster (needs_vision_of req) d.tier_label next e in
                  rw fine (k, refl, d.tier_label, a, less, there)
            ])
    ]

measured-RoundOk :
    (b : Backend) (req : Request) (p : Bool) (forced : Option ModelDescriptor) (d : ModelDescriptor)
    (i : Inner) (s : State)
    → Honours req d s
    → allows forced d.tier_label ≡ true
    → IsConsistent s
    → RoundOk b req p forced (measured b req p d i s)
unfolding measured
measured-RoundOk b req true forced d i s h a k = (h, a)
measured-RoundOk b req false forced d i s h a k = elim (Bool-cases i.measurable) [
  | inr blind ↦ simp blind (h, a)
  | inl seen ↦
      simp seen
        (elim (Bool-cases
          (meets_speed_floor req.priority (b.world.tok_per_sec s.observations d.tier_label))) [
            | inl fast ↦ rw fast (observed-Honours req d s h, a)
            | inr slow ↦
                rw slow (
                  below_floor-RoundOk b req forced d i (observed s) (observed-Honours req d s h) a
                    k)
          ])
]

judge-RoundOk :
    (b : Backend) (req : Request) (p : Bool) (forced : Option ModelDescriptor)
    (r : Result ModelDescriptor × State)
    → Serves (label_of forced) (needs_vision_of req) r
    → RoundOk b req p forced (judge b req p r)
unfolding judge
judge-RoundOk b req p forced (err e, s) h = h
judge-RoundOk b req p forced (ok d, s) h = elim (Bool-cases (below_min req.min_tier d.tier_label)) [
  | inl low ↦ rw low (Serves-IsConsistent (label_of forced) (needs_vision_of req) (ok d, s) h)
  | inr fine ↦
      let k = Serves-IsConsistent (label_of forced) (needs_vision_of req) (ok d, s) h in
      let l = detect-loaded b d s in
      let m = matches-split forced (needs_vision_of req) d h.2 in
      let k' : IsConsistent (detect_contention b d s) = rw (l.0, l.1) k in
      rw fine (elim (Option-cases (b.inners d.tier_label)) [
        | inl missing ↦ rw (missing, judge) k'
        | inr (i, there) ↦
            rw (there, judge)
              (measured-RoundOk b req p forced d i (detect_contention b d s)
                (record { minimum = fine; loaded = l.0 ∙ h.0; mode = l.1 ∙ h.1; vision = m.0 }) m.1
                k')
      ])
]

round-RoundOk :
    (b : Backend) (req : Request) (p : Bool) (forced : Option ModelDescriptor) (s : State)
    → IsConsistent s
    → RoundOk b req p forced (round b req p forced s)
unfolding round
round-RoundOk b req p forced s k =
    judge-RoundOk b req p forced _ (select_and_load-Serves b forced (needs_vision_of req) s k)

-- The outcome of `selectInner`.
abbrev pub Answers :
    Request → (TierLabel → Bool) → Result (ModelDescriptor × Inner) × State → Type 0
Answers req pin (ok (d, i), t) = Honours req d t × (pin d.tier_label ≡ true)
Answers req pin (err e, t) = IsConsistent t

-- What bounds the rounds: every entry that the next one may land on stands below the fuel.
abbrev Bounded : Backend → Option ModelDescriptor → ℕ → Type 0
Bounded b forced fuel =
    (label : TierLabel)
    → allows forced label ≡ true
    → index_of label b.roster < length b.roster
    → index_of label b.roster < fuel

-- The pin that a caller wants to see kept: in a pinned request every allowed label has it.
abbrev Keeps : (TierLabel → Bool) → Bool → Option ModelDescriptor → Type 0
Keeps pin p forced =
    (label : TierLabel) → (p ≡ true → allows forced label ≡ true) → pin label ≡ true

after_round-Answers :
    (b : Backend) (req : Request) (p : Bool) (pin : TierLabel → Bool)
    (forced : Option ModelDescriptor)
    (continue : ModelDescriptor → State → Result (ModelDescriptor × Inner) × State)
    → Keeps pin p forced
    → (r : Round) → RoundOk b req p forced r
    → ((next : ModelDescriptor) (t : State)
        → RoundOk b req p forced (cascade next t)
        → Answers req pin (continue next t))
    → Answers req pin (after_round continue r)
unfolding after_round
after_round-Answers b req p pin forced continue keeps (done (ok (d, i)) t) h onward =
    (h.0, keeps d.tier_label (λ _. h.1))
after_round-Answers b req p pin forced continue keeps (done (err e) t) h onward = h
after_round-Answers b req p pin forced continue keeps (cascade next t) h onward = onward next t h

pinned-Keeps :
    (pin : TierLabel → Bool) (p : Bool) (forced : Option ModelDescriptor) (next : ModelDescriptor)
    → Keeps pin p forced
    → p ≡ false
    → Keeps pin p (some next)
pinned-Keeps pin p forced next keeps free_choice label _ = keeps label (λ e. cc)

cascade-Bounded :
    (b : Backend) (req : Request) (p : Bool) (forced : Option ModelDescriptor)
    (next : ModelDescriptor) (t : State) (fuel : ℕ)
    → Bounded b forced (suc fuel)
    → RoundOk b req p forced (cascade next t)
    → (index_of next.tier_label b.roster < fuel) × Bounded b (some next) fuel
cascade-Bounded b req p forced next t fuel bound (_, _, label, allowed, less, there) =
    let low : index_of next.tier_label b.roster < fuel = omega (arith, bound label allowed there) in
    (
      low,
      λ l same _.
          subst (λ m. index_of m b.roster < fuel) (sym ((str_eq_iff l next.tier_label).0 same)) low,
    )

select_loop-Answers :
    (b : Backend) (req : Request) (p : Bool)
    (rest : Option ModelDescriptor → State → Result (ModelDescriptor × Inner) × State)
    (pin : TierLabel → Bool)
    → (fuel : ℕ) (forced : Option ModelDescriptor) (s : State) → IsConsistent s
    → Bounded b forced (suc fuel)
    → Keeps pin p forced
    → Answers req pin (select_loop b req p rest (suc fuel) forced s)
unfolding select_loop
select_loop-Answers b req p rest pin zero forced s k bound keeps =
    after_round-Answers b req p pin forced _ keeps (round b req p forced s)
      (round-RoundOk b req p forced s k)
      λ next t h. elim (cascade-Bounded b req p forced next t zero bound h).0 [ ]
select_loop-Answers b req p rest pin (suc fuel) forced s k bound keeps =
    after_round-Answers b req p pin forced _ keeps (round b req p forced s)
      (round-RoundOk b req p forced s k)
      λ next t h.
        select_loop-Answers b req p rest pin fuel (some next) t h.0
          (cascade-Bounded b req p forced next t (suc fuel) bound h).1
          (pinned-Keeps pin p forced next keeps h.1)

tier_by_label-label :
    (label : TierLabel) (roster : List ModelDescriptor) (d : ModelDescriptor)
    → tier_by_label label roster ≡ some d
    → d.tier_label ≡ label
unfolding tier_by_label
tier_by_label-label label [] d h = cc
tier_by_label-label label (e ∷ r) d h =
    ground (arith, str_eq_iff e.tier_label label, tier_by_label-label label r d)

abbrev pub keeps_pin : Request → TierLabel → Bool
keeps_pin req label = str_eq req.preferred_tier "" || str_eq label req.preferred_tier

pinned_label :
    (req : Request) (label : TierLabel) (d : ModelDescriptor)
    → d.tier_label ≡ req.preferred_tier
    → str_eq label d.tier_label ≡ true
    → keeps_pin req label ≡ true
pinned_label req label d e h =
    ground (arith, str_eq_iff label d.tier_label, str_eq_iff label req.preferred_tier)

pin_of-cases :
    (b : Backend) (req : Request)
    → ((pin_of b req ≡ free) × (str_eq req.preferred_tier "" ≡ true))
      ⊎ (pin_of b req ≡ invalid)
      ⊎ ((d : ModelDescriptor) × (pin_of b req ≡ pinned d) × (d.tier_label ≡ req.preferred_tier))
unfolding pin_of
pin_of-cases b req = elim (Bool-cases (str_eq req.preferred_tier "")) [
  | inl none_wanted ↦ inl (rw none_wanted refl, none_wanted)
  | inr wanted ↦ elim (Option-cases (tier_by_label req.preferred_tier b.roster)) [
    | inl e ↦ inr (inl (rw (wanted, e)))
    | inr (d, e) ↦ elim (Bool-cases (needs_vision_of req && not (has_vision d))) [
      | inl blind ↦ inr (inl (rw (wanted, e) (rw blind)))
      | inr fine ↦
          inr
            (inr (d, rw (wanted, e) (rw fine), tier_by_label-label req.preferred_tier b.roster d e))
    ]
  ]
]

full_fuel :
    (b : Backend) (req : Request) (p : Bool) (pin : TierLabel → Bool)
    (forced : Option ModelDescriptor) (s : State)
    → 0 < length b.roster
    → IsConsistent s
    → Keeps pin p forced
    → Answers req pin (select_loop b req p (plain_selection b req) (length b.roster) forced s)
full_fuel b req p pin forced s some_tier k keeps =
    let e : length b.roster ≡ suc (length b.roster - 1) = omega arith in
    rw e (
      select_loop-Answers b req p (plain_selection b req) pin (length b.roster - 1) forced s k
        (λ label _ there. omega (arith, there)) keeps)

pub select_inner-Answers :
    (b : Backend) (req : Request) (initial : Option ModelDescriptor) (s : State)
    → 0 < length b.roster
    → IsConsistent s
    → Answers req (keeps_pin req) (select_inner b req initial s)
unfolding select_inner select_from
select_inner-Answers b req initial s some_tier k = elim (pin_of-cases b req) [
  | inl (e, unpinned) ↦
      rw (e, select_from)
        (full_fuel b req false (keeps_pin req) initial s some_tier k (λ label _. rw unpinned))
  | inr (inl e) ↦ rw (e, select_from) k
  | inr (inr (d, e, same)) ↦
      rw (e, select_from)
        (full_fuel b req true (keeps_pin req) (some d) s some_tier k
          (λ label allowed. pinned_label req label d same (allowed refl)))
]

pub Honours-IsConsistent :
    (req : Request) (d : ModelDescriptor) (s : State) → Honours req d s → IsConsistent s
Honours-IsConsistent req d s h =
    Serves-IsConsistent none (needs_vision_of req) (ok d, s) (h.loaded, h.mode, h.vision)
