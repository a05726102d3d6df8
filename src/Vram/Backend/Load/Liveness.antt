-- ===== src/Vram/Backend/Load/Liveness.antt =====
-- When some tier fits whatever is read and no load fails, a selection succeeds.
use home_inference_server.Prelude.{
  ℕ, Bool, false, ◌&&◌, ◌||◌, Option, none, some, List, [], ◌∷◌, ◌≡◌, refl, sym, subst, arith,
  str_eq, str_eq_iff, At, here, there, Bool-cases, Option-cases, inl, inr,
}
use home_inference_server.Prelude.Int.{ℤ, pos, ltb_ℤ}
use home_inference_server.Types.Model.{ModelDescriptor}
use home_inference_server.Vram.Layers.{effective_headroom_fits}
use home_inference_server.Vram.Backend.{
  Backend, Options, State, Result, ok, observed, reading, load_model,
}
use home_inference_server.Vram.Backend.Choose.{
  matches, overhead_fits, largest_match, largest_on_gpu, smallest_on_cpu, choose,
}
use home_inference_server.Vram.Backend.Load.{
  same_mode, forced_allows, Stage, return, proceed, reuse_reading, evict_mismatched, reuse_loaded,
  down_onto, down_from, load_cascade, load_chosen, admit, after_reuse, select_and_load,
}

-- A choice is an entry of the roster.
largest-At :
    (v : Bool) (t : List ModelDescriptor) (c : ModelDescriptor) (l : ℤ)
    → largest_match none v t ≡ some (c, l)
    → At c t
unfolding largest_match
largest-At v [] c l e = cc
largest-At v (d ∷ t) c l e = elim (Option-cases (largest_match none v t)) [
  | inr ((c', l'), f) ↦
      let same : c' ≡ c = ground (arith, e, f) in
      there (subst (λ x. At x t) same (largest-At v t c' l' f))
  | inl f ↦ let same : d ≡ c = ground (arith, e, f) in subst (λ x. At x (d ∷ t)) same here
]

gpu-At :
    (o : Options) (v : Bool) (a : ℤ) (t : List ModelDescriptor) (c : ModelDescriptor) (l : ℤ)
    → largest_on_gpu o none v a t ≡ some (c, l)
    → At c t
unfolding largest_on_gpu
gpu-At o v a [] c l e = cc
gpu-At o v a (d ∷ t) c l e = elim (Option-cases (largest_on_gpu o none v a t)) [
  | inr ((c', l'), f) ↦
      let same : c' ≡ c = ground (arith, e, f) in
      there (subst (λ x. At x t) same (gpu-At o v a t c' l' f))
  | inl f ↦ let same : d ≡ c = ground (arith, e, f) in subst (λ x. At x (d ∷ t)) same here
]

cpu-At :
    (o : Options) (v : Bool) (a : ℤ) (t : List ModelDescriptor) (c : ModelDescriptor) (l : ℤ)
    → smallest_on_cpu o none v a t ≡ some (c, l)
    → At c t
unfolding smallest_on_cpu
cpu-At o v a [] c l e = cc
cpu-At o v a (d ∷ t) c l e = elim (Bool-cases (matches none v d && overhead_fits o v a d)) [
  | inl fits ↦ let same : d ≡ c = ground (arith, e, fits) in subst (λ x. At x (d ∷ t)) same here
  | inr tight ↦ there (cpu-At o v a t c l (rw tight at e))
]

choose-At :
    (o : Options) (v : Bool) (a : ℤ) (t : List ModelDescriptor) (c : ModelDescriptor) (l : ℤ)
    → choose o none v a t ≡ some (c, l)
    → At c t
unfolding choose
choose-At o v a t c l e = elim (Bool-cases (ltb_ℤ a (pos 0))) [
  | inl unlimited ↦ largest-At v t c l (rw unlimited at e)
  | inr known ↦ elim (Option-cases (largest_on_gpu o none v a t)) [
    | inr ((c', l'), f) ↦
        let same : c' ≡ c = ground (arith, e, f, known) in
        subst (λ x. At x t) same (gpu-At o v a t c' l' f)
    | inl f ↦ cpu-At o v a t c l (rw (known, f) at e)
  ]
]

down_onto-head :
    {c : ModelDescriptor} (smaller : List ModelDescriptor) {t : List ModelDescriptor}
    → At c t
    → (d : ModelDescriptor) × (r : List ModelDescriptor) × (down_onto c.tier_label smaller t
        ≡ d ∷ r)
unfolding down_onto
down_onto-head {c} smaller (here {t}) =
    (c, smaller, rw ((str_eq_iff c.tier_label c.tier_label).1 refl) refl)
down_onto-head {c} smaller (there {s = d} {t} m) =
    elim (Bool-cases (str_eq d.tier_label c.tier_label)) [
      | inl hit ↦ (d, smaller, rw hit refl)
      | inr miss ↦ let (e, r, h) = down_onto-head (d ∷ smaller) m in (e, r, rw miss h)
    ]

-- A result that is not an error.
abbrev pub IsOk {ℓ} : {A : Type ℓ} → Result A × State → Type ℓ
IsOk {A} r = (a : A) × (r.0 ≡ ok a)

-- Every reading succeeds and finds a tier that fits, and no load runs out of memory.
pub record Roomy (b : Backend) : Type 0 where
  pub reads :
      (n : ℕ)
      → (a : ℤ) × (c : ModelDescriptor) × (l : ℤ) × (b.world.available n ≡ some a)
        × (choose b.opts none false a b.roster ≡ some (c, l))
  pub loads : (d : ModelDescriptor) → b.opts.oom_simulator d ≡ false

module _ (b : Backend) (room : Roomy b) where
  load_model-some :
      (d : ModelDescriptor) (l : ℤ) (s : State) → (t : State) × (load_model b d l false s ≡ some t)
  unfolding load_model
  load_model-some d l s = elim (Option-cases (load_model b d l false s)) [
    | inr (t, e) ↦ (t, e)
    | inl e ↦ absurd (never (rw (room.loads d, load_model) at e))
  ]
    where
      never : {t : State} → some t ≡ none → ⊥
      never h = cc

  cascade-IsOk :
      (a l : ℤ) (t : List ModelDescriptor) (s : State) (d : ModelDescriptor)
      (r : List ModelDescriptor)
      → t ≡ d ∷ r
      → IsOk (load_cascade b none false a l t s)
  unfolding load_cascade matches
  cascade-IsOk a l t s d r e =
      let (u, loaded) = load_model-some d l s in
      subst (λ x. IsOk (load_cascade b none false a l x s)) (sym e)
        (d, rw (loaded, load_cascade) refl)

  from-IsOk :
      (a l : ℤ) (c : ModelDescriptor) (s : State)
      → At c b.roster
      → IsOk (load_cascade b none false a l (down_from c.tier_label b.roster) s)
  unfolding down_from
  from-IsOk a l c s m =
      let (d, r, e) = down_onto-head [] m in
      cascade-IsOk a l (down_onto c.tier_label [] b.roster) s d r e

  load_chosen-IsOk :
      (a l : ℤ) (c : ModelDescriptor) (s : State)
      → At c b.roster
      → IsOk (load_chosen b none false a c l s)
  unfolding load_chosen
  load_chosen-IsOk a l c s m = elim (Option-cases s.loaded_tier) [
    | inl e ↦ simp (e, load_chosen) (from-IsOk a l c _ m)
    | inr (d, e) ↦
        elim (Bool-cases (str_eq d.tier_label c.tier_label && same_mode s.loaded_vision false)) [
          | inl same ↦ simp (e, same, load_chosen) (d, refl)
          | inr other ↦ simp (e, other, load_chosen) (from-IsOk a l c _ m)
        ]
  ]

  admit-IsOk : (s : State) (n : ℕ) → IsOk (admit b none false (b.world.available n) s)
  unfolding admit
  admit-IsOk s n =
      let (a, c, l, read, chosen) = room.reads n in
      rw read (
        simp (chosen, admit)
          (load_chosen-IsOk a l c s (choose-At b.opts false a b.roster c l chosen)))

  after-IsOk :
      (st : Stage)
      → ((r : Result ModelDescriptor) (s : State)
          → st ≡ return r s
          → (d : ModelDescriptor) × (r ≡ ok d))
      → IsOk (after_reuse b none false st)
  unfolding after_reuse
  after-IsOk (return r s) h = h r s refl
  after-IsOk (proceed s) h = admit-IsOk (observed s) s.observations

  reuse_reading-ok :
      (d : ModelDescriptor) (n : ℕ) (s s' : State) (r : Result ModelDescriptor)
      → reuse_reading b d false (b.world.available n) s ≡ return r s'
      → (c : ModelDescriptor) × (r ≡ ok c)
  unfolding reuse_reading
  reuse_reading-ok d n s s' r e =
      let (a, c, l, read, chosen) = room.reads n in
      let e' = rw (read, reuse_reading) at e in
      elim (Bool-cases (
        ltb_ℤ a (pos 0)
        || effective_headroom_fits d s.loaded_layers false b.opts.max_parallel a
            b.opts.buffer_pct)) [
              | inl fits ↦ (d, sym (returned (rw fits at e')))
              | inr tight ↦ absurd (apart (rw tight at e'))
            ]
    where
      returned : {t t' : State} {d : ModelDescriptor} → return (ok d) t ≡ return r t' → ok d ≡ r
      returned h = cc

      apart : {t t' : State} → proceed t ≡ return r t' → ⊥
      apart h = cc

  mismatched-never :
      (d : ModelDescriptor) (s s' : State) (r : Result ModelDescriptor)
      → evict_mismatched b d s ≡ return r s'
      → ⊥
  unfolding evict_mismatched
  mismatched-never d s s' r e = elim (Option-cases (reading b s)) [
    | inl f ↦ apart (rw (f, evict_mismatched) at e)
    | inr (a, f) ↦
        let e' = rw (f, evict_mismatched) at e in
        elim (Bool-cases (ltb_ℤ a (pos 0))) [
          | inl unlimited ↦ apart (rw unlimited at e')
          | inr known ↦ apart (rw known at e')
        ]
  ]
    where
      apart : {t t' : State} → proceed t ≡ return r t' → ⊥
      apart h = cc

  loaded-ok :
      (o : Option ModelDescriptor) (s s' : State) (r : Result ModelDescriptor)
      → s.loaded_tier ≡ o
      → reuse_loaded b none false s ≡ return r s'
      → (c : ModelDescriptor) × (r ≡ ok c)
  unfolding reuse_loaded forced_allows
  loaded-ok none s s' r f e = absurd (apart (simp (f, reuse_loaded) at e))
    where
      apart : {t t' : State} → proceed t ≡ return r t' → ⊥
      apart h = cc
  loaded-ok (some d) s s' r f e =
      let e' = simp (f, reuse_loaded) at e in
      elim (Bool-cases (same_mode s.loaded_vision false)) [
        | inl same ↦ reuse_reading-ok d s.observations _ s' r (simp same at e')
        | inr other ↦ absurd (mismatched-never d s s' r (simp other at e'))
      ]

  -- If every reading succeeds and finds a tier that fits, and no load runs out of memory, a selection for a
  -- text request without a forced tier succeeds from every state.
  pub select_and_load-IsOk : (s : State) → IsOk (select_and_load b none false s)
  unfolding select_and_load
  select_and_load-IsOk s =
      after-IsOk (reuse_loaded b none false s) (λ r s' e. loaded-ok s.loaded_tier s s' r refl e)
