-- ===== src/Vram/Backend/Load/Residency.antt =====
-- What is loaded after a selection.
use home_inference_server.Prelude.{
  Bool, true, ◌&&◌, ◌||◌, not, Option, none, some, List, [], ◌∷◌, ◌≡◌, sym, subst, ◌∙◌, str_eq,
  str_eq_iff, arith, Bool-cases, Option-cases, inl, inr,
}
use home_inference_server.Prelude.Int.{ℤ, pos, ltb_ℤ}
use home_inference_server.Types.Model.{ModelDescriptor, TierLabel, has_vision}
use home_inference_server.Vram.Layers.{effective_headroom_fits}
use home_inference_server.Vram.Backend.{
  Backend, Options, State, Result, ok, err, observed, reading, evict, load_model,
  wait_for_vram_reclaim, loaded_resident,
}
use home_inference_server.Vram.Backend.Choose.{
  matches, choose, largest_match, largest_on_gpu, smallest_on_cpu,
}
use home_inference_server.Vram.Backend.Load.{
  Stage, return, proceed, same_mode, forced_allows, label_of, reuse_reading, evict_mismatched,
  reuse_loaded, refit, load_one_of, load_cascade, load_chosen, admit, after_reuse, select_and_load,
  down_from,
}

-- A model in vision mode has a vision variant.
abbrev mode_ok : Option ModelDescriptor → Bool → Bool
mode_ok none vision = true
mode_ok (some d) vision = not vision || has_vision d

abbrev pub IsConsistent : State → Type 0
IsConsistent s = mode_ok s.loaded_tier s.loaded_vision ≡ true

-- The tier that a selection hands back is the one that is loaded, in the mode that the request needs,
-- and one that the request may use. On an error the state is still consistent.
abbrev pub Serves : Option TierLabel → Bool → Result ModelDescriptor × State → Type 0
Serves forced needs_vision (ok d, s) =
    (s.loaded_tier ≡ some d)
    × (s.loaded_vision ≡ needs_vision)
    × (matches forced needs_vision d ≡ true)
Serves forced needs_vision (err e, s) = IsConsistent s

matches-mode_ok :
    (forced : Option TierLabel) (v : Bool) (d : ModelDescriptor)
    → matches forced v d ≡ true
    → mode_ok (some d) v ≡ true
unfolding matches
matches-mode_ok forced v d h = ground arith

loaded-matches :
    (forced : Option ModelDescriptor) (m v : Bool) (d : ModelDescriptor)
    → mode_ok (some d) m ≡ true
    → same_mode m v && forced_allows forced d ≡ true
    → (m ≡ v) × (matches (label_of forced) v d ≡ true)
unfolding matches same_mode forced_allows
loaded-matches none m v d h k = ground arith
loaded-matches (some f) m v d h k =
    ground (arith, str_eq_iff f.tier_label d.tier_label, str_eq_iff d.tier_label f.tier_label)

pub evict-loaded : (b : Backend) (s : State) → (evict b s).loaded_tier ≡ none
unfolding evict
evict-loaded b s = ground arith

wait-loaded :
    (b : Backend) (a r : ℤ) (s : State)
    → ((wait_for_vram_reclaim b a r s).loaded_tier ≡ s.loaded_tier)
      × ((wait_for_vram_reclaim b a r s).loaded_vision ≡ s.loaded_vision)
unfolding wait_for_vram_reclaim
wait-loaded b a r s = ground arith

load_model-loaded :
    (b : Backend) (d : ModelDescriptor) (n : ℤ) (v : Bool) (s t : State)
    → load_model b d n v s ≡ some t
    → (t.loaded_tier ≡ some d) × (t.loaded_layers ≡ n) × (t.loaded_vision ≡ v)
unfolding load_model
load_model-loaded b d n v s t h = ground arith

module _ (b : Backend) (forced : Option TierLabel) (v : Bool) (avail : ℤ) (layers : ℤ) where
  load_one_of-Serves :
      (ds : List ModelDescriptor) (s : State)
      → s.loaded_tier ≡ none
      → Serves forced v (load_one_of b forced v avail layers ds s)
  unfolding load_one_of
  load_one_of-Serves [] s e = ground arith
  load_one_of-Serves (d ∷ ds) s e = elim (Bool-cases (matches forced v d)) [
    | inr out ↦ rw out (ground arith)
    | inl in_play ↦ elim (Option-cases (load_model b d (refit b v avail layers d) v s)) [
      | inl oom ↦ rw (in_play, oom) (load_one_of-Serves ds s e)
      | inr (t, loaded) ↦
          let l = load_model-loaded b d (refit b v avail layers d) v s t loaded in
          rw (in_play, loaded) (l.0, l.2, in_play)
    ]
  ]

  load_cascade-Serves :
      (ds : List ModelDescriptor) (s : State)
      → s.loaded_tier ≡ none
      → Serves forced v (load_cascade b forced v avail layers ds s)
  unfolding load_cascade
  load_cascade-Serves [] s e = ground arith
  load_cascade-Serves (d ∷ ds) s e = elim (Bool-cases (matches forced v d)) [
    | inr out ↦ rw out (ground arith)
    | inl in_play ↦ elim (Option-cases (load_model b d layers v s)) [
      | inl oom ↦ rw (in_play, oom) (load_one_of-Serves ds s e)
      | inr (t, loaded) ↦
          let l = load_model-loaded b d layers v s t loaded in
          rw (in_play, loaded) (l.0, l.2, in_play)
    ]
  ]

same-chosen :
    (forced : Option TierLabel) (m v : Bool) (d c : ModelDescriptor)
    → mode_ok (some d) m ≡ true
    → matches forced v c ≡ true
    → str_eq d.tier_label c.tier_label && same_mode m v ≡ true
    → (m ≡ v) × (matches forced v d ≡ true)
unfolding matches same_mode
same-chosen none m v d c h k e = ground arith
same-chosen (some f) m v d c h k e = ground (
  arith,
  str_eq_iff d.tier_label c.tier_label,
  str_eq_iff c.tier_label f,
  str_eq_iff d.tier_label f,
)

after_evict :
    (b : Backend) (a r : ℤ) (s : State)
    → (wait_for_vram_reclaim b a r (evict b s)).loaded_tier ≡ none
after_evict b a r s = (wait-loaded b a r (evict b s)).0 ∙ evict-loaded b s

load_chosen-Serves :
    (b : Backend) (forced : Option TierLabel) (v : Bool) (avail : ℤ) (c : ModelDescriptor) (n : ℤ)
    (s : State)
    → IsConsistent s
    → matches forced v c ≡ true
    → Serves forced v (load_chosen b forced v avail c n s)
unfolding load_chosen
load_chosen-Serves b forced v avail c n s ok_s m = elim (Option-cases s.loaded_tier) [
  | inl idle ↦
      rw (idle, load_chosen)
        (load_cascade-Serves b forced v avail n (down_from c.tier_label b.roster) _
          (after_evict b avail (pos 0) s))
  | inr (d, busy) ↦
      elim (Bool-cases (str_eq d.tier_label c.tier_label && same_mode s.loaded_vision v)) [
        | inl same ↦
            let r =
              same-chosen forced s.loaded_vision v d c
                (subst (λ t. mode_ok t s.loaded_vision ≡ true) busy ok_s) m same in
            rw (busy, load_chosen) (rw same (busy, r.0, r.1))
        | inr other ↦
            rw (busy, load_chosen)
              (rw other (
                load_cascade-Serves b forced v avail n (down_from c.tier_label b.roster) _
                  (after_evict b avail _ s)))
      ]
]

largest_match-matches :
    (forced : Option TierLabel) (v : Bool) (roster : List ModelDescriptor) (c : ModelDescriptor)
    (n : ℤ)
    → largest_match forced v roster ≡ some (c, n)
    → matches forced v c ≡ true
unfolding largest_match
largest_match-matches forced v [] c n h = cc
largest_match-matches forced v (d ∷ r) c n h = ground (arith, largest_match-matches forced v r c n)

largest_on_gpu-matches :
    (o : Options) (forced : Option TierLabel) (v : Bool) (a : ℤ) (roster : List ModelDescriptor)
    (c : ModelDescriptor) (n : ℤ)
    → largest_on_gpu o forced v a roster ≡ some (c, n)
    → matches forced v c ≡ true
unfolding largest_on_gpu
largest_on_gpu-matches o forced v a [] c n h = cc
largest_on_gpu-matches o forced v a (d ∷ r) c n h =
    ground (arith, largest_on_gpu-matches o forced v a r c n)

smallest_on_cpu-matches :
    (o : Options) (forced : Option TierLabel) (v : Bool) (a : ℤ) (roster : List ModelDescriptor)
    (c : ModelDescriptor) (n : ℤ)
    → smallest_on_cpu o forced v a roster ≡ some (c, n)
    → matches forced v c ≡ true
unfolding smallest_on_cpu
smallest_on_cpu-matches o forced v a [] c n h = cc
smallest_on_cpu-matches o forced v a (d ∷ r) c n h =
    ground (arith, smallest_on_cpu-matches o forced v a r c n)

choose-matches :
    (o : Options) (forced : Option TierLabel) (v : Bool) (a : ℤ) (roster : List ModelDescriptor)
    (c : ModelDescriptor) (n : ℤ)
    → choose o forced v a roster ≡ some (c, n)
    → matches forced v c ≡ true
unfolding choose
choose-matches o forced v a roster c n h = ground (
  arith,
  largest_match-matches forced v roster c n,
  largest_on_gpu-matches o forced v a roster c n,
  smallest_on_cpu-matches o forced v a roster c n,
)

admit-Serves :
    (b : Backend) (forced : Option TierLabel) (v : Bool) (a : Option ℤ) (s : State)
    → IsConsistent s
    → Serves forced v (admit b forced v a s)
unfolding admit
admit-Serves b forced v none s k = k
admit-Serves b forced v (some a) s k = elim (Option-cases (choose b.opts forced v a b.roster)) [
  | inl e ↦ rw (e, admit) k
  | inr ((c, n), e) ↦
      rw (e, admit)
        (load_chosen-Serves b forced v a c n s k (choose-matches b.opts forced v a b.roster c n e))
]

-- The reuse stage: it returns the loaded tier or an error, or leaves a consistent state.
abbrev ReuseServes : Option TierLabel → Bool → Stage → Type 0
ReuseServes forced v (return r s) = Serves forced v (r, s)
ReuseServes forced v (proceed s) = IsConsistent s

-- The test of the reuse check.
abbrev reusable : Backend → ModelDescriptor → Bool → ℤ → State → Bool
reusable b d v a s =
    ltb_ℤ a (pos 0)
    || effective_headroom_fits d s.loaded_layers v b.opts.max_parallel a b.opts.buffer_pct

reuse_reading-Serves :
    (b : Backend) (forced : Option TierLabel) (d : ModelDescriptor) (v : Bool) (a : Option ℤ)
    (s : State)
    → IsConsistent s
    → s.loaded_tier ≡ some d
    → s.loaded_vision ≡ v
    → matches forced v d ≡ true
    → ReuseServes forced v (reuse_reading b d v a s)
unfolding reuse_reading
reuse_reading-Serves b forced d v none s k busy m ok_d = k
reuse_reading-Serves b forced d v (some a) s k busy m ok_d =
    elim (Bool-cases (reusable b d v a s)) [
      | inl again ↦ rw again (busy, m, ok_d)
      | inr gone ↦ rw gone (rw (after_evict b a (loaded_resident b s d) s))
    ]

evict_mismatched-Serves :
    (b : Backend) (forced : Option TierLabel) (d : ModelDescriptor) (v : Bool) (s : State)
    → ReuseServes forced v (evict_mismatched b d s)
unfolding evict_mismatched
evict_mismatched-Serves b forced d v s = elim (Option-cases (reading b s)) [
  | inl e ↦ rw (e, evict_mismatched) (rw (evict-loaded b s))
  | inr (a, e) ↦
      rw (e, evict_mismatched)
        (elim (Bool-cases (ltb_ℤ a (pos 0))) [
          | inl unknown ↦ rw unknown (rw (evict-loaded b s))
          | inr known ↦ rw known (
              rw (wait-loaded b a (loaded_resident b s d) (observed (evict b s))).0
                (rw (evict-loaded b s)))
        ])
]

reuse_loaded-Serves :
    (b : Backend) (forced : Option ModelDescriptor) (v : Bool) (s : State)
    → IsConsistent s
    → ReuseServes (label_of forced) v (reuse_loaded b forced v s)
unfolding reuse_loaded
reuse_loaded-Serves b forced v s k = elim (Option-cases s.loaded_tier) [
  | inl idle ↦ rw (idle, reuse_loaded) k
  | inr (d, busy) ↦
      rw (busy, reuse_loaded)
        (elim (Bool-cases (same_mode s.loaded_vision v && forced_allows forced d)) [
          | inl same ↦
              let r =
                loaded-matches forced s.loaded_vision v d
                  (subst (λ t. mode_ok t s.loaded_vision ≡ true) busy k) same in
              rw same (
                reuse_reading-Serves b (label_of forced) d v (reading b s) (observed s) k busy r.0
                  r.1)
          | inr other ↦ rw other (elim (Bool-cases (same_mode s.loaded_vision v)) [
            | inl mode ↦ rw mode k
            | inr mismatch ↦ rw mismatch (evict_mismatched-Serves b (label_of forced) d v s)
          ])
        ])
]

after_reuse-Serves :
    (b : Backend) (forced : Option ModelDescriptor) (v : Bool) (g : Stage)
    → ReuseServes (label_of forced) v g
    → Serves (label_of forced) v (after_reuse b forced v g)
unfolding after_reuse
after_reuse-Serves b forced v (return r s) h = h
after_reuse-Serves b forced v (proceed s) h =
    admit-Serves b (label_of forced) v (reading b s) (observed s) h

-- From a state in which a model in vision mode has a vision variant, a selection hands back the tier
-- that is then loaded, in the mode that the request needs, and one
-- that the request may use: with vision if it carries an image, and the forced tier if one is forced.
-- An error leaves a state in which a model in vision mode still has a vision variant.
pub select_and_load-Serves :
    (b : Backend) (forced : Option ModelDescriptor) (v : Bool) (s : State)
    → IsConsistent s
    → Serves (label_of forced) v (select_and_load b forced v s)
unfolding select_and_load
select_and_load-Serves b forced v s k =
    after_reuse-Serves b forced v (reuse_loaded b forced v s) (reuse_loaded-Serves b forced v s k)

-- Whatever a selection does, the state stays consistent.
pub Serves-IsConsistent :
    (forced : Option TierLabel) (v : Bool) (r : Result ModelDescriptor × State)
    → Serves forced v r
    → IsConsistent r.1
Serves-IsConsistent forced v (ok d, s) h =
    subst (λ t. mode_ok t s.loaded_vision ≡ true) (sym h.0)
      (subst (λ m. mode_ok (some d) m ≡ true) (sym h.1) (matches-mode_ok forced v d h.2))
Serves-IsConsistent forced v (err e, s) h = h
