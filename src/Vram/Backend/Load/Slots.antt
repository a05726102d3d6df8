-- ===== src/Vram/Backend/Load/Slots.antt =====
-- No selection changes the count of requests in flight.
use home_inference_server.Prelude.{
  Bool, ◌&&◌, ◌||◌, Option, none, some, List, [], ◌∷◌, ◌≡◌, refl, ◌∙◌, str_eq, arith, Bool-cases,
  Option-cases, inl, inr,
}
use home_inference_server.Prelude.Int.{ℤ, pos, ltb_ℤ}
use home_inference_server.Types.Model.{ModelDescriptor, TierLabel}
use home_inference_server.Vram.Layers.{effective_headroom_fits}
use home_inference_server.Vram.Backend.{
  Backend, State, observed, reading, evict, load_model, wait_for_vram_reclaim, loaded_resident,
}
use home_inference_server.Vram.Backend.Choose.{matches, choose}
use home_inference_server.Vram.Backend.Load.{
  Stage, return, proceed, reuse_loaded, reuse_reading, evict_mismatched, label_of, select_and_load,
  after_reuse, admit, load_chosen, load_cascade, load_one_of, refit, down_from, same_mode,
  forced_allows,
}

pub evict-inflight : (b : Backend) (s : State) → (evict b s).inflight ≡ s.inflight
unfolding evict
evict-inflight b s = ground arith

wait-inflight :
    (b : Backend) (a r : ℤ) (s : State) → (wait_for_vram_reclaim b a r s).inflight ≡ s.inflight
unfolding wait_for_vram_reclaim
wait-inflight b a r s = ground arith

load_model-inflight :
    (b : Backend) (d : ModelDescriptor) (n : ℤ) (v : Bool) (s t : State)
    → load_model b d n v s ≡ some t
    → t.inflight ≡ s.inflight
unfolding load_model
load_model-inflight b d n v s t h = ground arith

wait_evict-inflight :
    (b : Backend) (a r : ℤ) (s : State)
    → (wait_for_vram_reclaim b a r (evict b s)).inflight ≡ s.inflight
wait_evict-inflight b a r s = wait-inflight b a r (evict b s) ∙ evict-inflight b s

abbrev stage_state : Stage → State
stage_state (return r s) = s
stage_state (proceed s) = s

reuse_reading-inflight :
    (b : Backend) (d : ModelDescriptor) (v : Bool) (a : Option ℤ) (s : State)
    → (stage_state (reuse_reading b d v a s)).inflight ≡ s.inflight
unfolding reuse_reading
reuse_reading-inflight b d v none s = refl
reuse_reading-inflight b d v (some a) s =
    elim (Bool-cases (
      ltb_ℤ a (pos 0)
      || effective_headroom_fits d s.loaded_layers v b.opts.max_parallel a b.opts.buffer_pct)) [
        | inl again ↦ rw again
        | inr gone ↦ rw gone (wait_evict-inflight b a (loaded_resident b s d) s)
      ]

evict_mismatched-inflight :
    (b : Backend) (d : ModelDescriptor) (s : State)
    → (stage_state (evict_mismatched b d s)).inflight ≡ s.inflight
unfolding evict_mismatched
evict_mismatched-inflight b d s = elim (Option-cases (reading b s)) [
  | inl e ↦ rw (e, evict_mismatched) (evict-inflight b s)
  | inr (a, e) ↦
      rw (e, evict_mismatched)
        (elim (Bool-cases (ltb_ℤ a (pos 0))) [
          | inl unknown ↦ rw unknown (evict-inflight b s)
          | inr known ↦ rw known (
              wait-inflight b a (loaded_resident b s d) (observed (evict b s)) ∙ evict-inflight b s)
        ])
]

reuse_loaded-inflight :
    (b : Backend) (f : Option ModelDescriptor) (v : Bool) (s : State)
    → (stage_state (reuse_loaded b f v s)).inflight ≡ s.inflight
unfolding reuse_loaded
reuse_loaded-inflight b f v s = elim (Option-cases s.loaded_tier) [
  | inl idle ↦ rw (idle, reuse_loaded) refl
  | inr (d, busy) ↦
      rw (busy, reuse_loaded)
        (elim (Bool-cases (same_mode s.loaded_vision v && forced_allows f d)) [
          | inl same ↦ rw same (reuse_reading-inflight b d v (reading b s) (observed s))
          | inr other ↦ rw other (elim (Bool-cases (same_mode s.loaded_vision v)) [
            | inl mode ↦ rw mode refl
            | inr mismatch ↦ rw mismatch (evict_mismatched-inflight b d s)
          ])
        ])
]

module _ (b : Backend) (forced : Option TierLabel) (v : Bool) (avail : ℤ) where
  load_one_of-inflight :
      (n : ℤ) (ds : List ModelDescriptor) (s : State)
      → (load_one_of b forced v avail n ds s).1.inflight ≡ s.inflight
  unfolding load_one_of
  load_one_of-inflight n [] s = refl
  load_one_of-inflight n (d ∷ ds) s = elim (Bool-cases (matches forced v d)) [
    | inr out ↦ rw out
    | inl in_play ↦ elim (Option-cases (load_model b d (refit b v avail n d) v s)) [
      | inl oom ↦ rw (in_play, oom) (load_one_of-inflight n ds s)
      | inr (t, loaded) ↦
          rw (in_play, loaded) (load_model-inflight b d (refit b v avail n d) v s t loaded)
    ]
  ]

  load_cascade-inflight :
      (n : ℤ) (ds : List ModelDescriptor) (s : State)
      → (load_cascade b forced v avail n ds s).1.inflight ≡ s.inflight
  unfolding load_cascade
  load_cascade-inflight n [] s = refl
  load_cascade-inflight n (d ∷ ds) s = elim (Bool-cases (matches forced v d)) [
    | inr out ↦ rw out
    | inl in_play ↦ elim (Option-cases (load_model b d n v s)) [
      | inl oom ↦ rw (in_play, oom) (load_one_of-inflight n ds s)
      | inr (t, loaded) ↦ rw (in_play, loaded) (load_model-inflight b d n v s t loaded)
    ]
  ]

  load_chosen-inflight :
      (c : ModelDescriptor) (n : ℤ) (s : State)
      → (load_chosen b forced v avail c n s).1.inflight ≡ s.inflight
  unfolding load_chosen
  load_chosen-inflight c n s = elim (Option-cases s.loaded_tier) [
    | inl idle ↦
        rw (idle, load_chosen)
          (load_cascade-inflight n (down_from c.tier_label b.roster) _
            ∙ wait_evict-inflight b avail (pos 0) s)
    | inr (d, busy) ↦
        elim (Bool-cases (str_eq d.tier_label c.tier_label && same_mode s.loaded_vision v)) [
          | inl same ↦ rw (busy, load_chosen) (rw same)
          | inr other ↦
              rw (busy, load_chosen)
                (rw other (
                  load_cascade-inflight n (down_from c.tier_label b.roster) _
                  ∙ wait_evict-inflight b avail (loaded_resident b s d) s))
        ]
  ]

admit-inflight :
    (b : Backend) (forced : Option TierLabel) (v : Bool) (a : Option ℤ) (s : State)
    → (admit b forced v a s).1.inflight ≡ s.inflight
unfolding admit
admit-inflight b forced v none s = refl
admit-inflight b forced v (some a) s = elim (Option-cases (choose b.opts forced v a b.roster)) [
  | inl e ↦ rw (e, admit)
  | inr ((c, n), e) ↦ rw (e, admit) (load_chosen-inflight b forced v a c n s)
]

after_reuse-inflight :
    (b : Backend) (f : Option ModelDescriptor) (v : Bool) (g : Stage)
    → (after_reuse b f v g).1.inflight ≡ (stage_state g).inflight
unfolding after_reuse
after_reuse-inflight b f v (return r s) = refl
after_reuse-inflight b f v (proceed s) = admit-inflight b (label_of f) v (reading b s) (observed s)

pub select_and_load-inflight :
    (b : Backend) (f : Option ModelDescriptor) (v : Bool) (s : State)
    → (select_and_load b f v s).1.inflight ≡ s.inflight
unfolding select_and_load
select_and_load-inflight b f v s =
    after_reuse-inflight b f v (reuse_loaded b f v s) ∙ reuse_loaded-inflight b f v s
