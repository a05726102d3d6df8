-- ===== src/Vram/Eviction/Idle.antt =====
-- When the loop evicts.
use home_inference_server.Prelude.{
  ℕ, ◌+◌, ◌-◌, ◌≤◌, Bool, true, false, ◌&&◌, ◌||◌, not, Option, none, some, ◌≡◌, refl, arith, leb,
  ltb, ◌==◌, Bool-cases, Option-cases, ◌⊎◌, inl, inr,
}
use home_inference_server.Prelude.Int.{ℤ, pos, ltb_ℤ}
use home_inference_server.Types.Model.{ModelDescriptor}
use home_inference_server.Vram.Backend.{Backend, State, observed, reading, evict}
use home_inference_server.Vram.Eviction.{
  Loop, Surroundings, maybe_sweep_after_evict, idle_sweep, under_pressure, is_loaded,
  evict_if_quiet, pressure_check, with_loaded, locked_tick, tick_once,
}

sweep-backend :
    (e : Surroundings) (force : Bool) (l : Loop)
    → (maybe_sweep_after_evict e force l).backend ≡ l.backend
unfolding maybe_sweep_after_evict
sweep-backend e force l = ground arith

idle_sweep-backend : (e : Surroundings) (l : Loop) → (idle_sweep e l).backend ≡ l.backend
unfolding idle_sweep
idle_sweep-backend e l = ground arith

-- Why the model goes: idle for the timeout, or a reading (of the state `s` in which it was found) under
-- which the load would not fit again and which is under the floor, and no restart under way.
pub data Cause (b : Backend) (e : Surroundings) (s : State) : Type 0 where
  idle : b.opts.eviction_idle_timeout ≤ b.world.clock s.observations - s.last_used → Cause b e s
  pressure :
      (d : ModelDescriptor) (avail : ℤ)
      → s.loaded_tier ≡ some d
      → b.world.available (s.observations + 1) ≡ some avail
      → ltb_ℤ avail (pos 0) ≡ false
      → under_pressure b d (observed s) avail ≡ true
      → e.inner_busy ≡ false
      → Cause b e s

-- What a tick does to the backend, `s` being the state that it finds when it takes the mutex. It leaves
-- the backend to the others, observations apart; or it evicts from a state with a model loaded and
-- nothing in flight, for a cause.
pub data Tick (b : Backend) (e : Surroundings) (s t : State) : Type 0 where
  leaves :
      (u : State)
      → t.loaded_tier ≡ u.loaded_tier
      → t.inflight ≡ u.inflight
      → t.effects ≡ u.effects
      → (u ≡ s) ⊎ (u ≡ e.meanwhile (observed (observed s)))
      → Tick b e s t
  evicts :
      (u : State) → t ≡ evict b u → is_loaded u ≡ true → u.inflight ≡ 0 → Cause b e s → Tick b e s t

evict_if_quiet-Tick :
    (b : Backend) (e : Surroundings) (s : State) (l : Loop)
    → (e.inner_busy ≡ false → Cause b e s)
    → Tick b e s (evict_if_quiet b e (e.meanwhile (observed (observed s))) l).backend
unfolding evict_if_quiet
evict_if_quiet-Tick b e s l cause =
    let u = e.meanwhile (observed (observed s)) in
    elim (Bool-cases (is_loaded u && u.inflight == 0 && not e.inner_busy)) [
      | inl quiet ↦ rw quiet (
          evicts u (sweep-backend e e.stop_fails (record l { backend = evict b u })) (ground arith)
            (ground arith) (cause (ground arith)))
      | inr not_quiet ↦ rw not_quiet (leaves u refl refl refl (inr refl))
    ]

pressure_check-Tick :
    (b : Backend) (e : Surroundings) (d : ModelDescriptor) (s : State) (l : Loop)
    → s.loaded_tier ≡ some d
    → Tick b e s (pressure_check b e d (observed s) l).backend
unfolding pressure_check
pressure_check-Tick b e d s l busy = elim (Option-cases (reading b (observed s))) [
  | inl h ↦ rw (h, pressure_check) (leaves s refl refl refl (inl refl))
  | inr (avail, h) ↦
      elim (Bool-cases (ltb_ℤ avail (pos 0) || not (under_pressure b d (observed s) avail))) [
        | inl calm ↦ rw (h, pressure_check) (rw calm (leaves s refl refl refl (inl refl)))
        | inr pressed ↦
            rw (h, pressure_check)
              (rw pressed (
                evict_if_quiet-Tick b e s l
                  (pressure d avail busy h (ground arith) (ground arith))))
      ]
]

abbrev idle_time : Backend → State → ℕ
idle_time b s = b.world.clock s.observations - s.last_used

loaded_flag_lem : (s : State) (d : ModelDescriptor) → s.loaded_tier ≡ some d → is_loaded s ≡ true
loaded_flag_lem s d h = ground arith

with_loaded-Tick :
    (b : Backend) (e : Surroundings) (s : State) (o : Option ModelDescriptor) (l : Loop)
    → s.loaded_tier ≡ o
    → Tick b e s (with_loaded b e s o l).backend
unfolding with_loaded
with_loaded-Tick b e s none l h = leaves s refl refl refl (inl refl)
with_loaded-Tick b e s (some d) l h = elim (Bool-cases (ltb 0 s.inflight)) [
  | inl active ↦ rw active (leaves s refl refl refl (inl refl))
  | inr quiet ↦ simp quiet (elim (Bool-cases (leb b.opts.eviction_idle_timeout (idle_time b s))) [
    | inl long ↦ simp long (
        evicts (observed s) (sweep-backend e true (record l { backend = evict b (observed s) }))
          (loaded_flag_lem s d h) (ground arith) (idle (ground arith)))
    | inr short ↦ simp short (pressure_check-Tick b e d s l h)
  ])
]

-- A tick evicts only from a state with nothing in flight, whatever the other goroutines do between its
-- two looks at the backend, and only for an idle timeout or genuine pressure; with no model loaded, or
-- with a request in flight at its first look, it leaves the backend alone.
pub tick_once-Tick :
    (b : Backend) (e : Surroundings) (l : Loop)
    → ((tick_once b e l).backend ≡ l.backend)
      ⊎ ((is_loaded l.backend ≡ true)
          × (l.backend.inflight ≡ 0)
          × Tick b e (e.before_lock l.backend) (tick_once b e l).backend)
unfolding tick_once locked_tick
tick_once-Tick b e l = elim (Bool-cases (is_loaded l.backend)) [
  | inr unloaded ↦ inl (rw unloaded (idle_sweep-backend e _))
  | inl loaded ↦ elim (Bool-cases (ltb 0 l.backend.inflight)) [
    | inl active ↦ inl (rw (loaded, active))
    | inr quiet ↦ inr (
      loaded,
      ground arith,
      rw (loaded, quiet)
          (with_loaded-Tick b e (e.before_lock l.backend) (e.before_lock l.backend).loaded_tier
            (record l { tick = l.tick + 1 }) refl),
    )
  ]
]
