-- ===== src/Vram/Eviction.antt =====
-- internal/backend/vram/eviction.go: one tick of the eviction loop, and runs of ticks with requests in
-- between. The sweeps of the reaper run in goroutines of their own and only start here; the flag
-- `sweeping` lets one run at a time.
pub mod Idle
use home_inference_server.Prelude.{
  ℕ, suc, ◌+◌, ◌-◌, ◌%◌, Bool, true, false, ◌&&◌, ◌||◌, not, Option, none, some, List, [], ◌∷◌,
  String, if◌then◌else◌, leb, ltb, ◌==◌,
}
use home_inference_server.Prelude.Int.{ℤ, pos, ltb_ℤ}
use home_inference_server.Types.Model.{ModelDescriptor, TierLabel}
use home_inference_server.Vram.Layers.{effective_headroom_fits}
use home_inference_server.Vram.Backend.{Backend, State, observed, reading, evict}
use home_inference_server.Vram.Backend.Request.{external_pressure_floor_mb}

abbrev pub reaper_sweep_every : ℕ
reaper_sweep_every = 6

-- The loop's own variables, beside the backend's state: `tick`, `sweeping` and the number of sweeps
-- started.
pub record Loop : Type 0 where
  pub tick : ℕ
  pub sweeping : Bool
  pub sweeps : ℕ
  pub backend : State

-- What the environment decides at a tick: whether a reaper is set, whether the inner backend of the
-- loaded tier is mid-restart, whether stopping it reports an error, and what the other goroutines do to
-- the backend at the two places where the loop lets go of the mutex.
pub record Surroundings : Type 0 where
  pub has_reaper : Bool
  pub inner_busy : Bool
  pub stop_fails : Bool
  pub before_lock : State → State
  pub meanwhile : State → State

-- `sweeping.CompareAndSwap(false, true)` and, if it succeeds, the goroutine.
start_sweep : Loop → Loop
start_sweep l = if l.sweeping then l else record l { sweeping = true; sweeps = l.sweeps + 1 }

-- `maybeSweepAfterEvict`.
maybe_sweep_after_evict : Surroundings → Bool → Loop → Loop
unfolding start_sweep
maybe_sweep_after_evict e force l = if e.has_reaper && force then start_sweep l else l

idle_sweep : Surroundings → Loop → Loop
unfolding start_sweep
idle_sweep e l = if e.has_reaper && l.tick % reaper_sweep_every == 0 then start_sweep l else l

-- Both a load that would not fit again and free VRAM under the floor.
unfoldable pub under_pressure : Backend → ModelDescriptor → State → ℤ → Bool
under_pressure b d s avail =
    not (
      effective_headroom_fits d s.loaded_layers s.loaded_vision b.opts.max_parallel avail
        b.opts.buffer_pct)
    && ltb_ℤ avail external_pressure_floor_mb

abbrev pub is_loaded : State → Bool
is_loaded s = elim s.loaded_tier [ none ↦ false | some _ ↦ true ]

-- The last lines of a tick: under the lock again, the model goes only if it is still there, idle and
-- not mid-restart.
evict_if_quiet : Backend → Surroundings → State → Loop → Loop
unfolding maybe_sweep_after_evict
evict_if_quiet b e s l =
    if is_loaded s && s.inflight == 0 && not e.inner_busy
    then maybe_sweep_after_evict e e.stop_fails (record l { backend = evict b s })
    else record l { backend = s }

-- The pressure check, on the state `s` in which `d` was found loaded and idle.
pressure_check : Backend → Surroundings → ModelDescriptor → State → Loop → Loop
unfolding evict_if_quiet
pressure_check b e d s l = elim (reading b s) [
  | none ↦ record l { backend = observed s }
  | some avail ↦
      if ltb_ℤ avail (pos 0) || not (under_pressure b d s avail)
      then record l { backend = observed s }
      else evict_if_quiet b e (e.meanwhile (observed s)) l
]

-- A tick that has the mutex again, on the state `s` that it finds, and its loaded tier.
with_loaded : Backend → Surroundings → State → Option ModelDescriptor → Loop → Loop
unfolding pressure_check maybe_sweep_after_evict
with_loaded b e s none l = record l { backend = s }
with_loaded b e s (some d) l =
    let idle_for = b.world.clock s.observations - s.last_used in
    if ltb 0 s.inflight
    then record l { backend = s }
    else if leb b.opts.eviction_idle_timeout idle_for
    then maybe_sweep_after_evict e true (record l { backend = evict b (observed s) })
    else pressure_check b e d (observed s) l

locked_tick : Backend → Surroundings → State → Loop → Loop
unfolding with_loaded
locked_tick b e s l = with_loaded b e s s.loaded_tier l

-- One `<-ticker.C`.
pub tick_once : Backend → Surroundings → Loop → Loop
unfolding idle_sweep locked_tick
tick_once b e l =
    let l' = record l { tick = l.tick + 1 } in
    if not (is_loaded l.backend)
    then idle_sweep e l'
    else if ltb 0 l.backend.inflight
    then l'
    else locked_tick b e (e.before_lock l.backend) l'
