-- ===== src/Relay/Sweeper/Acks.antt =====
-- The sweeper's invariant under the other things that happen: acks, the passing of time, the start.
use home_inference_server.Prelude.{
  ℕ, ◌+◌, ◌≤◌, Bool, true, false, ◌&&◌, not, Option, none, some, List, [], ◌∷◌, String, ◌≡◌, sym,
  subst, arith, str_eq, ltb, All, Bool-cases, inl, inr,
}
use home_inference_server.Relay.Sql.{update_where, count_where, All-update}
use home_inference_server.Relay.Jobs.{
  Job, Jobs, AckRequest, acked_by, finished, ack, oldest_finished_at,
}
use home_inference_server.Relay.Jobs.Isolation.{update-none}
use home_inference_server.Relay.Sweeper.{
  record_finish, Sweeper, Faults, due_at_once, sweep_if_due, check_at_startup, ack_and_record,
}
use home_inference_server.Relay.Sweeper.Tracking.{
  Stamped, Tracks, Watches, Tracks-mono, Tracks-lower, Tracks-any, record_optional-Tracks,
  oldest-Tracks, sweep_if_due-Watches,
}

count-none :
    (p : Job → Bool) (t : Jobs) → ltb 0 (count_where p t) ≡ false → All (λ j. p j ≡ false) t
count-none p [] h = tt
count-none p (j ∷ t) h = elim (Bool-cases (p j)) [
  | inl hit ↦ absurd (ground arith)
  | inr miss ↦ (miss, count-none p t (rw miss at h))
]

ltb_le : (t s : ℕ) → ltb t s ≡ true → t ≤ s
ltb_le t s h = ground arith

not_less : (m n : ℕ) → ltb m n ≡ false → n ≤ m
not_less m n h = ground arith

module _ (ttl now : ℕ) (req : AckRequest) where
  covered-finished :
      (t : ℕ) (jobs : Jobs)
      → t ≤ now
      → Tracks ttl now (some t) jobs
      → Tracks ttl now (some t) (update_where (acked_by req) (finished now req) jobs)
  covered-finished t jobs h k =
      All-update (acked_by req) (finished now req) jobs (λ j _ c. ground arith) k

  Stamped-finished :
      (jobs : Jobs) → Stamped jobs → Stamped (update_where (acked_by req) (finished now req) jobs)
  Stamped-finished jobs k =
      All-update (acked_by req) (finished now req) jobs (λ j _ c. ground arith) k

  -- The tracker is told of the new finish.
  hit-Tracks :
      (o : Option ℕ) (jobs : Jobs)
      → Tracks ttl now o jobs
      → Tracks ttl now (record_finish now o) (update_where (acked_by req) (finished now req) jobs)
  unfolding record_finish
  hit-Tracks none jobs k = covered-finished now jobs (omega arith) (Tracks-any ttl now now jobs k)
  hit-Tracks (some s) jobs k = elim (Bool-cases (ltb now s)) [
    | inl less ↦ rw less (
        covered-finished now jobs (omega arith)
          (Tracks-lower ttl now now s jobs (ltb_le now s less) k))
    | inr more ↦ rw more (covered-finished s jobs (not_less now s more) k)
  ]

  acked-Watches :
      (valid : String → Bool) (s : Sweeper)
      → Watches ttl now s
      → Watches ttl now (ack_and_record valid now req s)
  unfolding ack_and_record ack
  acked-Watches valid s w =
      elim (Bool-cases (not (str_eq req.result_payload "") && not (valid req.result_payload))) [
        | inl bad ↦ rw bad w
        | inr good ↦ rw good (elim (Bool-cases (ltb 0 (count_where (acked_by req) s.jobs))) [
          | inl hit ↦ rw hit (record {
            stamps = Stamped-finished s.jobs w.stamps;
            tracks = hit-Tracks s.oldest s.jobs w.tracks;
          })
          | inr miss ↦
              let same =
                update-none (acked_by req) (finished now req) s.jobs
                  (count-none (acked_by req) s.jobs miss) in
              rw miss (record {
                stamps = Stamped-finished s.jobs w.stamps;
                tracks = subst (Tracks ttl now s.oldest) (sym same) w.tracks;
              })
        ])
      ]

-- What happens at the relay, at times that do not go back.
pub data Event : Type 0 where
  acks : (String → Bool) → AckRequest → Event
  sweeps : Faults → Event

happen : ℕ → ℕ → Event → Sweeper → Sweeper
happen ttl now (acks valid req) s = ack_and_record valid now req s
happen ttl now (sweeps f) s = sweep_if_due ttl now f s

-- Events with the time that passes before each.
pub run : ℕ → ℕ → List (ℕ × Event) → Sweeper → Sweeper
unfolding happen
run ttl now [] s = s
run ttl now ((wait, e) ∷ events) s = run ttl (now + wait) events (happen ttl (now + wait) e s)

abbrev pub time_after : ℕ → List (ℕ × Event) → ℕ
time_after now [] = now
time_after now ((wait, e) ∷ events) = time_after (now + wait) events

happen-Watches :
    (ttl now : ℕ) (e : Event) (s : Sweeper)
    → Watches ttl now s
    → Watches ttl now (happen ttl now e s)
unfolding happen
happen-Watches ttl now (acks valid req) s w = acked-Watches ttl now req valid s w
happen-Watches ttl now (sweeps f) s w = sweep_if_due-Watches ttl now f s w

Watches-mono : (ttl now wait : ℕ) (s : Sweeper) → Watches ttl now s → Watches ttl (now + wait) s
Watches-mono ttl now wait s w = record {
  stamps = w.stamps;
  tracks = Tracks-mono ttl now (now + wait) s.oldest s.jobs (omega arith) w.tracks;
}

-- The tracker speaks for the table after any acks and sweeps, if it does before them.
run-Watches :
    (ttl now : ℕ) (events : List (ℕ × Event)) (s : Sweeper)
    → Watches ttl now s
    → Watches ttl (time_after now events) (run ttl now events s)
unfolding run
run-Watches ttl now [] s w = w
run-Watches ttl now ((wait, e) ∷ events) s w =
    run-Watches ttl (now + wait) events (happen ttl (now + wait) e s)
      (happen-Watches ttl (now + wait) e s (Watches-mono ttl now wait s w))

due-Tracks :
    (ttl now : ℕ) (jobs : Jobs) → Stamped jobs → Tracks ttl now (some (due_at_once ttl now)) jobs
due-Tracks ttl now [] k = tt
due-Tracks ttl now (j ∷ jobs) k = (ground arith, due-Tracks ttl now jobs k.1)

check_at_startup-Watches :
    (ttl now : ℕ) (lost : Bool) (f : Faults) (s : Sweeper)
    → Stamped s.jobs
    → Watches ttl now (check_at_startup ttl now lost f s)
unfolding check_at_startup
check_at_startup-Watches ttl now true f s k = record {
  stamps = k;
  tracks =
      record_optional-Tracks ttl now (some (due_at_once ttl now)) s.oldest s.jobs
        (due-Tracks ttl now s.jobs k);
}
check_at_startup-Watches ttl now false f s k = sweep_if_due-Watches ttl now f _ (record {
  stamps = k;
  tracks =
      record_optional-Tracks ttl now (oldest_finished_at s.jobs) s.oldest s.jobs
        (oldest-Tracks ttl now s.jobs k);
})

-- The sweeper never loses sight of a finished job. Whatever the tracker holds at the start, after the
-- first check of a table whose finished rows have their finish time, and after any acks and sweeps that
-- follow, in any order, at times that do not go back, and with any of the queries failing, it speaks for
-- the table: either no row has finished, or it holds an instant that is no later than each row's finish or
-- is due for a sweep already.
pub run-check_at_startup :
    (ttl now : ℕ) (lost : Bool) (f : Faults) (events : List (ℕ × Event)) (s : Sweeper)
    → Stamped s.jobs
    → Watches ttl (time_after now events) (run ttl now events (check_at_startup ttl now lost f s))
run-check_at_startup ttl now lost f events s k =
    run-Watches ttl now events (check_at_startup ttl now lost f s)
      (check_at_startup-Watches ttl now lost f s k)
