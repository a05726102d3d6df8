-- ===== src/Relay/Server/Intake.antt =====
-- What /enqueue does: a job is taken whole or not at all.
use home_inference_server.Prelude.{
  ℕ, ◌+◌, ◌≤◌, ◌<◌, Bool, true, ◌&&◌, ◌||◌, none, some, List, [], ◌∷◌, ◌++◌, String, ◌≡◌, refl,
  subst, arith, str_eq, str_eq_iff, if◌then◌else◌, leb, ◌==◌, ==_iff, Bool-cases, inl, inr,
}
use home_inference_server.Relay.Sql.{count_where, select_where}
use home_inference_server.Relay.Jobs.{
  pending, is_pending, Job, Jobs, Reply, ok, err, has_id, is_own, enqueue, new_row, get_result,
  count_pending,
}
use home_inference_server.Relay.Jobs.Lifecycle.{enqueue-inv}
use home_inference_server.Relay.Gate.{Config}
use home_inference_server.Relay.Server.{
  Usage, Relay, is_usage, increment_usage, usage_today, Body, too_large, malformed, decoded,
  EnqueueRequest, Answer, created, error, Moment, job_of, inserted, accepted, handle_enqueue,
}

self : (i : String) → str_eq i i ≡ true
self i = (str_eq_iff i i).1 refl

own-increment :
    (identity : String) (day : ℕ) (rows : List Usage)
    → usage_today identity day (increment_usage identity day rows)
      ≡ usage_today identity day rows + 1
unfolding usage_today increment_usage is_usage
own-increment identity day [] = rw (self identity, (==_iff day day).1 refl) refl
own-increment identity day (u ∷ rest) =
    elim (Bool-cases (str_eq u.identity identity && u.day == day)) [
      | inl hit ↦ rw (hit, hit) refl
      | inr miss ↦ rw (miss, miss) (own-increment identity day rest)
    ]

count-append :
    (p : Job → Bool) (t : Jobs) (k : Job)
    → p k ≡ true
    → count_where p (t ++ k ∷ []) ≡ count_where p t + 1
count-append p [] k h = rw h refl
count-append p (j ∷ t) k h = elim (Bool-cases (p j)) [
  | inl hit ↦ rw hit (omega (arith, count-append p t k h))
  | inr miss ↦ rw miss (count-append p t k h)
]

select-append :
    (id identity : String) (t : Jobs) (k : Job)
    → select_where (has_id id) t ≡ none
    → is_own id identity k ≡ true
    → select_where (is_own id identity) (t ++ k ∷ []) ≡ some k
select-append id identity [] k e h = rw h refl
select-append id identity (j ∷ t) k e h = elim (Bool-cases (str_eq j.id id)) [
  | inl hit ↦ absurd (ground arith)
  | inr miss ↦ rw miss (select-append id identity t k (rw miss at e) h)
]

-- What /enqueue leads to: a job that its caller can read as pending at once, under the depth limit, one
-- more in the queue and in the caller's usage of the day; or an error status and nothing changed.
pub data Intake (cfg : Config) (m : Moment) (identity : String) (s : Relay) (r : Answer × Relay)
    : Type 0 where
  takes :
      r.0 ≡ created m.new_id
      → count_pending s.jobs < cfg.max_pending_depth
      → count_pending r.1.jobs ≡ count_pending s.jobs + 1
      → get_result m.new_id identity r.1.jobs
        ≡ ok (record { status = pending; result_payload = none; error_code = none })
      → usage_today identity m.today r.1.usage ≡ (
          if m.outage.counter
          then usage_today identity m.today s.usage
          else usage_today identity m.today s.usage + 1)
      → Intake cfg m identity s r
  declines :
      (status : ℕ) (code : String)
      → r ≡ (error status code, s)
      → 400 ≤ status
      → Intake cfg m identity s r

module _ (cfg : Config) (m : Moment) (identity : String) (s : Relay) where
  readable :
      (req : EnqueueRequest)
      → select_where (has_id m.new_id) s.jobs ≡ none
      → get_result m.new_id identity (s.jobs ++ new_row m.db_now (job_of m identity req) ∷ [])
        ≡ ok (record { status = pending; result_payload = none; error_code = none })
  unfolding get_result job_of
  readable req fresh =
      rw
        (
          select-append m.new_id identity s.jobs (new_row m.db_now (job_of m identity req)) fresh
              (rw (self m.new_id, self identity) refl),
          get_result,
        )
        refl

  counted :
      usage_today identity m.today
        (if m.outage.counter then s.usage else increment_usage identity m.today s.usage)
      ≡ (if m.outage.counter
          then usage_today identity m.today s.usage
          else usage_today identity m.today s.usage + 1)
  counted = elim (Bool-cases m.outage.counter) [
    | inl lost ↦ rw lost refl
    | inr fine ↦ rw fine (own-increment identity m.today s.usage)
  ]

  inserted-Intake :
      (req : EnqueueRequest) (o : Reply Jobs)
      → enqueue m.json_valid m.db_now (job_of m identity req) s.jobs ≡ o
      → count_pending s.jobs < cfg.max_pending_depth
      → Intake cfg m identity s (inserted m identity s o)
  unfolding inserted count_pending job_of
  inserted-Intake req (err e) h room = declines 500 "internal_error" refl (omega arith)
  inserted-Intake req (ok jobs) h room =
      let (fresh, same) = enqueue-inv m.json_valid m.db_now (job_of m identity req) s.jobs jobs h in
      takes refl room
        (subst
          (λ t.
            count_where (λ j. is_pending j.status) t
            ≡ count_where (λ j. is_pending j.status) s.jobs + 1)
          same
          (count-append (λ j. is_pending j.status) s.jobs (new_row m.db_now (job_of m identity req))
            refl))
        (subst
          (λ t.
            get_result m.new_id identity t
            ≡ ok (record { status = pending; result_payload = none; error_code = none }))
          same (readable req fresh))
        counted

  accepted-Intake : (req : EnqueueRequest) → Intake cfg m identity s (accepted cfg m identity req s)
  unfolding accepted
  accepted-Intake req = elim (Bool-cases (str_eq req.correlation_id "" || str_eq req.payload "")) [
    | inl bare ↦ simp bare (declines 400 "invalid_request" refl (omega arith))
    | inr filled ↦ elim (Bool-cases m.outage.reads) [
      | inl down ↦ simp (filled, down) (declines 500 "internal_error" refl (omega arith))
      | inr up ↦ elim (Bool-cases (leb cfg.max_pending_depth (count_pending s.jobs))) [
        | inl full ↦ simp (filled, up, full) (declines 503 "queue_full" refl (omega arith))
        | inr room ↦ elim (Bool-cases m.outage.writes) [
          | inl lost ↦
              simp (filled, up, room, lost) (declines 500 "internal_error" refl (omega arith))
          | inr fine ↦ simp (filled, up, room, fine) (inserted-Intake req _ refl (ground arith))
        ]
      ]
    ]
  ]

  -- /enqueue takes a job whole or not at all. A job that is taken came while fewer than the maximum were
  -- pending, adds one to them, is read as pending by the caller who sent it, and adds one to that caller's
  -- usage of the day unless the counter's statement fails. Everything else is answered with an error
  -- status and changes neither table.
  pub handle_enqueue-Intake :
      (b : Body EnqueueRequest) → Intake cfg m identity s (handle_enqueue cfg m identity b s)
  unfolding handle_enqueue
  handle_enqueue-Intake too_large = declines 413 "invalid_request" refl (omega arith)
  handle_enqueue-Intake malformed = declines 400 "invalid_request" refl (omega arith)
  handle_enqueue-Intake (decoded req) = accepted-Intake req
