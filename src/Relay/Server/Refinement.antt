-- ===== src/Relay/Server/Refinement.antt =====
-- The handlers implement the steps of the job table: whatever requests come, the table stays well formed.
use home_inference_server.Prelude.{
  Bool, true, ◌||◌, Option, none, some, List, [], ◌∷◌, String, ◌≡◌, refl, sym, subst, arith, str_eq,
  leb, Bool-cases, inl, inr,
}
use home_inference_server.Relay.Jobs.{
  QueueJobStatus, is_terminal, Job, Jobs, Reply, ok, err, not_found, not_pending, invalid_json,
  duplicate_id, enqueue, cancel_pending, sweep_expired, try_claim_one, ack, count_pending,
}
use home_inference_server.Relay.Jobs.Lifecycle.{
  TableOk, Step, enqueues, cancels, sweeps, claims, acks, Step-TableOk,
}
use home_inference_server.Relay.Gate.{Config}
use home_inference_server.Relay.Server.{
  Relay, Body, too_large, malformed, decoded, EnqueueRequest, ClaimRequest, AckBody, ack_request,
  Answer, Moment, job_of, inserted, accepted, handle_enqueue, handed_out, claim_look, claim_expires,
  handle_claim, note_seen, stored, checked, handle_ack, handle_result, cancelled_by, handle_cancel,
  handle_status,
}

-- A request that has passed the gate, one more look of a claim that waits, or the end of that wait.
pub data Call : Type 0 where
  enqueue_call : String → Body EnqueueRequest → Call
  claim_call : Body ClaimRequest → Call
  claim_again : Call
  claim_ends : Call
  ack_call : Body AckBody → Call
  result_call : String → String → Call
  cancel_call : String → String → Call
  status_call : Call

pub serve : Config → Moment → Call → Relay → Answer × Relay
serve cfg m (enqueue_call identity b) s = handle_enqueue cfg m identity b s
serve cfg m (claim_call b) s = handle_claim m b s
serve cfg m claim_again s = claim_look m s
serve cfg m claim_ends s = claim_expires m s
serve cfg m (ack_call b) s = handle_ack m b s
serve cfg m (result_call identity id) s = handle_result m identity id s
serve cfg m (cancel_call identity id) s = handle_cancel m identity id s
serve cfg m status_call s = handle_status m s

-- The steps from one table to another.
pub data Steps (valid : String → Bool) (s : Jobs) : Jobs → Type 0 where
  still : Steps valid s s
  more : {t u : Jobs} → Steps valid s t → Step valid t u → Steps valid s u

Steps-one : {valid : String → Bool} {s t : Jobs} → Step valid s t → Steps valid s t
Steps-one st = more still st

module _ (cfg : Config) (m : Moment) where
  inserted-Steps :
      (identity : String) (req : EnqueueRequest) (s : Relay) (o : Reply Jobs)
      → enqueue m.json_valid m.db_now (job_of m identity req) s.jobs ≡ o
      → Steps m.json_valid s.jobs (inserted m identity s o).1.jobs
  unfolding inserted
  inserted-Steps identity req s (err e) h = still
  inserted-Steps identity req s (ok jobs) h =
      Steps-one (enqueues m.db_now (job_of m identity req) h)

  accepted-Steps :
      (identity : String) (req : EnqueueRequest) (s : Relay)
      → Steps m.json_valid s.jobs (accepted cfg m identity req s).1.jobs
  unfolding accepted
  accepted-Steps identity req s =
      elim (Bool-cases (str_eq req.correlation_id "" || str_eq req.payload "")) [
        | inl bare ↦ simp bare still
        | inr filled ↦ elim (Bool-cases m.outage.reads) [
          | inl down ↦ simp (filled, down) still
          | inr up ↦ elim (Bool-cases (leb cfg.max_pending_depth (count_pending s.jobs))) [
            | inl full ↦ simp (filled, up, full) still
            | inr room ↦ elim (Bool-cases m.outage.writes) [
              | inl lost ↦ simp (filled, up, room, lost) still
              | inr fine ↦ simp (filled, up, room, fine) (inserted-Steps identity req s _ refl)
            ]
          ]
        ]
      ]

  handed_out-jobs : (s : Relay) (r : Option Job × Jobs) → (handed_out m s r).1.jobs ≡ r.1
  unfolding handed_out note_seen
  handed_out-jobs s (none, jobs) = refl
  handed_out-jobs s (some j, jobs) = refl

  look-Steps : (s : Relay) → Steps m.json_valid s.jobs (claim_look m s).1.jobs
  unfolding claim_look
  look-Steps s = elim (Bool-cases m.outage.writes) [
    | inl down ↦ simp down still
    | inr up ↦ elim (Bool-cases m.outage.claims) [
      | inl lost ↦ simp (up, lost) (Steps-one (sweeps m.db_now))
      | inr fine ↦
          simp (up, fine)
            (subst (Steps m.json_valid s.jobs)
              (sym (handed_out-jobs s (try_claim_one m.now (sweep_expired m.db_now s.jobs))))
              (more (Steps-one (sweeps m.db_now)) (claims m.now)))
    ]
  ]

  stored-Steps :
      (b : AckBody) (status : QueueJobStatus) (s : Relay) (o : Reply (Jobs × Bool))
      → is_terminal status ≡ true
      → ack m.json_valid m.now (ack_request b status) s.jobs ≡ o
      → Steps m.json_valid s.jobs (stored m s o).1.jobs
  unfolding stored
  stored-Steps b status s (err e) final h = still
  stored-Steps b status s (ok (jobs, hit)) final h =
      Steps-one (acks m.now (ack_request b status) hit final h)

  checked-Steps :
      (b : AckBody) (o : Option QueueJobStatus) (s : Relay)
      → Steps m.json_valid s.jobs (checked m b o s).1.jobs
  unfolding checked
  checked-Steps b none s = still
  checked-Steps b (some status) s = elim (Bool-cases (is_terminal status)) [
    | inr other ↦ rw other still
    | inl final ↦ elim (Bool-cases m.outage.writes) [
      | inl lost ↦ simp (final, lost) still
      | inr fine ↦ simp (final, fine) (stored-Steps b status s _ final refl)
    ]
  ]

  cancelled-Steps :
      (identity id : String) (s : Relay) (o : Reply Jobs)
      → cancel_pending id identity s.jobs ≡ o
      → Steps m.json_valid s.jobs (cancelled_by s o).1.jobs
  unfolding cancelled_by
  cancelled-Steps identity id s (ok jobs) h = Steps-one (cancels id identity h)
  cancelled-Steps identity id s (err not_found) h = still
  cancelled-Steps identity id s (err not_pending) h = still
  cancelled-Steps identity id s (err invalid_json) h = still
  cancelled-Steps identity id s (err duplicate_id) h = still

  claim-Steps :
      (b : Body ClaimRequest) (s : Relay) → Steps m.json_valid s.jobs (handle_claim m b s).1.jobs
  unfolding handle_claim note_seen
  claim-Steps too_large s = still
  claim-Steps malformed s = still
  claim-Steps (decoded b) s = look-Steps (note_seen m.now s)

  ack-Steps : (b : Body AckBody) (s : Relay) → Steps m.json_valid s.jobs (handle_ack m b s).1.jobs
  unfolding handle_ack note_seen
  ack-Steps too_large s = still
  ack-Steps malformed s = still
  ack-Steps (decoded b) s = elim (Bool-cases (str_eq b.job_id "")) [
    | inl anonymous ↦ rw anonymous still
    | inr named ↦ rw named (checked-Steps b b.status (note_seen m.now s))
  ]

  enqueue-Steps :
      (identity : String) (b : Body EnqueueRequest) (s : Relay)
      → Steps m.json_valid s.jobs (handle_enqueue cfg m identity b s).1.jobs
  unfolding handle_enqueue
  enqueue-Steps identity too_large s = still
  enqueue-Steps identity malformed s = still
  enqueue-Steps identity (decoded req) s = accepted-Steps identity req s

  cancel-Steps :
      (identity id : String) (s : Relay)
      → Steps m.json_valid s.jobs (handle_cancel m identity id s).1.jobs
  unfolding handle_cancel
  cancel-Steps identity id s = elim (Bool-cases m.outage.writes) [
    | inl lost ↦ simp lost still
    | inr fine ↦ simp fine (cancelled-Steps identity id s _ refl)
  ]

  result-jobs : (identity id : String) (s : Relay) → (handle_result m identity id s).1 ≡ s
  unfolding handle_result
  result-jobs identity id s = ground arith

  status-jobs : (s : Relay) → (handle_status m s).1 ≡ s
  unfolding handle_status
  status-jobs s = ground arith

  pub serve-Steps : (c : Call) (s : Relay) → Steps m.json_valid s.jobs (serve cfg m c s).1.jobs
  unfolding serve claim_expires note_seen
  serve-Steps (enqueue_call identity b) s = enqueue-Steps identity b s
  serve-Steps (claim_call b) s = claim-Steps b s
  serve-Steps claim_again s = look-Steps s
  serve-Steps claim_ends s = still
  serve-Steps (ack_call b) s = ack-Steps b s
  serve-Steps (result_call identity id) s =
      subst (λ r. Steps m.json_valid s.jobs r.jobs) (sym (result-jobs identity id s)) still
  serve-Steps (cancel_call identity id) s = cancel-Steps identity id s
  serve-Steps status_call s =
      subst (λ r. Steps m.json_valid s.jobs r.jobs) (sym (status-jobs s)) still

Steps-TableOk : {valid : String → Bool} {s t : Jobs} → Steps valid s t → TableOk s → TableOk t
Steps-TableOk still v = v
Steps-TableOk (more r st) v = Step-TableOk st (Steps-TableOk r v)

-- A day at the relay: requests, each at its own moment, one after the other.
pub serve_all : Config → List (Moment × Call) → Relay → Relay
unfolding serve
serve_all cfg [] s = s
serve_all cfg ((m, c) ∷ rest) s = serve_all cfg rest (serve cfg m c s).1

-- From a table with the job invariant, after any requests at any moments and with any statements failing,
-- a row's columns fit its status, no job has been claimed more often than it may be, and no two jobs share
-- an id.
pub serve_all-TableOk :
    (cfg : Config) (calls : List (Moment × Call)) (s : Relay)
    → TableOk s.jobs
    → TableOk (serve_all cfg calls s).jobs
unfolding serve_all
serve_all-TableOk cfg [] s v = v
serve_all-TableOk cfg ((m, c) ∷ rest) s v =
    serve_all-TableOk cfg rest (serve cfg m c s).1 (Steps-TableOk (serve-Steps cfg m c s) v)
