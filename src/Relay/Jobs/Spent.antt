-- ===== src/Relay/Jobs/Spent.antt =====
-- What becomes of a job whose last permitted attempt was never acked.
use home_inference_server.Prelude.{
  At, here, there, ℕ, ◌+◌, ◌≤◌, ◌<◌, Bool, true, false, ◌&&◌, Option, none, some, [], ◌∷◌, ◌++◌,
  String, ◌≡◌, sym, subst, arith, str_eq, Bool-cases, inl, inr,
}
use home_inference_server.Relay.Sql.{
  update_where, delete_where, count_where, First, found, missing, first_by-First,
}
use home_inference_server.Relay.Jobs.{
  pending, is_pending, Job, Jobs, has_id, is_own, is_stale, sweep_expired, is_claimable, claimed,
  claim_row, claim_found, oldest_claimable, try_claim_one, count_pending, is_expired, purge_expired,
  new_row, AckRequest, acked_by, finished,
}
use home_inference_server.Relay.Jobs.Keys.{Distinct, unique_key}
use home_inference_server.Relay.Jobs.Claims.{Handed, gives, nothing, try_claim_one-Handed}
use home_inference_server.Relay.Jobs.Lifecycle.{
  TableOk, Step, enqueues, cancels, sweeps, claims, acks, purges, Step-TableOk, enqueue-inv,
  cancel-inv, ack-inv,
}

-- A job with its attempts used up, and waiting again.
abbrev pub IsSpent : Job → Type 0
IsSpent j = (j.status ≡ pending) × (j.max_attempts ≤ j.attempt_count)

spent-claimable : (j : Job) → IsSpent j → is_claimable j ≡ false
spent-claimable j h = ground arith

spent-stale : (db_now : ℕ) (j : Job) → IsSpent j → is_stale db_now j ≡ false
spent-stale db_now j h = ground arith

spent-expired : (ttl db_now : ℕ) (j : Job) → IsSpent j → is_expired ttl db_now j ≡ false
spent-expired ttl db_now j h = ground arith

spent-acked : (req : AckRequest) (j : Job) → IsSpent j → acked_by req j ≡ false
spent-acked req j h = ground arith

spent-pending : (j : Job) → IsSpent j → is_pending j.status ≡ true
spent-pending j h = ground arith

spent_not : (j : Job) → is_claimable j ≡ false → is_claimable j ≡ true → ⊥
spent_not j h k = cc

foreign :
    (id identity : String) (j : Job)
    → is_own id identity j ≡ false
    → is_own id identity j && is_pending j.status ≡ false
foreign id identity j h = ground arith

module _ (j : Job) where
  At-update :
      (p : Job → Bool) (f : Job → Job) {t : Jobs} → p j ≡ false → At j t → At j (update_where p f t)
  At-update p f miss here = rw miss here
  At-update p f miss (there m) = there (At-update p f miss m)

  At-delete : (p : Job → Bool) {t : Jobs} → p j ≡ false → At j t → At j (delete_where p t)
  At-delete p miss here = rw miss here
  At-delete p miss (there {s} m) = elim (Bool-cases (p s)) [
    | inl out ↦ rw out (At-delete p miss m)
    | inr stays ↦ rw stays (there (At-delete p miss m))
  ]

count-At : (p : Job → Bool) {j : Job} {t : Jobs} → p j ≡ true → At j t → 0 < count_where p t
count-At p hit here = rw hit (omega arith)
count-At p hit (there {s} m) = elim (Bool-cases (p s)) [
  | inl one ↦ rw one (omega arith)
  | inr other ↦ rw other (count-At p hit m)
]

-- A step that is not its owner's cancellation of the job.
abbrev pub Spares : Job → (valid : String → Bool) (s t : Jobs) → Step valid s t → Type 0
Spares j valid s t (cancels id identity e) = is_own id identity j ≡ false
Spares j valid s t _ = Unit

append-At : {j : Job} {t : Jobs} (k : Job) → At j t → At j (t ++ k ∷ [])
append-At k here = here
append-At k (there m) = there (append-At k m)

claim_found-At :
    (j : Job) (now : ℕ) (s : Jobs) (o : Option Job)
    → First is_claimable (λ k. k.created_at) s o
    → Distinct s
    → IsSpent j
    → At j s
    → At j (claim_found now s o).1
unfolding claim_found
claim_found-At j now s none f d spent m = m
claim_found-At j now s (some c) (missing e _) d spent m = cc
claim_found-At j now s (some c) (found r e at fits least) d spent m =
    let same : r ≡ c = cc in
    elim (Bool-cases (str_eq j.id c.id)) [
      | inr other ↦ At-update j (has_id c.id) (claim_row now (c.attempt_count + 1)) other m
      | inl hit ↦
          let one : j ≡ c = unique_key m (subst (λ x. At x s) same at) d hit in
          absurd (
            spent_not j (spent-claimable j spent) (
              subst (λ x. is_claimable x ≡ true) (sym one)
                (subst (λ x. is_claimable x ≡ true) same fits)))
    ]

-- A spent job outlives every step of the relay but its owner's cancellation: it stays in the table as
-- it is.
spent-Step :
    (j : Job) (valid : String → Bool) (s t : Jobs) (st : Step valid s t)
    → Spares j valid s t st
    → TableOk s
    → IsSpent j
    → At j s
    → At j t
unfolding sweep_expired try_claim_one purge_expired
spent-Step j valid s t (enqueues db_now job e) sp v spent m =
    subst (At j) (enqueue-inv valid db_now job s t e).1 (append-At (new_row db_now job) m)
spent-Step j valid s t (cancels id identity e) sp v spent m =
    subst (At j) (cancel-inv id identity s t e)
      (At-delete j (λ k. is_own id identity k && is_pending k.status) (foreign id identity j sp) m)
spent-Step j valid s t (sweeps db_now) sp v spent m =
    At-update j (is_stale db_now) _ (spent-stale db_now j spent) m
spent-Step j valid s t (claims now) sp v spent m =
    claim_found-At j now s (oldest_claimable s) (first_by-First is_claimable (λ k. k.created_at) s)
      v.keys spent m
spent-Step j valid s t (acks now req hit final e) sp v spent m =
    subst (At j) (ack-inv valid now req s t hit e)
      (At-update j (acked_by req) (finished now req) (spent-acked req j spent) m)
spent-Step j valid s t (purges ttl db_now) sp v spent m =
    At-delete j (is_expired ttl db_now) (spent-expired ttl db_now j spent) m

-- A run of such steps.
pub data Run (j : Job) (valid : String → Bool) (s : Jobs) : Jobs → Type 0 where
  stays : Run j valid s s
  goes :
      {t u : Jobs}
      → Run j valid s t
      → (st : Step valid t u) → Spares j valid t u st
      → Run j valid s u

run-TableOk :
    {j : Job} {valid : String → Bool} {s t : Jobs} → Run j valid s t → TableOk s → TableOk t
run-TableOk stays v = v
run-TableOk (goes r st sp) v = Step-TableOk st (run-TableOk r v)

run-At :
    {j : Job} {valid : String → Bool} {s t : Jobs}
    → Run j valid s t
    → TableOk s
    → IsSpent j
    → At j s
    → At j t
run-At stays v spent m = m
run-At {j} {valid} (goes {t} {u} r st sp) v spent m =
    spent-Step j valid t u st sp (run-TableOk r v) spent (run-At r v spent m)

-- In a table with the job invariant, a job that is pending with no attempt left is never removed or
-- changed, and the number of pending jobs stays above zero, whatever the relay does and however long it
-- runs, unless the job's owner cancels it.
pub spent_forever :
    (j : Job) (valid : String → Bool) (s t : Jobs)
    → TableOk s
    → IsSpent j
    → At j s
    → Run j valid s t
    → At j t × (0 < count_pending t)
unfolding count_pending
spent_forever j valid s t v spent m r =
    let there_still = run-At r v spent m in
    (there_still, count-At (λ k. is_pending k.status) (spent-pending j spent) there_still)

Handed-other :
    (j : Job) (now : ℕ) (t : Jobs) (c : Job) (o : Option Job)
    → Handed now t o
    → o ≡ some c
    → Distinct t
    → IsSpent j
    → At j t
    → str_eq j.id c.id ≡ false
Handed-other j now t c o (nothing e _) h d spent m = cc
Handed-other j now t c o (gives r e at fits _) h d spent m =
    let same : claimed now r ≡ c = cc in
    elim (Bool-cases (str_eq j.id r.id)) [
      | inr other ↦ subst (λ x. str_eq j.id x.id ≡ false) same other
      | inl hit ↦ absurd (
          spent_not j (spent-claimable j spent)
            (subst (λ x. is_claimable x ≡ true) (sym (unique_key m at d hit)) fits))
    ]

-- From a table with the job invariant, and after any run without its owner's cancellation, what a claim
-- hands out is never a job that was pending with no attempt left at the start.
pub spent_never_handed :
    (j : Job) (valid : String → Bool) (s t : Jobs) (now : ℕ) (c : Job)
    → TableOk s
    → IsSpent j
    → At j s
    → Run j valid s t
    → (try_claim_one now t).0 ≡ some c
    → str_eq j.id c.id ≡ false
spent_never_handed j valid s t now c v spent m r e =
    Handed-other j now t c (try_claim_one now t).0 (try_claim_one-Handed now t) e
      (run-TableOk r v).keys spent (run-At r v spent m)
