-- ===== src/Relay/Jobs/Isolation.antt =====
-- What a caller can do with the jobs of others, and what a repeated or late ack does.
use home_inference_server.Prelude.{
  ℕ, Bool, true, false, ◌&&◌, [], ◌∷◌, String, ◌≡◌, ◌≢◌, refl, sym, subst, ◌∙◌, arith, str_eq,
  str_eq_iff, if◌then◌else◌, ltb, All, Bool-cases, Option-cases, inl, inr,
}
use home_inference_server.Relay.Sql.{update_where, delete_where, count_where, select_where}
use home_inference_server.Relay.Jobs.{
  is_pending, is_processing, Job, Jobs, Reply, ok, err, is_own, cancel_pending, get_result,
  AckRequest, acked_by, finished, ack,
}

-- The rows of one caller.
abbrev pub rows_of : String → Jobs → Jobs
rows_of identity [] = []
rows_of identity (j ∷ t) =
    if str_eq j.identity identity then j ∷ rows_of identity t else rows_of identity t

select-rows :
    (id identity : String) (jobs : Jobs)
    → select_where (is_own id identity) jobs
      ≡ select_where (is_own id identity) (rows_of identity jobs)
select-rows id identity [] = refl
select-rows id identity (j ∷ t) = ground (arith, select-rows id identity t)

get_result-rows_of :
    (id identity : String) (jobs : Jobs)
    → get_result id identity jobs ≡ get_result id identity (rows_of identity jobs)
unfolding get_result
get_result-rows_of id identity jobs = rw (select-rows id identity jobs, get_result)

-- The table after a call of the store.
abbrev pub after : Jobs → Reply Jobs → Jobs
after s (ok t) = t
after s (err e) = s

delete-rows :
    (id identity other : String) (jobs : Jobs)
    → identity ≢ other
    → rows_of other (delete_where (λ j. is_own id identity j && is_pending j.status) jobs)
      ≡ rows_of other jobs
delete-rows id identity other [] h = refl
delete-rows id identity other (j ∷ t) h = ground (
  arith,
  str_eq_iff j.identity identity,
  str_eq_iff j.identity other,
  delete-rows id identity other t h,
)

cancel_pending-rows_of :
    (id identity other : String) (jobs : Jobs)
    → identity ≢ other
    → rows_of other (after jobs (cancel_pending id identity jobs)) ≡ rows_of other jobs
unfolding cancel_pending
cancel_pending-rows_of id identity other jobs h =
    elim (Bool-cases
      (ltb 0 (count_where (λ j. is_own id identity j && is_pending j.status) jobs))) [
        | inl some_row ↦ rw some_row (delete-rows id identity other jobs h)
        | inr no_row ↦ rw no_row (elim (Option-cases (select_where (is_own id identity) jobs)) [
          | inl e ↦ rw (e, cancel_pending)
          | inr (j, e) ↦ rw (e, cancel_pending)
        ])
      ]

-- What a caller reads is decided by its own rows alone, so that another's job and an unknown id look
-- alike; and a caller's cancellation leaves the rows of every other identity as they are, whatever it
-- replies.
pub rows_of-isolated :
    (id identity other : String) (jobs : Jobs)
    → identity ≢ other
    → (get_result id identity jobs ≡ get_result id identity (rows_of identity jobs))
      × (rows_of other (after jobs (cancel_pending id identity jobs)) ≡ rows_of other jobs)
rows_of-isolated id identity other jobs h =
    (get_result-rows_of id identity jobs, cancel_pending-rows_of id identity other jobs h)

-- The ack of a job that is not being processed changes nothing.
pub update-none :
    (p : Job → Bool) (f : Job → Job) (t : Jobs) → All (λ j. p j ≡ false) t → update_where p f t ≡ t
update-none p f [] a = refl
update-none p f (j ∷ t) a = rw (a.0, update-none p f t a.1)

pub finished-miss :
    (now : ℕ) (req again : AckRequest) (t : Jobs)
    → str_eq req.job_id again.job_id ≡ true
    → is_processing req.status ≡ false
    → All (λ j. acked_by again j ≡ false) (update_where (acked_by req) (finished now req) t)
finished-miss now req again [] same final = tt
finished-miss now req again (j ∷ t) same final = (
  ground (
    arith,
    str_eq_iff req.job_id again.job_id,
    str_eq_iff j.id req.job_id,
    str_eq_iff j.id again.job_id,
  ),
  finished-miss now req again t same final,
)

-- An ack takes effect once: after one whose status is not `processing`, a second for the same job that is
-- accepted changes no row, whatever its status and result, so the first result stands.
pub ack-ack :
    (valid : String → Bool) (now later : ℕ) (req again : AckRequest) (s t u : Jobs)
    (first second : Bool)
    → str_eq req.job_id again.job_id ≡ true
    → is_processing req.status ≡ false
    → ack valid now req s ≡ ok (t, first)
    → ack valid later again t ≡ ok (u, second)
    → u ≡ t
unfolding ack
ack-ack valid now later req again s t u first second same final e f =
    let t_is : update_where (acked_by req) (finished now req) s ≡ t = ground arith in
    let u_is : update_where (acked_by again) (finished later again) t ≡ u = ground arith in
    sym u_is
    ∙ update-none (acked_by again) (finished later again) t (
        subst (All (λ j. acked_by again j ≡ false)) t_is (finished-miss now req again s same final))
