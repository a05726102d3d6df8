-- ===== src/Pc/Worker/Closes.antt =====
-- The worker and the relay together: the ack of a job against the relay's table.
use home_inference_server.Prelude.{
  ℕ, Bool, true, false, some, String, str_eq, str_eq_iff, ltb, All, All-map, ◌≡◌, refl, subst,
  arith,
}
use home_inference_server.Relay.Sql.{update_where, count_where}
use home_inference_server.Relay.Jobs.{
  is_processing, AckRequest, Job, Jobs, ok, acked_by, finished, ack,
}
use home_inference_server.Relay.Jobs.Isolation.{finished-miss}
use home_inference_server.Pc.Jobs.{InferResponse}
use home_inference_server.Pc.Worker.{Codec, Work, Processed, process_job}
use home_inference_server.Pc.Worker.Acked.{
  Acknowledged, left_to_relay, unreadable, overloaded, too_late, failed_run, done_run, IsFailed,
  process_job-Acknowledged,
}

module _ (codec : Codec) (w : Work) (job : Job) (valid : String → Bool)
    (valid_response : (r : InferResponse) → valid (codec.encode_response r) ≡ true)
    (valid_error : (code message correlation : String)
      → valid (codec.encode_error code message correlation) ≡ true) where
  -- An ack that the relay takes, and that ends the job.
  record IsFinal (a : AckRequest) : Type 0 where
    pub of_job : a.job_id ≡ job.id
    pub ended : is_processing a.status ≡ false
    pub readable : valid a.result_payload ≡ true

  failed-IsFinal :
      (code : String) (o : Processed) (a : AckRequest)
      → o.sent ≡ some a
      → IsFailed codec w job code o
      → IsFinal a
  failed-IsFinal code o a e f =
      let same : f.request ≡ a = cc (f.sent, e) in
      let (message, correlation, body) = f.body in
      subst IsFinal same (record {
        of_job = f.of_job;
        ended = rw f.status refl;
        readable = rw body (valid_error code message correlation);
      })

  sent-IsFinal :
      (o : Processed) (a : AckRequest) → o.sent ≡ some a → Acknowledged codec w job o → IsFinal a
  sent-IsFinal o a e (left_to_relay _ _ _ n _) = absurd (cc)
  sent-IsFinal o a e (unreadable _ f _) = failed-IsFinal _ o a e f
  sent-IsFinal o a e (overloaded _ _ _ f _) = failed-IsFinal _ o a e f
  sent-IsFinal o a e (too_late _ _ _ f _) = failed-IsFinal _ o a e f
  sent-IsFinal o a e (failed_run _ _ _ _ _ f _ _) = failed-IsFinal _ o a e f
  sent-IsFinal o a e (done_run req resp _ _ _ d _ _) =
      let same : d.request ≡ a = cc (d.sent, e) in
      subst IsFinal same (record {
        of_job = d.of_job;
        ended = rw d.status refl;
        readable = rw d.told (valid_response d.body);
      })

  not_acked-processing :
      (a : AckRequest)
      → IsFinal a
      → (j : Job) → acked_by a j ≡ false
      → str_eq j.id job.id ≡ true
      → is_processing j.status ≡ false
  not_acked-processing a final j miss same =
      let id = final.of_job in
      let named : str_eq j.id a.job_id ≡ true = rw id same in rw named at miss

  -- With a JSON encoder whose texts the relay's parser reads, the relay takes every ack that the worker
  -- sends, whatever its table holds, and no row of that job is processing afterwards.
  pub process_job-closes :
      (now : ℕ) (s : Jobs) (a : AckRequest)
      → (process_job codec w job).sent ≡ some a
      → (t : Jobs) × (updated : Bool) × (ack valid now a s ≡ ok (t, updated))
        × All (λ j. str_eq j.id job.id ≡ true → is_processing j.status ≡ false) t
  unfolding ack
  process_job-closes now s a e =
      let final =
        sent-IsFinal (process_job codec w job) a e (process_job-Acknowledged codec w job) in
      (
        update_where (acked_by a) (finished now a) s,
        ltb 0 (count_where (acked_by a) s),
        let readable = final.readable in ground arith,
        All-map (not_acked-processing a final) (update_where (acked_by a) (finished now a) s)
            (finished-miss now a a s ((str_eq_iff a.job_id a.job_id).1 refl) final.ended),
      )
