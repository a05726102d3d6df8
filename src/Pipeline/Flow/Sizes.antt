-- ===== src/Pipeline/Flow/Sizes.antt =====
-- How large the batches, the pool's buffer and the pool are.
use home_inference_server.Prelude.{
  ℕ, suc, zero, ◌≤◌, ◌<◌, Option, none, some, List, [], ◌∷◌, ◌++◌, ◌≡◌, refl, sym, subst, ◌∙◌, ap,
  arith, ltb, leb, length, length-append, All, Bool-cases, Option-cases, inl, inr,
}
use home_inference_server.Pipeline.Flow.{
  Config, Flow, Event, arrives, window_ends, works, works_extra, closes, cancelled, pool_size,
  buffer_size, idle_workers, start, submit, flushed, flush, appended, receive, receive_all, advance,
  give, taken, take_batch, worked, worked_extra, step, run,
}

idle-length {ℓ} : (A : Type ℓ) (k : ℕ) → length (idle_workers {A = A} k) ≡ k
unfolding idle_workers
idle-length A zero = refl
idle-length A (suc k) = omega (arith, idle-length A k)

module _ {ℓ} {A : Type ℓ} (cfg : Config) where
  abbrev pub IsBatch : List A → Type 0
  IsBatch b = (0 < length b) × (length b ≤ cfg.max_batch_size)

  -- The batch that gathers is not full and its size is what `ActiveBatchSize` reports; each batch in the
  -- buffer has a job and at most the maximum; the buffer and the pool keep their sizes.
  pub record Bounded (s : Flow A) : Type ℓ where
    pub small : length s.batch < cfg.max_batch_size
    pub shown : s.active ≡ length s.batch
    pub sized : All IsBatch s.batches
    pub buffer : length s.batches ≤ buffer_size cfg
    pub pool : length s.workers ≡ pool_size cfg

  -- All but what the gathering batch must fulfil.
  record Rest (s : Flow A) : Type ℓ where
    sized : All IsBatch s.batches
    buffer : length s.batches ≤ buffer_size cfg
    pool : length s.workers ≡ pool_size cfg

  All-append :
      (bs : List (List A)) (b : List A) → All IsBatch bs → IsBatch b → All IsBatch (bs ++ b ∷ [])
  All-append [] b a h = (h, tt)
  All-append (x ∷ bs) b a h = (a.0, All-append bs b a.1 h)

  submit-Rest : (b : List A) (s : Flow A) → IsBatch b → Rest s → Rest (submit cfg b s)
  unfolding submit
  submit-Rest b s h v = elim (Bool-cases (ltb (length s.batches) (buffer_size cfg))) [
    | inl room ↦ rw room (record {
      sized = All-append s.batches b v.sized h;
      buffer = ground (arith, length-append s.batches (b ∷ []));
      pool = v.pool;
    })
    | inr full ↦ rw full (record { sized = v.sized; buffer = v.buffer; pool = v.pool })
  ]

  flushed-Bounded :
      (b : List A) (s : Flow A)
      → s.batch ≡ b
      → 0 < cfg.max_batch_size
      → length b ≤ cfg.max_batch_size
      → s.active ≡ length s.batch
      → Rest s
      → Bounded (flushed cfg b s)
  unfolding flushed
  flushed-Bounded [] s e pos small shown v = record {
    small = subst (λ b. length b < cfg.max_batch_size) (sym e) pos;
    shown = shown;
    sized = v.sized;
    buffer = v.buffer;
    pool = v.pool;
  }
  flushed-Bounded (j ∷ rest) s e pos small shown v =
      let w = submit-Rest (j ∷ rest) s (omega arith, small) v in
      record { small = pos; shown = refl; sized = w.sized; buffer = w.buffer; pool = w.pool }

  Bounded-Rest : {s : Flow A} → Bounded s → Rest s
  Bounded-Rest v = record { sized = v.sized; buffer = v.buffer; pool = v.pool }

  flush-Bounded : (s : Flow A) → 0 < cfg.max_batch_size → Bounded s → Bounded (flush cfg s)
  unfolding flush
  flush-Bounded s pos v =
      flushed-Bounded s.batch s refl pos (omega (arith, v.small)) v.shown (Bounded-Rest v)

  receive-Bounded : (j : A) (s : Flow A) → Bounded s → Bounded (receive cfg j s)
  unfolding receive appended flush
  receive-Bounded j s v = elim (Bool-cases (leb cfg.max_batch_size (length (s.batch ++ j ∷ [])))) [
    | inl full ↦ rw full (
        flushed-Bounded (s.batch ++ j ∷ []) _ refl (omega (arith, v.small))
          (omega (arith, v.small, length-append s.batch (j ∷ []))) refl
          (record { sized = v.sized; buffer = v.buffer; pool = v.pool }))
    | inr room ↦ rw room (record {
      small = ground arith;
      shown = refl;
      sized = v.sized;
      buffer = v.buffer;
      pool = v.pool;
    })
  ]

  receive_all-Bounded : (left : List A) (s : Flow A) → Bounded s → Bounded (receive_all cfg left s)
  unfolding receive_all
  receive_all-Bounded [] s v = v
  receive_all-Bounded (j ∷ rest) s v =
      receive_all-Bounded rest (receive cfg j s) (receive-Bounded j s v)

  advance-length :
      (k : ℕ) (ws : List (List A)) (j : A) (ws' : List (List A))
      → advance k ws ≡ some (j, ws')
      → length ws' ≡ length ws
  unfolding advance
  advance-length k [] j ws' e = cc
  advance-length zero ([] ∷ others) j ws' e = cc
  advance-length zero ((i ∷ rest) ∷ others) j ws' e =
      let same : rest ∷ others ≡ ws' = cc in rw⁻¹ same refl
  advance-length (suc k) (w ∷ others) j ws' e = elim (Option-cases (advance k others)) [
    | inl f ↦ absurd (ground (arith, e, f))
    | inr ((i, rest), f) ↦
        let same : w ∷ rest ≡ ws' = ground (arith, e, f) in
        rw⁻¹ same (omega (arith, advance-length k others i rest f))
  ]

  give-length :
      (k : ℕ) (b : List A) (ws ws' : List (List A))
      → give k b ws ≡ some ws'
      → length ws' ≡ length ws
  unfolding give
  give-length k b [] ws' e = cc
  give-length zero b ([] ∷ others) ws' e = let same : b ∷ others ≡ ws' = cc in rw⁻¹ same refl
  give-length zero b ((j ∷ rest) ∷ others) ws' e = cc
  give-length (suc k) b (w ∷ others) ws' e = elim (Option-cases (give k b others)) [
    | inl f ↦ absurd (ground (arith, e, f))
    | inr (rest, f) ↦
        let same : w ∷ rest ≡ ws' = ground (arith, e, f) in
        rw⁻¹ same (omega (arith, give-length k b others rest f))
  ]

  taken-Bounded :
      (k : ℕ) (b : List A) (rest : List (List A)) (s : Flow A) (o : Option (List (List A)))
      → s.batches ≡ b ∷ rest
      → give k b s.workers ≡ o
      → Bounded s
      → Bounded (taken s rest o)
  unfolding taken
  taken-Bounded k b rest s none e h v = v
  taken-Bounded k b rest s (some workers') e h v =
      let sized : All IsBatch (b ∷ rest) = subst (All IsBatch) e v.sized in
      let same : length s.batches ≡ suc (length rest) = ap length e in
      record {
        small = v.small;
        shown = v.shown;
        sized = sized.1;
        buffer = omega (arith, same, v.buffer);
        pool = give-length k b s.workers workers' h ∙ v.pool;
      }

  take_batch-Bounded :
      (k : ℕ) (bs : List (List A)) (s : Flow A)
      → s.batches ≡ bs
      → Bounded s
      → Bounded (take_batch k bs s)
  unfolding take_batch
  take_batch-Bounded k [] s e v = v
  take_batch-Bounded k (b ∷ rest) s e v = taken-Bounded k b rest s _ e refl v

  worked-Bounded :
      (k : ℕ) (o : Option (A × List (List A))) (s : Flow A)
      → advance k s.workers ≡ o
      → Bounded s
      → Bounded (worked k o s)
  unfolding worked
  worked-Bounded k none s e v = take_batch-Bounded k s.batches s refl v
  worked-Bounded k (some (j, workers')) s e v = record {
    small = v.small;
    shown = v.shown;
    sized = v.sized;
    buffer = v.buffer;
    pool = advance-length k s.workers j workers' e ∙ v.pool;
  }

  worked_extra-Bounded :
      (o : Option (A × List (List A))) (s : Flow A) → Bounded s → Bounded (worked_extra o s)
  unfolding worked_extra
  worked_extra-Bounded none s v = v
  worked_extra-Bounded (some (j, extra')) s v = record {
    small = v.small;
    shown = v.shown;
    sized = v.sized;
    buffer = v.buffer;
    pool = v.pool;
  }

  step-Bounded : (e : Event A) (s : Flow A) → Bounded s → Bounded (step cfg e s)
  unfolding step
  step-Bounded (arrives j) s v = receive-Bounded j s v
  step-Bounded window_ends s v = flush-Bounded s (omega (arith, v.small)) v
  step-Bounded (works k) s v = worked-Bounded k (advance k s.workers) s refl v
  step-Bounded (works_extra k) s v = worked_extra-Bounded (advance k s.extra) s v
  step-Bounded closes s v = flush-Bounded s (omega (arith, v.small)) v
  step-Bounded (cancelled left) s v =
      let w = receive_all-Bounded left s v in
      flush-Bounded (receive_all cfg left s) (omega (arith, w.small)) w

  run-kept : (events : List (Event A)) (s : Flow A) → Bounded s → Bounded (run cfg events s)
  unfolding run
  run-kept [] s v = v
  run-kept (e ∷ events) s v = run-kept events (step cfg e s) (step-Bounded e s v)

  -- With a maximum of at least one, and from the start on, the batch that gathers is never full and its size
  -- is what `ActiveBatchSize` reports, no batch that the pool holds is empty or over the maximum, and the
  -- pool's buffer and its number of workers keep to their sizes, whatever the interleaving.
  pub run-Bounded :
      (events : List (Event A)) → 0 < cfg.max_batch_size → Bounded (run cfg events (start cfg))
  unfolding start
  run-Bounded events pos = run-kept events _ (record {
    small = pos;
    shown = refl;
    sized = tt;
    buffer = omega arith;
    pool = idle-length A (pool_size cfg);
  })
