-- ===== src/Pipeline/Flow/Conservation.antt =====
-- No job is lost and none is dispatched twice.
use home_inference_server.Prelude.{
  ℕ, suc, zero, ◌+◌, Bool, Option, none, some, List, [], ◌∷◌, ◌++◌, ◌≡◌, refl, ◌∙◌, ap, arith,
  if◌then◌else◌, ltb, leb, length, Bool-cases, Option-cases, inl, inr,
}
use home_inference_server.Pipeline.Flow.{
  Config, Flow, Event, arrives, window_ends, works, works_extra, closes, cancelled, buffer_size,
  submit, flushed, flush, appended, receive, receive_all, advance, give, taken, take_batch, worked,
  worked_extra, step, run,
}

module _ {ℓ} {A : Type ℓ} (p : A → Bool) where
  -- How many jobs of a kind a list holds, and a list of lists.
  abbrev pub count : List A → ℕ
  count [] = 0
  count (j ∷ rest) = if p j then suc (count rest) else count rest

  abbrev pub count_all : List (List A) → ℕ
  count_all [] = 0
  count_all (b ∷ rest) = count b + count_all rest

  -- Everywhere a job can be.
  abbrev pub held : Flow A → ℕ
  held s =
      count s.batch
      + count_all s.batches
      + count_all s.workers
      + count_all s.extra
      + count s.dispatched

  abbrev pub arrivals : List (Event A) → ℕ
  arrivals [] = 0
  arrivals (arrives j ∷ events) = count (j ∷ []) + arrivals events
  arrivals (cancelled left ∷ events) = count left + arrivals events
  arrivals (_ ∷ events) = arrivals events

  count-append : (xs ys : List A) → count (xs ++ ys) ≡ count xs + count ys
  count-append [] ys = omega arith
  count-append (x ∷ xs) ys = elim (Bool-cases (p x)) [
    | inl hit ↦ rw hit (omega (arith, count-append xs ys))
    | inr miss ↦ rw miss (count-append xs ys)
  ]

  count_all-append : (xs ys : List (List A)) → count_all (xs ++ ys) ≡ count_all xs + count_all ys
  count_all-append [] ys = omega arith
  count_all-append (x ∷ xs) ys = omega (arith, count_all-append xs ys)

  submit-held : (cfg : Config) (b : List A) (s : Flow A) → held (submit cfg b s) ≡ held s + count b
  unfolding submit
  submit-held cfg b s = elim (Bool-cases (ltb (length s.batches) (buffer_size cfg))) [
    | inl room ↦ rw room (omega (arith, count_all-append s.batches (b ∷ [])))
    | inr full ↦ rw full (omega (arith, count_all-append s.extra (b ∷ [])))
  ]

  submit-batch : (cfg : Config) (b : List A) (s : Flow A) → (submit cfg b s).batch ≡ s.batch
  unfolding submit
  submit-batch cfg b s = ground arith

  flushed-held :
      (cfg : Config) (b : List A) (s : Flow A) → s.batch ≡ b → held (flushed cfg b s) ≡ held s
  unfolding flushed
  flushed-held cfg [] s e = refl
  flushed-held cfg (j ∷ rest) s e =
      let whole = submit-held cfg (j ∷ rest) s in
      let same : count (submit cfg (j ∷ rest) s).batch ≡ count (j ∷ rest) =
        ap count (submit-batch cfg (j ∷ rest) s ∙ e) in
      omega (arith, whole, same)

  flush-held : (cfg : Config) (s : Flow A) → held (flush cfg s) ≡ held s
  unfolding flush
  flush-held cfg s = flushed-held cfg s.batch s refl

  appended-held : (j : A) (s : Flow A) → held (appended j s) ≡ held s + count (j ∷ [])
  unfolding appended
  appended-held j s = omega (arith, count-append s.batch (j ∷ []))

  receive-held :
      (cfg : Config) (j : A) (s : Flow A) → held (receive cfg j s) ≡ held s + count (j ∷ [])
  unfolding receive
  receive-held cfg j s = elim (Bool-cases (leb cfg.max_batch_size (length (s.batch ++ j ∷ [])))) [
    | inl full ↦ rw full (flush-held cfg (appended j s) ∙ appended-held j s)
    | inr room ↦ rw room (appended-held j s)
  ]

  receive_all-held :
      (cfg : Config) (left : List A) (s : Flow A)
      → held (receive_all cfg left s) ≡ held s + count left
  unfolding receive_all
  receive_all-held cfg [] s = omega arith
  receive_all-held cfg (j ∷ rest) s = omega (
    arith,
    receive_all-held cfg rest (receive cfg j s),
    receive-held cfg j s,
    count-append (j ∷ []) rest,
  )

  -- What an advance leaves, and a batch that is given.
  advance-count :
      (k : ℕ) (ws : List (List A)) (j : A) (ws' : List (List A))
      → advance k ws ≡ some (j, ws')
      → count_all ws ≡ count_all ws' + count (j ∷ [])
  unfolding advance
  advance-count k [] j ws' e = cc
  advance-count zero ([] ∷ others) j ws' e = cc
  advance-count zero ((i ∷ rest) ∷ others) j ws' e =
      let one : i ≡ j = cc in
      let same : rest ∷ others ≡ ws' = cc in
      rw⁻¹ (one, same) (omega (arith, count-append (i ∷ []) rest))
  advance-count (suc k) (w ∷ others) j ws' e = elim (Option-cases (advance k others)) [
    | inl f ↦ absurd (ground (arith, e, f))
    | inr ((i, rest), f) ↦
        let one : i ≡ j = ground (arith, e, f) in
        let same : w ∷ rest ≡ ws' = ground (arith, e, f) in
        rw⁻¹ (one, same) (omega (arith, advance-count k others i rest f))
  ]

  give-count :
      (k : ℕ) (b : List A) (ws ws' : List (List A))
      → give k b ws ≡ some ws'
      → count_all ws' ≡ count_all ws + count b
  unfolding give
  give-count k b [] ws' e = cc
  give-count zero b ([] ∷ others) ws' e =
      let same : b ∷ others ≡ ws' = cc in rw⁻¹ same (omega arith)
  give-count zero b ((j ∷ rest) ∷ others) ws' e = cc
  give-count (suc k) b (w ∷ others) ws' e = elim (Option-cases (give k b others)) [
    | inl f ↦ absurd (ground (arith, e, f))
    | inr (rest, f) ↦
        let same : w ∷ rest ≡ ws' = ground (arith, e, f) in
        rw⁻¹ same (omega (arith, give-count k b others rest f))
  ]

  taken-held :
      (b : List A) (rest : List (List A)) (s : Flow A) (k : ℕ) (o : Option (List (List A)))
      → s.batches ≡ b ∷ rest
      → give k b s.workers ≡ o
      → held (taken s rest o) ≡ held s
  unfolding taken
  taken-held b rest s k none e h = refl
  taken-held b rest s k (some workers') e h =
      let given : count_all workers' ≡ count_all s.workers + count b =
        give-count k b s.workers workers' h in
      let moved : count_all s.batches ≡ count b + count_all rest = ap count_all e in
      omega (arith, given, moved)

  take_batch-held :
      (k : ℕ) (bs : List (List A)) (s : Flow A) → s.batches ≡ bs → held (take_batch k bs s) ≡ held s
  unfolding take_batch
  take_batch-held k [] s e = refl
  take_batch-held k (b ∷ rest) s e = taken-held b rest s k _ e refl

  worked-held :
      (k : ℕ) (o : Option (A × List (List A))) (s : Flow A)
      → advance k s.workers ≡ o
      → held (worked k o s) ≡ held s
  unfolding worked
  worked-held k none s e = take_batch-held k s.batches s refl
  worked-held k (some (j, workers')) s e =
      omega (arith, advance-count k s.workers j workers' e, count-append s.dispatched (j ∷ []))

  worked_extra-held :
      (k : ℕ) (o : Option (A × List (List A))) (s : Flow A)
      → advance k s.extra ≡ o
      → held (worked_extra o s) ≡ held s
  unfolding worked_extra
  worked_extra-held k none s e = refl
  worked_extra-held k (some (j, extra')) s e =
      omega (arith, advance-count k s.extra j extra' e, count-append s.dispatched (j ∷ []))

  step-held :
      (cfg : Config) (e : Event A) (s : Flow A) → held (step cfg e s) ≡ held s + arrivals (e ∷ [])
  unfolding step
  step-held cfg (arrives j) s = omega (arith, receive-held cfg j s)
  step-held cfg window_ends s = omega (arith, flush-held cfg s)
  step-held cfg (works k) s = omega (arith, worked-held k (advance k s.workers) s refl)
  step-held cfg (works_extra k) s = omega (arith, worked_extra-held k (advance k s.extra) s refl)
  step-held cfg closes s = omega (arith, flush-held cfg s)
  step-held cfg (cancelled left) s =
      omega (arith, flush-held cfg (receive_all cfg left s), receive_all-held cfg left s)

  arrivals-step :
      (e : Event A) (events : List (Event A))
      → arrivals (e ∷ events) ≡ arrivals (e ∷ []) + arrivals events
  arrivals-step (arrives j) events = omega arith
  arrivals-step window_ends events = omega arith
  arrivals-step (works k) events = omega arith
  arrivals-step (works_extra k) events = omega arith
  arrivals-step closes events = omega arith
  arrivals-step (cancelled left) events = omega arith

  -- No job is lost and none is made up: for every kind of job, those that wait in the batch, the pool's
  -- buffer and the goroutines' rests together with those that reached the router are, after any
  -- interleaving of arrivals, windows, workers, closing and cancellation, those held before and those that
  -- arrived.
  pub run-held :
      (cfg : Config) (events : List (Event A)) (s : Flow A)
      → held (run cfg events s) ≡ held s + arrivals events
  unfolding run
  run-held cfg [] s = omega arith
  run-held cfg (e ∷ events) s =
      omega (arith, run-held cfg events (step cfg e s), step-held cfg e s, arrivals-step e events)
