-- ===== src/Relay/Sweeper/Tracking.antt =====
-- The tracker never misses a finished job, so that an idle relay asks the database nothing and a purge
-- that is due is made.
use home_inference_server.Prelude.{
  All-map, ℕ, ◌+◌, ◌≤◌, ◌<◌, Bool, true, false, ◌||◌, not, Option, none, some, [], ◌∷◌, ◌≡◌, refl,
  sym, subst, arith, ltb, leb, ltb→lt, All, Bool-cases, Option-cases, inl, inr,
}
use home_inference_server.Relay.Sql.{All-delete}
use home_inference_server.Relay.Jobs.{
  is_terminal, Job, Jobs, is_expired, purge_expired, oldest_finished_at, sooner_of,
}
use home_inference_server.Relay.Sweeper.{
  record_finish, record_optional, Sweeper, Faults, due_at_once, look_up, purge_due, sweep_peeked,
  sweep_if_due,
}

-- A row that the tracker's instant `t` speaks for: if it has finished, `t` is no later than its finish,
-- or a sweep is due by `t` already.
abbrev pub covered : ℕ → ℕ → ℕ → Job → Bool
covered ttl now t j =
    not (is_terminal j.status)
    || elim j.finished_at [ none ↦ false | some n ↦ leb t n || leb (t + ttl) now ]

-- What the tracker knows at the time `now`: no row has finished, or an instant that speaks for all.
abbrev pub Tracks : ℕ → ℕ → Option ℕ → Jobs → Type 0
Tracks ttl now none jobs = All (λ j. is_terminal j.status ≡ false) jobs
Tracks ttl now (some t) jobs = All (λ j. covered ttl now t j ≡ true) jobs

-- A finished row has its finish time.
abbrev pub stamped : Job → Bool
stamped j = not (is_terminal j.status) || elim j.finished_at [ none ↦ false | some n ↦ true ]

abbrev pub Stamped : Jobs → Type 0
Stamped jobs = All (λ j. stamped j ≡ true) jobs

not_less : (m n : ℕ) → ltb m n ≡ false → n ≤ m
not_less m n h = ground arith

unstamped : (j : Job) → is_terminal j.status ≡ true → j.finished_at ≡ none → stamped j ≡ true → ⊥
unstamped j h e k = ground arith

module _ (ttl : ℕ) where
  -- Time may pass.
  pub Tracks-mono :
      (now later : ℕ) (o : Option ℕ) (jobs : Jobs)
      → now ≤ later
      → Tracks ttl now o jobs
      → Tracks ttl later o jobs
  Tracks-mono now later none jobs h k = k
  Tracks-mono now later (some t) jobs h k = All-map (λ j c. covered-later j c) jobs k
    where
      covered-later : (j : Job) → covered ttl now t j ≡ true → covered ttl later t j ≡ true
      covered-later j c = ground arith

  -- To record an instant never loses what was known.
  record_finish-Tracks :
      (now t : ℕ) (o : Option ℕ) (jobs : Jobs)
      → Tracks ttl now o jobs
      → Tracks ttl now (record_finish t o) jobs
  unfolding record_finish
  record_finish-Tracks now t none jobs k = All-map (λ j c. ground arith) jobs k
  record_finish-Tracks now t (some s) jobs k = elim (Bool-cases (ltb t s)) [
    | inl less ↦ rw less (All-map (λ j c. lower t s less j c) jobs k)
    | inr more ↦ rw more k
  ]
    where
      lower :
          (t s : ℕ)
          → ltb t s ≡ true
          → (j : Job) → covered ttl now s j ≡ true
          → covered ttl now t j ≡ true
      lower t s less j c = ground arith

  -- An earlier instant speaks for what a later one does.
  pub Tracks-lower :
      (now t s : ℕ) (jobs : Jobs)
      → t ≤ s
      → Tracks ttl now (some s) jobs
      → Tracks ttl now (some t) jobs
  Tracks-lower now t s jobs h k = All-map step jobs k
    where
      step : (j : Job) → covered ttl now s j ≡ true → covered ttl now t j ≡ true
      step j c = ground arith

  pub Tracks-any :
      (now t : ℕ) (jobs : Jobs) → Tracks ttl now none jobs → Tracks ttl now (some t) jobs
  Tracks-any now t jobs k = All-map (λ j c. ground arith) jobs k

  -- The head's finish time, beside what speaks for the rest.
  sooner-Tracks :
      (now n : ℕ) (o : Option ℕ) (j : Job) (jobs : Jobs)
      → j.finished_at ≡ some n
      → Tracks ttl now o jobs
      → Tracks ttl now (sooner_of (some n) o) (j ∷ jobs)
  sooner-Tracks now n none j jobs e k = (ground arith, Tracks-any now n jobs k)
  sooner-Tracks now n (some m) j jobs e k = elim (Bool-cases (ltb m n)) [
    | inl less ↦ rw less (ground arith, k)
    | inr more ↦ rw more (ground arith, Tracks-lower now n m jobs (not_less m n more) k)
  ]

  skip-Tracks :
      (now : ℕ) (o : Option ℕ) (j : Job) (jobs : Jobs)
      → is_terminal j.status ≡ false
      → Tracks ttl now o jobs
      → Tracks ttl now o (j ∷ jobs)
  skip-Tracks now none j jobs e k = (e, k)
  skip-Tracks now (some m) j jobs e k = (ground arith, k)

  -- The answer of the database speaks for all rows.
  pub oldest-Tracks :
      (now : ℕ) (jobs : Jobs) → Stamped jobs → Tracks ttl now (oldest_finished_at jobs) jobs
  unfolding oldest_finished_at
  oldest-Tracks now [] k = tt
  oldest-Tracks now (j ∷ jobs) k = elim (Bool-cases (is_terminal j.status)) [
    | inr open_row ↦
        rw open_row
          (skip-Tracks now (oldest_finished_at jobs) j jobs open_row (oldest-Tracks now jobs k.1))
    | inl final ↦ elim (Option-cases j.finished_at) [
      | inl e ↦ absurd (unstamped j final e k.0)
      | inr (n, e) ↦ rw final (
          subst (λ f. Tracks ttl now (sooner_of f (oldest_finished_at jobs)) (j ∷ jobs)) (sym e)
            (sooner-Tracks now n (oldest_finished_at jobs) j jobs e (oldest-Tracks now jobs k.1)))
    ]
  ]

  pub record_optional-Tracks :
      (now : ℕ) (found o : Option ℕ) (jobs : Jobs)
      → Tracks ttl now found jobs
      → Tracks ttl now (record_optional found o) jobs
  unfolding record_finish
  record_optional-Tracks now none none jobs k = k
  record_optional-Tracks now none (some s) jobs k = Tracks-any now s jobs k
  record_optional-Tracks now (some t) none jobs k = k
  record_optional-Tracks now (some t) (some s) jobs k = elim (Bool-cases (ltb t s)) [
    | inl less ↦ rw less k
    | inr more ↦ rw more (Tracks-lower now s t jobs (not_less t s more) k)
  ]

  All-purge {κ} :
      (P : Job → Type κ) (now : ℕ) (jobs : Jobs) → All P jobs → All P (purge_expired ttl now jobs).0
  unfolding purge_expired
  All-purge P now jobs a = All-delete P (is_expired ttl now) jobs a

  purge-clean :
      (now : ℕ) (jobs : Jobs)
      → All (λ j. is_expired ttl now j ≡ false) (purge_expired ttl now jobs).0
  unfolding purge_expired
  purge-clean now [] = tt
  purge-clean now (j ∷ t) = elim (Bool-cases (is_expired ttl now j)) [
    | inl gone ↦ rw gone (purge-clean now t)
    | inr stays ↦ rw stays (stays, purge-clean now t)
  ]

  -- What is left after a purge finished less than the ttl ago.
  purged-Tracks :
      (now : ℕ) (jobs : Jobs)
      → Stamped jobs
      → All (λ j. is_expired ttl now j ≡ false) jobs
      → Tracks ttl now (some (due_at_once ttl now)) jobs
  purged-Tracks now [] k a = tt
  purged-Tracks now (j ∷ jobs) k a = (ground arith, purged-Tracks now jobs k.1 a.1)

  -- The sweeper's invariant.
  pub record Watches (now : ℕ) (s : Sweeper) : Type 0 where
    pub stamps : Stamped s.jobs
    pub tracks : Tracks ttl now s.oldest s.jobs

  look_up-Watches :
      (now : ℕ) (f : Faults) (s : Sweeper)
      → Stamped s.jobs
      → All (λ j. is_expired ttl now j ≡ false) s.jobs
      → Watches now (look_up ttl now f s)
  unfolding look_up
  look_up-Watches now f s k clean = elim (Bool-cases f.lookup) [
    | inl lost ↦ simp lost (record {
      stamps = k;
      tracks =
          record_optional-Tracks now (some (due_at_once ttl now)) s.oldest s.jobs
            (purged-Tracks now s.jobs k clean);
    })
    | inr fine ↦ simp fine (record {
      stamps = k;
      tracks =
          record_optional-Tracks now (oldest_finished_at s.jobs) s.oldest s.jobs
            (oldest-Tracks now s.jobs k);
    })
  ]

  purge_due-Watches :
      (now : ℕ) (f : Faults) (t : ℕ) (s : Sweeper)
      → Stamped s.jobs
      → Tracks ttl now (some t) s.jobs
      → Watches now (purge_due ttl now f t s)
  unfolding purge_due
  purge_due-Watches now f t s k c = elim (Bool-cases f.purge) [
    | inl lost ↦
        simp lost
          (record { stamps = k; tracks = record_optional-Tracks now (some t) s.oldest s.jobs c })
    | inr fine ↦ simp fine (
        look_up-Watches now f _ (All-purge (λ j. stamped j ≡ true) now s.jobs k)
          (purge-clean now s.jobs))
  ]

  sweep_peeked-Watches :
      (now : ℕ) (f : Faults) (o : Option ℕ) (s : Sweeper)
      → s.oldest ≡ o
      → Watches now s
      → Watches now (sweep_peeked ttl now f o s)
  unfolding sweep_peeked
  sweep_peeked-Watches now f none s e w = w
  sweep_peeked-Watches now f (some t) s e w = elim (Bool-cases (ltb now (t + ttl))) [
    | inl early ↦ rw early w
    | inr due ↦
        rw due
          (purge_due-Watches now f t _ w.stamps (subst (λ o. Tracks ttl now o s.jobs) e w.tracks))
  ]

  -- A sweep keeps the invariant, whichever of its queries fail.
  pub sweep_if_due-Watches :
      (now : ℕ) (f : Faults) (s : Sweeper) → Watches now s → Watches now (sweep_if_due ttl now f s)
  unfolding sweep_if_due
  sweep_if_due-Watches now f s w = sweep_peeked-Watches now f s.oldest s refl w

  none-clean :
      (now : ℕ) (jobs : Jobs)
      → Tracks ttl now none jobs
      → All (λ j. is_expired ttl now j ≡ false) jobs
  none-clean now [] k = tt
  none-clean now (j ∷ t) k = (ground arith, none-clean now t k.1)

  early-clean :
      (now t : ℕ) (jobs : Jobs)
      → now < t + ttl
      → Tracks ttl now (some t) jobs
      → All (λ j. is_expired ttl now j ≡ false) jobs
  early-clean now t [] h k = tt
  early-clean now t (j ∷ r) h k = (ground arith, early-clean now t r h k.1)

  look_up-jobs : (now : ℕ) (f : Faults) (s : Sweeper) → (look_up ttl now f s).jobs ≡ s.jobs
  unfolding look_up
  look_up-jobs now f s = ground arith

  peeked-clean :
      (now : ℕ) (f : Faults) (o : Option ℕ) (s : Sweeper)
      → f.purge ≡ false
      → s.oldest ≡ o
      → Watches now s
      → All (λ j. is_expired ttl now j ≡ false) (sweep_peeked ttl now f o s).jobs
  unfolding sweep_peeked purge_due
  peeked-clean now f none s fine e w =
      none-clean now s.jobs (subst (λ o. Tracks ttl now o s.jobs) e w.tracks)
  peeked-clean now f (some t) s fine e w = elim (Bool-cases (ltb now (t + ttl))) [
    | inl early ↦ rw early (
        early-clean now t s.jobs (ltb→lt now (t + ttl) early)
          (subst (λ o. Tracks ttl now o s.jobs) e w.tracks))
    | inr due ↦ simp (due, fine) (simp look_up-jobs (purge-clean now s.jobs))
  ]

  -- While the tracker speaks for every finished row, a sweep whose purge does not fail leaves no job that has passed its ttl, also
  -- when it decides, without a query, that nothing is due.
  pub sweep_if_due-clean :
      (now : ℕ) (f : Faults) (s : Sweeper)
      → f.purge ≡ false
      → Watches now s
      → All (λ j. is_expired ttl now j ≡ false) (sweep_if_due ttl now f s).jobs
  unfolding sweep_if_due
  sweep_if_due-clean now f s fine w = peeked-clean now f s.oldest s fine refl w
