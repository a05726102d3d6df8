-- ===== src/Relay/Ask/Rounds.antt =====
-- A question from its arrival to its reply.
use home_inference_server.Prelude.{
  ℕ, Bool, true, false, ◌&&◌, not, Option, List, String, ◌≡◌, refl, sym, subst, ap, ◌∙◌, arith,
  str_eq, if◌then◌else◌, All, Bool-cases, inl, inr,
}
use home_inference_server.Relay.Jobs.{
  is_pending, Jobs, Reply, ok, err, is_own, cancel_pending, ResultResponse,
}
use home_inference_server.Relay.Gate.{is_app_key}
use home_inference_server.Relay.Server.{Relay, Body, too_large, malformed, decoded, online}
use home_inference_server.Relay.Ask.{
  Spec, Running, release, Scene, Desk, Turn, refused, asks_hosted, waits, identity_of, looked_up,
  ask_begin, Waited, result, no_result, timed_out, reported, ended, ask_end, AskRequest,
}
use home_inference_server.Relay.Ask.Places.{
  SameRunning, OneMore, release-SameRunning, is_away, Placed, away, hosted, waiting,
  looked_up-Placed,
}

keyed-Placed :
    (sc : Scene) (payload : String) (req : AskRequest) (d : Desk)
    → Placed sc d.running d.relay (
        if not (is_app_key req.key)
        then (refused 401, d)
        else if not (online sc.moment.now d.relay.last_seen) && not sc.has_fallback
        then (refused 503, d)
        else looked_up sc
            (online sc.moment.now d.relay.last_seen)
            payload
            req
            d
            (sc.lookup req.key))
keyed-Placed sc payload req d = elim (Bool-cases (is_app_key req.key)) [
  | inr stranger ↦ rw stranger (away refl (λ a. refl) (inl refl))
  | inl keyed ↦
      elim (Bool-cases (not (online sc.moment.now d.relay.last_seen) && not sc.has_fallback)) [
        | inl asleep ↦ simp (keyed, asleep) (away refl (λ a. refl) (inl refl))
        | inr awake ↦
            simp (keyed, awake)
              (looked_up-Placed sc (online sc.moment.now d.relay.last_seen) payload req d
                (sc.lookup req.key))
      ]
]

-- The first half of a question either turns the visitor away, leaving every app's count in flight and,
-- unless the usage counter fails after the insertion, the job table as they were; or it takes one place
-- more of the app, which had fewer than its maximum in flight and fewer questions today than its quota,
-- and then either asks the hosted model, with no job, or waits for the job that it has enqueued.
pub ask_begin-Placed :
    (sc : Scene) (payload : String) (body : Body AskRequest) (d : Desk)
    → Placed sc d.running d.relay (ask_begin sc payload body d)
unfolding ask_begin
ask_begin-Placed sc payload body d = elim (Bool-cases (str_eq sc.method "OPTIONS")) [
  | inl options ↦ simp options (away refl (λ a. refl) (inl refl))
  | inr other ↦ elim (Bool-cases (str_eq sc.method "POST")) [
    | inr wrong ↦ simp (other, wrong) (away refl (λ a. refl) (inl refl))
    | inl post ↦ simp (other, post) (by_body body)
  ]
]
  where
    by_body :
        (body : Body AskRequest)
        → Placed sc d.running d.relay (elim body [
          | too_large ↦ (refused 413, d)
          | malformed ↦ (refused 400, d)
          | decoded req ↦
              if not (is_app_key req.key)
              then (refused 401, d)
              else if not (online sc.moment.now d.relay.last_seen) && not sc.has_fallback
              then (refused 503, d)
              else looked_up sc
                  (online sc.moment.now d.relay.last_seen)
                  payload
                  req
                  d
                  (sc.lookup req.key)
        ])
    by_body too_large = away refl (λ a. refl) (inl refl)
    by_body malformed = away refl (λ a. refl) (inl refl)
    by_body (decoded req) = keyed-Placed sc payload req d

-- Nothing of the caller's waits under an id.
abbrev pub NonePending : String → String → Jobs → Type 0
NonePending id identity t = All (λ j. is_own id identity j && is_pending j.status ≡ false) t

timed_out-running :
    (gone : Bool) (d : Desk) (o : Reply Jobs) → (timed_out gone d o).1.running ≡ d.running
unfolding timed_out
timed_out-running gone d (ok jobs) = refl
timed_out-running gone d (err e) = refl

reported-running :
    (readable : Option String → Option String) (remaining : ℕ) (d : Desk) (r : ResultResponse)
    → (reported readable remaining d r).1 ≡ d
unfolding reported
reported-running readable remaining d r = ground arith

ended-running :
    (readable : Option String → Option String) (spec : Spec) (id : String) (remaining : ℕ)
    (w : Waited) (d : Desk)
    → (ended readable spec id remaining w d).1.running ≡ d.running
unfolding ended
ended-running readable spec id remaining (no_result gone) d =
    timed_out-running gone d (cancel_pending id (identity_of spec) d.relay.jobs)
ended-running readable spec id remaining (result r) d =
    ap (λ x. x.running) (reported-running readable remaining d r)

placed-OneMore :
    (sc : Scene) (before : List Running) (relay : Relay) (r : Turn × Desk) (spec : Spec)
    (id : String) (remaining : ℕ)
    → r.0 ≡ waits spec id remaining
    → Placed sc before relay r
    → OneMore spec.id before r.1.running
placed-OneMore sc before relay r spec id remaining e (away a _ _) =
    absurd (differs (subst (λ t. is_away t ≡ true) e a))
  where
    differs : false ≡ true → ⊥
    differs h = cc
placed-OneMore sc before relay r spec id remaining e (hosted s n f _ _ _ _) =
    absurd (apart (sym f ∙ e))
  where
    apart : asks_hosted s n ≡ waits spec id remaining → ⊥
    apart h = cc
placed-OneMore sc before relay r spec id remaining e (waiting s n p f more _ _ _) =
    let same : s ≡ spec = injective (sym f ∙ e) in
    subst (λ x. OneMore x.id before r.1.running) same more
  where
    injective : waits s sc.moment.new_id n ≡ waits spec id remaining → s ≡ spec
    injective h = cc

-- A question that waited gives its place back: however the wait ends, and whatever the other questions did
-- to the relay and the visitors meanwhile, every app has as many questions in flight as before it came if
-- the others left the counts alone.
pub ask_end-SameRunning :
    (sc : Scene) (payload : String) (body : Body AskRequest) (d later : Desk) (spec : Spec)
    (id : String) (remaining : ℕ) (readable : Option String → Option String) (w : Waited)
    → (ask_begin sc payload body d).0 ≡ waits spec id remaining
    → later.running ≡ (ask_begin sc payload body d).1.running
    → SameRunning d.running (ask_end readable spec id remaining w later).1.running
unfolding ask_end
ask_end-SameRunning sc payload body d later spec id remaining readable w e same =
    let more =
      placed-OneMore sc d.running d.relay (ask_begin sc payload body d) spec id remaining e
        (ask_begin-Placed sc payload body d) in
    let kept = ended-running readable spec id remaining w later ∙ same in
    subst (λ t. SameRunning d.running (release spec.id t)) (sym kept)
      (release-SameRunning spec.id d.running (ask_begin sc payload body d).1.running more)
