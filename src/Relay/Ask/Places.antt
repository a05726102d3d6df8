-- ===== src/Relay/Ask/Places.antt =====
-- The places of an app's questions in flight, and the jobs that questions leave.
use home_inference_server.Prelude.{
  ℕ, ◌+◌, ◌-◌, ◌<◌, Bool, true, false, ◌&&◌, not, Option, none, some, List, [], ◌∷◌, String, ◌≡◌,
  refl, subst, ◌∙◌, arith, str_eq, str_eq_iff, leb, Bool-cases, ◌⊎◌, inl, inr,
}
use home_inference_server.Relay.Jobs.{Jobs, Reply, ok, err, enqueue}
use home_inference_server.Relay.Server.{Relay, usage_today}
use home_inference_server.Relay.Ask.{
  Spec, Running, running_of, set_running, acquire, release, AskRequest, AppLookup, app, unknown,
  broken, Scene, Desk, contains, is_valid_ask, Turn, preflight, refused, asks_hosted, waits,
  identity_of, ask_job, give_up, counted, queued, routed, placed, acquired, ready, allowed, known,
  looked_up,
}
use home_inference_server.Relay.Visitors.{Allowance, granted, quota_exceeded, rate_limited, allow}

self : (i : String) → str_eq i i ≡ true
self i = (str_eq_iff i i).1 refl

running-set : (a : String) (n : ℕ) (t : List Running) → running_of a (set_running a n t) ≡ n
unfolding running_of set_running
running-set a n [] = rw (self a) refl
running-set a n (r ∷ t) = elim (Bool-cases (str_eq r.app a)) [
  | inl hit ↦ rw (hit, hit) refl
  | inr miss ↦ rw (miss, miss) (running-set a n t)
]

running-set_other :
    (a other : String) (n : ℕ) (t : List Running)
    → str_eq a other ≡ false
    → running_of other (set_running a n t) ≡ running_of other t
unfolding running_of set_running
running-set_other a other n [] h = rw h refl
running-set_other a other n (r ∷ t) h = elim (Bool-cases (str_eq r.app a)) [
  | inl hit ↦
      let far : str_eq r.app other ≡ false =
        ground (arith, str_eq_iff r.app a, str_eq_iff r.app other, str_eq_iff a other) in
      rw (hit, far) refl
  | inr miss ↦ elim (Bool-cases (str_eq r.app other)) [
    | inl found ↦ rw (miss, found) refl
    | inr far ↦ rw (miss, far) (running-set_other a other n t h)
  ]
]

-- The counts of all apps are the same.
abbrev pub SameRunning : List Running → List Running → Type 0
SameRunning s t = (a : String) → running_of a t ≡ running_of a s

-- One more question of an app is in flight, and no other app's count differs.
pub record OneMore (id : String) (s t : List Running) : Type 0 where
  pub own : running_of id t ≡ running_of id s + 1
  pub others : (a : String) → str_eq id a ≡ false → running_of a t ≡ running_of a s

acquire-OneMore :
    (id : String) (max : ℕ) (s t : List Running)
    → acquire id max s ≡ some t
    → OneMore id s t × (running_of id s < max)
unfolding acquire
acquire-OneMore id max s t e = elim (Bool-cases (leb max (running_of id s))) [
  | inl full ↦ absurd (ground (arith, e))
  | inr free ↦
      let same : set_running id (running_of id s + 1) s ≡ t = ground (arith, e) in
      (
        record {
          own = rw⁻¹ same (running-set id (running_of id s + 1) s);
          others = λ a far. rw⁻¹ same (running-set_other id a (running_of id s + 1) s far);
        },
        ground arith,
      )
]

-- A release undoes an acquisition.
pub release-SameRunning :
    (id : String) (s t : List Running) → OneMore id s t → SameRunning s (release id t)
unfolding release
release-SameRunning id s t more a = elim (Bool-cases (str_eq id a)) [
  | inl hit ↦
      subst (λ x. running_of x (set_running id (running_of id t - 1) t) ≡ running_of x s)
        ((str_eq_iff id a).0 hit) (running-set id (running_of id t - 1) t ∙ omega (arith, more.own))
  | inr far ↦ running-set_other id a (running_of id t - 1) t far ∙ more.others a far
]

abbrev pub is_away : Turn → Bool
is_away preflight = true
is_away (refused status) = true
is_away _ = false

-- What the first half of a question does, from the counts in flight and the relay before it.
pub data Placed (sc : Scene) (before : List Running) (relay : Relay) (r : Turn × Desk)
    : Type 0 where
  away :
      is_away r.0 ≡ true
      → SameRunning before r.1.running
      → (r.1.relay.jobs ≡ relay.jobs) ⊎ (sc.count_fails ≡ true)
      → Placed sc before relay r
  hosted :
      (spec : Spec) (remaining : ℕ)
      → r.0 ≡ asks_hosted spec remaining
      → OneMore spec.id before r.1.running
      → running_of spec.id before < spec.limits.max_concurrent
      → usage_today (identity_of spec) sc.moment.today relay.usage < spec.limits.per_day
      → r.1.relay.jobs ≡ relay.jobs
      → Placed sc before relay r
  waiting :
      (spec : Spec) (remaining : ℕ) (payload : String)
      → r.0 ≡ waits spec sc.moment.new_id remaining
      → OneMore spec.id before r.1.running
      → running_of spec.id before < spec.limits.max_concurrent
      → usage_today (identity_of spec) sc.moment.today relay.usage < spec.limits.per_day
      → enqueue sc.moment.json_valid sc.moment.db_now (ask_job sc spec payload) relay.jobs
        ≡ ok r.1.relay.jobs
      → Placed sc before relay r

module _ (sc : Scene) (spec : Spec) (is_online : Bool) (payload : String) (remaining : ℕ) where
  give_up-Placed :
      (before : List Running) (d d' : Desk) (status : ℕ)
      → OneMore spec.id before d'.running
      → (d'.relay.jobs ≡ d.relay.jobs) ⊎ (sc.count_fails ≡ true)
      → Placed sc before d.relay (give_up spec status d')
  unfolding give_up
  give_up-Placed before d d' status more kept =
      away refl (release-SameRunning spec.id before d'.running more) kept

  module _ (before : List Running) (d : Desk) (more : OneMore spec.id before d.running)
      (room : running_of spec.id before < spec.limits.max_concurrent) where
    queued-Placed :
        (o : Reply Jobs)
        → enqueue sc.moment.json_valid sc.moment.db_now (ask_job sc spec payload) d.relay.jobs ≡ o
        → usage_today (identity_of spec) sc.moment.today d.relay.usage < spec.limits.per_day
        → Placed sc before d.relay (queued sc spec remaining d o)
    unfolding queued counted
    queued-Placed (err e) h below = give_up-Placed before d d 500 more (inl refl)
    queued-Placed (ok jobs) h below = elim (Bool-cases sc.count_fails) [
      | inl lost ↦ simp lost (
          give_up-Placed before d (record d { relay = record d.relay { jobs = jobs } }) 500 more
            (inr lost))
      | inr fine ↦ simp fine (waiting spec remaining payload refl more room below h)
    ]

    routed-Placed :
        usage_today (identity_of spec) sc.moment.today d.relay.usage < spec.limits.per_day
        → Placed sc before d.relay (routed sc spec is_online payload remaining d)
    unfolding routed counted
    routed-Placed below = elim (Bool-cases is_online) [
      | inr asleep ↦ elim (Bool-cases sc.count_fails) [
        | inl lost ↦ simp (asleep, lost) (give_up-Placed before d d 500 more (inl refl))
        | inr fine ↦ simp (asleep, fine) (hosted spec remaining refl more room below refl)
      ]
      | inl awake ↦ elim (Bool-cases sc.insert_fails) [
        | inl lost ↦ simp (awake, lost) (give_up-Placed before d d 500 more (inl refl))
        | inr fine ↦ simp (awake, fine) (queued-Placed _ refl below)
      ]
    ]

    placed-Placed : Placed sc before d.relay (placed sc spec is_online payload remaining d)
    unfolding placed
    placed-Placed = elim (Bool-cases sc.usage_fails) [
      | inl lost ↦ simp lost (give_up-Placed before d d 500 more (inl refl))
      | inr fine ↦
          elim (Bool-cases (
            leb spec.limits.per_day
              (usage_today (identity_of spec) sc.moment.today d.relay.usage))) [
                | inl spent ↦ simp (fine, spent) (give_up-Placed before d d 429 more (inl refl))
                | inr left ↦ simp (fine, left) (routed-Placed (ground arith))
              ]
    ]

  acquired-Placed :
      (d : Desk) (o : Option (List Running))
      → acquire spec.id spec.limits.max_concurrent d.running ≡ o
      → Placed sc d.running d.relay (acquired sc spec is_online payload remaining d o)
  unfolding acquired
  acquired-Placed d none e = away refl (λ a. refl) (inl refl)
  acquired-Placed d (some running) e =
      let (more, room) = acquire-OneMore spec.id spec.limits.max_concurrent d.running running e in
      placed-Placed d.running (record d { running = running }) more room

  ready-Placed :
      (d : Desk) → Placed sc d.running d.relay (ready sc spec is_online payload remaining d)
  unfolding ready
  ready-Placed d =
      elim (Bool-cases
        (not (str_eq spec.knowledge_url "") && not (sc.knowledge spec.knowledge_url))) [
          | inl unread ↦ simp unread (away refl (λ a. refl) (inl refl))
          | inr read ↦ elim (Bool-cases (sc.allow_at (identity_of spec) spec.limits.per_min)) [
            | inr busy ↦ simp (read, busy) (away refl (λ a. refl) (inl refl))
            | inl free ↦ simp (read, free) (acquired-Placed d _ refl)
          ]
        ]

allowed-Placed :
    (sc : Scene) (spec : Spec) (is_online : Bool) (payload : String) (d : Desk) (o : Allowance)
    → Placed sc d.running d.relay (allowed sc spec is_online payload d o)
unfolding allowed
allowed-Placed sc spec is_online payload d quota_exceeded = away refl (λ a. refl) (inl refl)
allowed-Placed sc spec is_online payload d (rate_limited remaining) =
    away refl (λ a. refl) (inl refl)
allowed-Placed sc spec is_online payload d (granted remaining) =
    ready-Placed sc spec is_online payload remaining d

known-Placed :
    (sc : Scene) (spec : Spec) (is_online : Bool) (payload : String) (req : AskRequest) (d : Desk)
    → Placed sc d.running d.relay (known sc spec is_online payload req d)
unfolding known
known-Placed sc spec is_online payload req d =
    elim (Bool-cases (not (str_eq sc.origin "") && not (contains spec.origins sc.origin))) [
      | inl foreign ↦ simp foreign (away refl (λ a. refl) (inl refl))
      | inr local ↦
          elim (Bool-cases (is_valid_ask spec.limits (sc.trim_space req.input) req.history)) [
            | inr bad ↦ simp (local, bad) (away refl (λ a. refl) (inl refl))
            | inl good ↦
                simp (local, good)
                  (allowed-Placed sc spec is_online payload
                    (record d {
                      visitors =
                          (allow (sc.visitor_key spec.id) spec.limits (not is_online) sc.moment.now
                            sc.moment.today sc.bucket d.visitors).1;
                    })
                    _)
          ]
    ]

pub looked_up-Placed :
    (sc : Scene) (is_online : Bool) (payload : String) (req : AskRequest) (d : Desk) (o : AppLookup)
    → Placed sc d.running d.relay (looked_up sc is_online payload req d o)
unfolding looked_up
looked_up-Placed sc is_online payload req d unknown = away refl (λ a. refl) (inl refl)
looked_up-Placed sc is_online payload req d broken = away refl (λ a. refl) (inl refl)
looked_up-Placed sc is_online payload req d (app spec) =
    known-Placed sc spec is_online payload req d
