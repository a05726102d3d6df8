-- ===== src/Relay/Ask.antt =====
-- internal/railwayq/ask.go: the public endpoint through which a site's visitors ask questions.
--
-- The handler is two functions, before and after its wait for the PC, since other requests run in
-- between. The visitors' token buckets, the limiter, the key table, the knowledge loader and the hosted
-- model are fields of `Scene`: what they answer for this request. The prompt and the cleaning of the
-- answer are not modelled.
pub mod Places
pub mod Rounds
mod Tests
use Prim.Native.String.{count as rune_count, ◌++◌ as append}
use home_inference_server.Prelude.{
  ℕ, suc, ◌+◌, ◌-◌, ◌*◌, Bool, true, false, ◌&&◌, ◌||◌, not, Option, none, some, List, [], ◌∷◌,
  String, str_eq, if◌then◌else◌, ltb, leb, ◌==◌, length,
}
use home_inference_server.Relay.Jobs.{
  pending, processing, done, failed, Job, Jobs, Reply, ok, err, not_found, not_pending, enqueue,
  cancel_pending, ResultResponse,
}
use home_inference_server.Relay.Gate.{is_app_key}
use home_inference_server.Relay.Visitors.{
  Limits, Visitor, Visitors, Allowance, granted, quota_exceeded, rate_limited, allow,
}
use home_inference_server.Relay.Server.{
  Relay, Body, too_large, malformed, decoded, Moment, increment_usage, usage_today, online,
}

pub record Spec : Type 0 where
  pub id : String
  pub origins : List String
  pub knowledge_url : String
  pub limits : Limits

-- `inFlight`: the map of counts, whose missing entries are 0.
pub record Running : Type 0 where
  pub app : String
  pub n : ℕ

pub running_of : String → List Running → ℕ
running_of app [] = 0
running_of app (r ∷ rest) = if str_eq r.app app then r.n else running_of app rest

pub set_running : String → ℕ → List Running → List Running
set_running app n [] = record { app = app; n = n } ∷ []
set_running app n (r ∷ rest) =
    let later = set_running app n rest in
    if str_eq r.app app then record r { n = n } ∷ rest else r ∷ later

pub acquire : String → ℕ → List Running → Option (List Running)
acquire app max t =
    if leb max (running_of app t) then none else some (set_running app (running_of app t + 1) t)

pub release : String → List Running → List Running
release app t = set_running app (running_of app t - 1) t

pub record AskRequest : Type 0 where
  pub key : String
  pub input : String
  pub history : List String

pub data AppLookup : Type 0 where
  app : Spec → AppLookup
  unknown : AppLookup
  broken : AppLookup

pub record Scene : Type 0 where
  pub moment : Moment
  pub method : String
  pub origin : String
  pub has_fallback : Bool
  pub lookup : String → AppLookup
  pub visitor_key : String → String
  pub bucket : Bool
  pub knowledge : String → Bool
  pub allow_at : String → ℕ → Bool
  pub trim_space : String → String
  -- The usage query fails; so does the insertion or the counter after it.
  pub usage_fails : Bool
  pub insert_fails : Bool
  pub count_fails : Bool

-- The relay with what the handler keeps.
pub record Desk : Type 0 where
  pub relay : Relay
  pub visitors : Visitors
  pub running : List Running

pub contains : List String → String → Bool
contains [] o = false
contains (p ∷ rest) o = str_eq p o || contains rest o

pub all_short : ℕ → List String → Bool
all_short max [] = true
all_short max (h ∷ rest) = leb (rune_count h) max && all_short max rest

-- `validateAsk`, on the trimmed input.
pub is_valid_ask : Limits → String → List String → Bool
is_valid_ask l input history =
    not (str_eq input "")
    && leb (rune_count input) l.max_input_chars
    && leb (length history) l.max_history
    && all_short l.max_history_chars history

-- How the first half ends: an error; the hosted model is asked; or a job of this id is waited for. The
-- last two hold a place among the app's questions in flight.
pub data Turn : Type 0 where
  preflight : Turn
  refused : ℕ → Turn
  asks_hosted : Spec → ℕ → Turn
  waits : Spec → String → ℕ → Turn

abbrev pub identity_of : Spec → String
identity_of spec = append "app:" spec.id

unfoldable pub ask_job : Scene → Spec → String → Job
ask_job sc spec payload = record {
  id = sc.moment.new_id;
  correlation_id = append spec.id (append "-" sc.moment.new_id);
  status = pending;
  payload = payload;
  result_payload = none;
  error_code = none;
  created_at = 0;
  claimed_at = none;
  finished_at = none;
  attempt_count = 0;
  max_attempts = 1;
  identity = identity_of spec;
}

-- The handler's return after it has a place: `defer running.release(spec.ID)`.
pub give_up : Spec → ℕ → Desk → Turn × Desk
give_up spec status d = (refused status, record d { running = release spec.id d.running })

pub counted : Scene → Spec → Desk → Desk
counted sc spec d = record d {
  relay = record d.relay {
    usage = increment_usage (identity_of spec) sc.moment.today d.relay.usage;
  };
}

-- `dbAskStore.Enqueue`: the insertion and then the counter, either of which may fail. `payload` is the
-- request that `BuildRequest` makes.
queued : Scene → Spec → ℕ → Desk → Reply Jobs → Turn × Desk
queued sc spec remaining d (err e) = give_up spec 500 d
queued sc spec remaining d (ok jobs) =
    let d' = record d { relay = record d.relay { jobs = jobs } } in
    if sc.count_fails
    then give_up spec 500 d'
    else (waits spec sc.moment.new_id remaining, counted sc spec d')

-- With a place, within the app's day, on the path that answers.
routed : Scene → Spec → Bool → String → ℕ → Desk → Turn × Desk
unfolding queued
routed sc spec is_online payload remaining d =
    if not is_online
    then (if sc.count_fails
        then give_up spec 500 d
        else (asks_hosted spec remaining, counted sc spec d))
    else if sc.insert_fails
    then give_up spec 500 d
    else queued sc spec remaining d
        (enqueue sc.moment.json_valid sc.moment.db_now (ask_job sc spec payload) d.relay.jobs)

placed : Scene → Spec → Bool → String → ℕ → Desk → Turn × Desk
unfolding routed
placed sc spec is_online payload remaining d =
    if sc.usage_fails
    then give_up spec 500 d
    else if leb spec.limits.per_day (usage_today (identity_of spec) sc.moment.today d.relay.usage)
    then give_up spec 429 d
    else routed sc spec is_online payload remaining d

acquired : Scene → Spec → Bool → String → ℕ → Desk → Option (List Running) → Turn × Desk
unfolding placed
acquired sc spec is_online payload remaining d none = (refused 503, d)
acquired sc spec is_online payload remaining d (some running) =
    placed sc spec is_online payload remaining (record d { running = running })

ready : Scene → Spec → Bool → String → ℕ → Desk → Turn × Desk
unfolding acquired
ready sc spec is_online payload remaining d =
    if not (str_eq spec.knowledge_url "") && not (sc.knowledge spec.knowledge_url)
    then (refused 503, d)
    else if not (sc.allow_at (identity_of spec) spec.limits.per_min)
    then (refused 429, d)
    else acquired sc spec is_online payload remaining d
        (acquire spec.id spec.limits.max_concurrent d.running)

allowed : Scene → Spec → Bool → String → Desk → Allowance → Turn × Desk
unfolding ready
allowed sc spec is_online payload d quota_exceeded = (refused 429, d)
allowed sc spec is_online payload d (rate_limited remaining) = (refused 429, d)
allowed sc spec is_online payload d (granted remaining) =
    ready sc spec is_online payload remaining d

known : Scene → Spec → Bool → String → AskRequest → Desk → Turn × Desk
unfolding allowed
known sc spec is_online payload req d =
    if not (str_eq sc.origin "") && not (contains spec.origins sc.origin)
    then (refused 403, d)
    else if not (is_valid_ask spec.limits (sc.trim_space req.input) req.history)
    then (refused 400, d)
    else let r =
        allow (sc.visitor_key spec.id) spec.limits (not is_online) sc.moment.now sc.moment.today
          sc.bucket d.visitors in
      allowed sc spec is_online payload (record d { visitors = r.1 }) r.0

pub looked_up : Scene → Bool → String → AskRequest → Desk → AppLookup → Turn × Desk
unfolding known
looked_up sc is_online payload req d unknown = (refused 401, d)
looked_up sc is_online payload req d broken = (refused 500, d)
looked_up sc is_online payload req d (app spec) = known sc spec is_online payload req d

-- `handleAsk` up to its wait.
pub ask_begin : Scene → String → Body AskRequest → Desk → Turn × Desk
unfolding looked_up
ask_begin sc payload body d =
    if str_eq sc.method "OPTIONS"
    then (preflight, d)
    else if not (str_eq sc.method "POST")
    then (refused 405, d)
    else elim body [
      | too_large ↦ (refused 413, d)
      | malformed ↦ (refused 400, d)
      | decoded req ↦
          if not (is_app_key req.key)
          then (refused 401, d)
          else if not (online sc.moment.now d.relay.last_seen) && not sc.has_fallback
          then (refused 503, d)
          else looked_up sc (online sc.moment.now d.relay.last_seen) payload req d
              (sc.lookup req.key)
    ]

-- How `waitForResult` ends: with a terminal result, or by an error; `gone` says whether the visitor has
-- left.
pub data Waited : Type 0 where
  result : ResultResponse → Waited
  no_result : Bool → Waited

-- The reply: an answer, an error, or nothing to a visitor who has left.
pub data AskReply : Type 0 where
  answer : String → ℕ → AskReply
  ask_error : ℕ → AskReply
  no_reply : AskReply

timed_out : Bool → Desk → Reply Jobs → AskReply × Desk
timed_out gone d (ok jobs) =
    (if gone then no_reply else ask_error 503, record d { relay = record d.relay { jobs = jobs } })
timed_out gone d (err e) = (if gone then no_reply else ask_error 504, d)

-- `readable` is the text of a payload that can be decoded.
reported : (Option String → Option String) → ℕ → Desk → ResultResponse → AskReply × Desk
reported readable remaining d r = elim r.status [
  | failed ↦ (ask_error 503, d)
  | _ ↦ elim (readable r.result_payload) [
    | none ↦ (ask_error 500, d)
    | some text ↦ (answer text remaining, d)
  ]
]

ended : (Option String → Option String) → Spec → String → ℕ → Waited → Desk → AskReply × Desk
ended readable spec id remaining (no_result gone) d =
    timed_out gone d (cancel_pending id (identity_of spec) d.relay.jobs)
ended readable spec id remaining (result r) d = reported readable remaining d r

-- `handleAsk` from the end of its wait, with the deferred release.
pub ask_end : (Option String → Option String) → Spec → String → ℕ → Waited → Desk → AskReply × Desk
ask_end readable spec id remaining w d =
    let r = ended readable spec id remaining w d in
    (r.0, record r.1 { running = release spec.id r.1.running })

-- The same for the hosted model, whose answer or error is `text`.
unfoldable pub hosted_end : Spec → ℕ → Bool → Option String → Desk → AskReply × Desk
hosted_end spec remaining gone text d =
    let d' = record d { running = release spec.id d.running } in
    elim text [
      | some t ↦ (answer t remaining, d')
      | none ↦ (if gone then no_reply else ask_error 503, d')
    ]
