-- ===== src/Relay/Visitors.antt =====
-- The visitors of internal/railwayq/ask.go: how many questions one may ask in a day.
--
-- The token buckets are third-party; what a bucket answers is an argument.
pub mod Quotas
use home_inference_server.Prelude.{
  ℕ, ◌+◌, ◌-◌, Bool, true, false, not, Option, none, some, List, [], ◌∷◌, String, str_eq,
  if◌then◌else◌, ltb, leb, ◌==◌,
}

-- The limits of an app's spec that the handler itself reads; `Validate` admits no negative limit.
pub record Limits : Type 0 where
  pub max_input_chars : ℕ
  pub max_history : ℕ
  pub max_history_chars : ℕ
  pub visitor_per_day : ℕ
  pub hosted_visitor_per_day : ℕ
  pub per_min : ℕ
  pub per_day : ℕ
  pub max_concurrent : ℕ

-- A visitor's questions of a day, those that the PC and those that the hosted model answer.
pub record Visitor : Type 0 where
  pub key : String
  pub day : ℕ
  pub pc : ℕ
  pub hosted : ℕ

-- `askVisitors`, without the buckets.
pub record Visitors : Type 0 where
  pub seen : List Visitor
  pub last_sweep : ℕ

-- The outcome of `allow`: the questions left, or why not.
pub data Allowance : Type 0 where
  granted : ℕ → Allowance
  quota_exceeded : Allowance
  rate_limited : ℕ → Allowance

abbrev pub sweep_interval : ℕ
sweep_interval = 600_000

unfoldable pub of_today : ℕ → List Visitor → List Visitor
of_today day [] = []
of_today day (v ∷ rest) = let later = of_today day rest in if v.day == day then v ∷ later else later

unfoldable pub swept : ℕ → ℕ → Visitors → Visitors
swept now day v =
    if ltb sweep_interval (now - v.last_sweep)
    then record { seen = of_today day v.seen; last_sweep = now }
    else v

-- `v.seen[key]`, and the assignment.
unfoldable pub entry_of : String → List Visitor → Option Visitor
entry_of key [] = none
entry_of key (v ∷ rest) = if str_eq v.key key then some v else entry_of key rest

unfoldable pub set_entry : Visitor → List Visitor → List Visitor
set_entry w [] = w ∷ []
set_entry w (v ∷ rest) =
    let later = set_entry w rest in if str_eq v.key w.key then w ∷ rest else v ∷ later

abbrev pub new_visitor : String → ℕ → Visitor
new_visitor key day = record { key = key; day = day; pc = 0; hosted = 0 }

unfoldable pub current : String → ℕ → Option Visitor → Visitor
current key day none = new_visitor key day
current key day (some v) = if v.day == day then v else new_visitor key day

unfoldable pub asked : Bool → Visitor → ℕ
asked hosted v = if hosted then v.hosted else v.pc

unfoldable pub daily : Bool → Limits → ℕ
daily hosted l = if hosted then l.hosted_visitor_per_day else l.visitor_per_day

unfoldable pub one_more : Bool → Visitor → Visitor
one_more hosted v =
    if hosted then record v { hosted = v.hosted + 1 } else record v { pc = v.pc + 1 }

-- With the visitor's entry; `bucket` is what its token bucket answers.
weighed : Limits → Bool → Bool → Visitor → Visitors → Allowance × Visitors
weighed l hosted bucket e v =
    if leb (daily hosted l) (asked hosted e)
    then (quota_exceeded, record v { seen = set_entry e v.seen })
    else if not bucket
    then (rate_limited (daily hosted l - asked hosted e), record v { seen = set_entry e v.seen })
    else (
      granted (daily hosted l - (asked hosted e + 1)),
      record v { seen = set_entry (one_more hosted e) v.seen },
    )

unfoldable pub allow : String → Limits → Bool → ℕ → ℕ → Bool → Visitors → Allowance × Visitors
unfolding weighed
allow key l hosted now day bucket v =
    let v' = swept now day v in weighed l hosted bucket (current key day (entry_of key v'.seen)) v'
