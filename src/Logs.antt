-- ===== src/Logs.antt =====
-- internal/logbuf/logbuf.go, with its reader `handleLogs` in internal/server/server.go: the log records
-- that are kept in memory.
--
-- Instants and durations are nanoseconds. `time.ParseDuration`, `strconv.Atoi` and the trimming and upper
-- case of a level are arguments. A group's name is dropped, as in the source.
pub mod Filters
pub mod Retained
mod Tests
use home_inference_server.Prelude.{
  ℕ, ◌+◌, ◌*◌, Bool, true, false, ◌&&◌, ◌||◌, not, Option, none, some, List, [], ◌∷◌, ◌++◌, String,
  str_eq, if◌then◌else◌, ltb, leb, length, take, min,
}
use home_inference_server.Prelude.Int.{ℤ, pos, ltb_ℤ, pos_part}

pub record Attr : Type 0 where
  pub key : String
  pub value : String

pub record Record : Type 0 where
  pub time : ℕ
  pub level : String
  pub msg : String
  pub event : String
  pub attrs : List Attr

pub record Buffer : Type 0 where
  pub records : List Record
  pub max : ℕ
  pub max_age : ℕ

pub new_buffer : ℕ → ℕ → Buffer
new_buffer max max_age = record { records = []; max = max; max_age = max_age }

-- `r.Time.Before(now.Add(-age))`.
abbrev pub is_before : ℕ → ℕ → Record → Bool
is_before now age r = ltb (r.time + age) now

-- The loop that drops the last record while it is too old.
pub drop_old : ℕ → ℕ → List Record → List Record
drop_old now age [] = []
drop_old now age (r ∷ rest) = elim (drop_old now age rest) [
  | [] ↦ if is_before now age r then [] else r ∷ []
  | x ∷ xs ↦ r ∷ x ∷ xs
]

pub trim_age : ℕ → ℕ → List Record → List Record
unfolding drop_old
trim_age now age rs = if ltb 0 age then drop_old now age rs else rs

pub add : ℕ → Record → Buffer → Buffer
add now r b = record b {
  records =
      trim_age now b.max_age
        (if ltb b.max (length (r ∷ b.records)) then take b.max (r ∷ b.records) else r ∷ b.records);
}

-- The record that `Handle` makes: the handler's own attributes, then the record's. A later attribute of
-- the same key replaces an earlier one, and the event is kept apart.
pub set_attr : Attr → List Attr → List Attr
set_attr a [] = a ∷ []
set_attr a (b ∷ rest) = if str_eq b.key a.key then a ∷ rest else b ∷ set_attr a rest

pub put : Attr → Record → Record
put a r =
    if str_eq a.key "event"
    then record r { event = a.value }
    else record r { attrs = set_attr a r.attrs }

pub put_all : List Attr → Record → Record
put_all [] r = r
put_all (a ∷ rest) r = put_all rest (put a r)

pub record Handler : Type 0 where
  pub attrs : List Attr

unfoldable pub with_attrs : List Attr → Handler → Handler
with_attrs attrs h = record { attrs = h.attrs ++ attrs }

unfoldable pub handle : ℕ → ℕ → String → String → List Attr → Handler → Buffer → Buffer
unfolding set_attr put put_all
handle now time level msg own h b =
    add now
      (put_all own (
        put_all h.attrs (record { time = time; level = level; msg = msg; event = ""; attrs = [] })))
      b

-- `Query`. A duration of 0 sets no time filter.
abbrev pub matches : ℕ → String → String → ℕ → Record → Bool
matches now level event since r =
    (str_eq level "" || str_eq r.level level)
    && (str_eq event "" || str_eq r.event event)
    && not (ltb 0 since && is_before now since r)

-- The loop, with the number of records found.
pub query_loop : ℕ → String → String → ℕ → ℕ → ℕ → List Record → List Record
query_loop now level event since limit found [] = []
query_loop now level event since limit found (r ∷ rest) =
    let skip = query_loop now level event since limit found rest in
    let take_it = r ∷ query_loop now level event since limit (found + 1) rest in
    if leb limit found
    then []
    else if not (str_eq level "") && not (str_eq r.level level)
    then skip
    else if not (str_eq event "") && not (str_eq r.event event)
    then skip
    else if ltb 0 since && is_before now since r
    then skip
    else take_it

pub query : (String → String) → ℕ → String → String → ℕ → ℕ → Buffer → List Record
unfolding query_loop
query upper_trimmed now level event since limit b =
    query_loop now (upper_trimmed level) event since limit 0 b.records

-- `handleLogs`: the window and the number of records that a request may see.
abbrev pub day : ℕ
day = 24 * 3_600_000_000_000

pub window : Option ℤ → ℕ
window none = day
window (some d) = if ltb_ℤ (pos 0) d then min (pos_part d) day else day

pub record_limit : Option ℤ → ℕ
record_limit none = 500
record_limit (some n) = if ltb_ℤ (pos 0) n then min (pos_part n) 2_000 else 500

-- `since` and `limit` are `none` where the parameter is missing or does not parse.
pub handle_logs :
    (String → String) → ℕ → String → String → Option ℤ → Option ℤ → Buffer → List Record
handle_logs upper_trimmed now level event since limit b =
    query upper_trimmed now level event (window since) (record_limit limit) b
