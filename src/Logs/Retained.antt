-- ===== src/Logs/Retained.antt =====
-- What the buffer keeps and what a reader of it sees.
use home_inference_server.Prelude.{
  ℕ, ◌-◌, ◌≤◌, ◌<◌, Option, none, some, List, ◌∷◌, String, if◌then◌else◌, ltb, length,
  length-take-le, length-keep_if-le, take, take_all, keep_if, All, ◌≡◌, refl, ◌∙◌, ap, sym, inl,
  inr, arith, Bool-cases,
}
use home_inference_server.Prelude.Int.{ℤ, pos, negsuc}
use home_inference_server.Logs.{
  Record, Buffer, new_buffer, trim_age, add, matches, query, window, record_limit, handle_logs, day,
}
use home_inference_server.Logs.Filters.{
  IsNewestFirst, is_fresh, drop_old-keep_if, query_loop-keep_if, keep_if-IsNewestFirst,
  take-IsNewestFirst,
}

-- The buffer keeps its order and its bound.
pub record IsBuffer (b : Buffer) : Type 0 where
  pub ordered : IsNewestFirst b.records
  pub bounded : length b.records ≤ b.max

trimmed :
    (max : ℕ) (rs : List Record) → (if ltb max (length rs) then take max rs else rs) ≡ take max rs
trimmed max rs = elim (Bool-cases (ltb max (length rs))) [
  | inl over ↦ rw over refl
  | inr fits ↦ rw fits (sym (take_all max rs (ground arith)))
]

-- Of the newest `max` records, with the new one, those that are not too old stay.
abbrev pub retained : ℕ → Record → Buffer → List Record
retained now r b =
    if ltb 0 b.max_age
    then keep_if (is_fresh now b.max_age) (take b.max (r ∷ b.records))
    else take b.max (r ∷ b.records)

pub add-retained :
    (now : ℕ) (r : Record) (b : Buffer)
    → All (λ (o : Record). o.time ≤ r.time) b.records
    → IsBuffer b
    → (add now r b).records ≡ retained now r b
unfolding add trim_age
add-retained now r b newer h =
    rw (trimmed b.max (r ∷ b.records)) (elim (Bool-cases (ltb 0 b.max_age)) [
      | inl ages ↦ simp ages (
          drop_old-keep_if now b.max_age (take b.max (r ∷ b.records))
            (take-IsNewestFirst b.max (r ∷ b.records) (newer, h.ordered)))
      | inr forever ↦ simp forever refl
    ])

retained-IsRetained :
    (now : ℕ) (r : Record) (b : Buffer)
    → IsNewestFirst (r ∷ b.records)
    → IsNewestFirst (retained now r b) × (length (retained now r b) ≤ b.max)
retained-IsRetained now r b h =
    let cut = take b.max (r ∷ b.records) in
    let ordered = take-IsNewestFirst b.max (r ∷ b.records) h in
    elim (Bool-cases (ltb 0 b.max_age)) [
      | inl ages ↦ simp ages (
        keep_if-IsNewestFirst (is_fresh now b.max_age) cut ordered,
        omega (
          arith,
          length-keep_if-le (is_fresh now b.max_age) cut,
          length-take-le b.max (r ∷ b.records),
        ),
      )
      | inr forever ↦ simp forever (ordered, length-take-le b.max (r ∷ b.records))
    ]

max-add : (now : ℕ) (r : Record) (b : Buffer) → (add now r b).max ≡ b.max
unfolding add
max-add now r b = refl

add-IsBuffer :
    (now : ℕ) (r : Record) (b : Buffer)
    → All (λ (o : Record). o.time ≤ r.time) b.records
    → IsBuffer b
    → IsBuffer (add now r b)
add-IsBuffer now r b newer h =
    let (ordered, bounded) = retained-IsRetained now r b (newer, h.ordered) in
    let same = add-retained now r b newer h in
    record { ordered = rw same ordered; bounded = rw (same, max-add now r b) bounded }

-- The buffers that records logged in the order of their times lead to.
pub data Logged (max max_age : ℕ) : Buffer → Type 0 where
  fresh : Logged max max_age (new_buffer max max_age)
  logged :
      {b : Buffer} (now : ℕ) (r : Record)
      → All (λ (o : Record). o.time ≤ r.time) b.records
      → Logged max max_age b
      → Logged max max_age (add now r b)

Logged-IsBuffer : {max max_age : ℕ} {b : Buffer} → Logged max max_age b → IsBuffer b × (b.max ≡ max)
unfolding new_buffer
Logged-IsBuffer fresh = (record { ordered = tt; bounded = omega arith }, refl)
Logged-IsBuffer (logged {b} now r newer l) =
    let (h, same) = Logged-IsBuffer l in (add-IsBuffer now r b newer h, max-add now r b ∙ same)

window-bounds : (since : Option ℤ) → (0 < window since) × (window since ≤ day)
unfolding window
window-bounds none = (omega arith, omega arith)
window-bounds (some (pos n)) = (ground arith, ground arith)
window-bounds (some (negsuc n)) = (ground arith, ground arith)

limit-bounds : (n : Option ℤ) → (0 < record_limit n) × (record_limit n ≤ 2_000)
unfolding record_limit
limit-bounds none = (omega arith, omega arith)
limit-bounds (some (pos n)) = (ground arith, ground arith)
limit-bounds (some (negsuc n)) = (ground arith, ground arith)

-- What a reader of the log is shown.
pub record Shows (normal : String → String) (now : ℕ) (level event : String) (b : Buffer)
    (shown : List Record) : Type 0 where
  pub since : ℕ
  pub limit : ℕ
  pub window : (0 < since) × (since ≤ day)
  pub few : (0 < limit) × (limit ≤ 2_000)
  pub newest_first : IsNewestFirst shown
  pub filtered : shown ≡ take limit (keep_if (matches now (normal level) event since) b.records)

-- Whatever the parameters, the reader of a buffer that was filled in the order of the records' times is
-- shown the newest records that match the level, the event and a window of at most a day, newest first
-- and at most 2000 of them; and the buffer holds no more than its maximum.
pub handle_logs-Shows :
    {max max_age : ℕ} {b : Buffer} (normal : String → String) (now : ℕ) (level event : String)
    (since limit : Option ℤ)
    → Logged max max_age b
    → Shows normal now level event b (handle_logs normal now level event since limit b)
      × (length b.records ≤ max)
unfolding handle_logs query
handle_logs-Shows {max} {max_age} {b} normal now level event since limit l =
    let (h, same) = Logged-IsBuffer l in
    let found = keep_if (matches now (normal level) event (window since)) b.records in
    let whole : record_limit limit - 0 ≡ record_limit limit = omega arith in
    let e =
      query_loop-keep_if now (normal level) event (window since) (record_limit limit) 0 b.records
      ∙ ap (λ (n : ℕ). take n found) whole in
    (
      record {
        since = window since;
        limit = record_limit limit;
        window = window-bounds since;
        few = limit-bounds limit;
        newest_first = rw e (
            take-IsNewestFirst (record_limit limit) found
              (keep_if-IsNewestFirst _ b.records h.ordered));
        filtered = e;
      },
      omega (arith, h.bounded),
    )
