-- ===== src/Logs/Filters.antt =====
-- The loops of the buffer against filters of its records.
use home_inference_server.Prelude.{
  ℕ, zero, suc, ◌+◌, ◌-◌, ◌≤◌, ◌<◌, Bool, true, false, not, List, [], ◌∷◌, String, if◌then◌else◌,
  leb, take, keep_if, All, ◌≡◌, refl, ◌∙◌, ap, sym, inl, inr, arith, Bool-cases, ltb→lt,
  keep_if-kept, keep_if-dropped,
}
use home_inference_server.Logs.{Record, is_before, drop_old, matches, query_loop}

-- Newest first.
abbrev pub IsNewestFirst : List Record → Type 0
IsNewestFirst [] = Unit {0}
IsNewestFirst (r ∷ rest) = All (λ (o : Record). o.time ≤ r.time) rest × IsNewestFirst rest

abbrev pub is_fresh : ℕ → ℕ → Record → Bool
is_fresh now age r = not (is_before now age r)

-- In such a list, where a record is too old all after it are: dropping from the end is a filter.
All-old :
    (now age bound : ℕ) (rs : List Record)
    → bound + age < now
    → All (λ (o : Record). o.time ≤ bound) rs
    → keep_if (is_fresh now age) rs ≡ []
All-old now age bound [] h a = refl
All-old now age bound (r ∷ rest) h a = ground (arith, All-old now age bound rest h a.1)

pub drop_old-keep_if :
    (now age : ℕ) (rs : List Record)
    → IsNewestFirst rs
    → drop_old now age rs ≡ keep_if (is_fresh now age) rs
unfolding drop_old
drop_old-keep_if now age [] h = refl
drop_old-keep_if now age (r ∷ rest) h = elim (Bool-cases (is_before now age r)) [
  | inl old ↦
      let none_after : keep_if (is_fresh now age) rest ≡ [] =
        All-old now age r.time rest (ltb→lt (r.time + age) now old) h.0 in
      let dropped = keep_if-dropped (is_fresh now age) r rest (ground arith) in
      ground (arith, drop_old-keep_if now age rest h.1)
  | inr young ↦
      last_kept (drop_old now age rest) young
      ∙ ap (λ (t : List Record). r ∷ t) (drop_old-keep_if now age rest h.1)
      ∙ sym (keep_if-kept (is_fresh now age) r rest (ground arith))
]
  where
    last_kept :
        (xs : List Record)
        → is_before now age r ≡ false
        → ◌≡◌ {A = List Record}
            (elim xs as (λ x. List Record) [
              | [] ↦ if is_before now age r then [] else r ∷ []
              | y ∷ ys ↦ r ∷ y ∷ ys
            ])
            (r ∷ xs)
    last_kept [] young = rw young refl
    last_kept (y ∷ ys) young = refl

query_loop-step :
    (now : ℕ) (level event : String) (since limit found : ℕ) (r : Record) (rest : List Record)
    → query_loop now level event since limit found (r ∷ rest) ≡ (
        if leb limit found
        then []
        else if matches now level event since r
        then r ∷ query_loop now level event since limit (found + 1) rest
        else query_loop now level event since limit found rest)
unfolding query_loop
query_loop-step now level event since limit found r rest = ground arith

pub query_loop-keep_if :
    (now : ℕ) (level event : String) (since limit found : ℕ) (rs : List Record)
    → query_loop now level event since limit found rs
      ≡ take (limit - found) (keep_if (matches now level event since) rs)
unfolding query_loop
query_loop-keep_if now level event since limit found [] = nothing (limit - found)
  where
    nothing : (n : ℕ) → ◌≡◌ {A = List Record} [] (take n [])
    nothing zero = refl
    nothing (suc n) = refl
query_loop-keep_if now level event since limit found (r ∷ rest) =
    query_loop-step now level event since limit found r rest ∙ elim (Bool-cases (leb limit found)) [
      | inl full ↦ let none_left : limit - found ≡ 0 = ground arith in rw (full, none_left) refl
      | inr room ↦
          let some_left : limit - found ≡ suc (limit - (found + 1)) = ground arith in
          elim (Bool-cases (matches now level event since r)) [
            | inl fits ↦
                rw (room, fits, some_left, keep_if-kept (matches now level event since) r rest fits)
                  (ap (λ (t : List Record). r ∷ t)
                    (query_loop-keep_if now level event since limit (found + 1) rest))
            | inr other ↦
                rw (room, other, keep_if-dropped (matches now level event since) r rest other)
                  (query_loop-keep_if now level event since limit found rest)
          ]
    ]

module _ {κ} (P : Record → Type κ) where
  All-keep_if : (p : Record → Bool) (rs : List Record) → All P rs → All P (keep_if p rs)
  All-keep_if p [] a = tt
  All-keep_if p (r ∷ rest) a =
      elim (p r)
        as (λ b.
          All P
            (elim b as (λ x. List Record) [ true ↦ r ∷ keep_if p rest | false ↦ keep_if p rest ])) [
              | true ↦ (a.0, All-keep_if p rest a.1)
              | false ↦ All-keep_if p rest a.1
            ]

  All-take : (n : ℕ) (rs : List Record) → All P rs → All P (take n rs)
  All-take zero rs a = tt
  All-take (suc n) [] a = tt
  All-take (suc n) (r ∷ rest) a = (a.0, All-take n rest a.1)

pub keep_if-IsNewestFirst :
    (p : Record → Bool) (rs : List Record) → IsNewestFirst rs → IsNewestFirst (keep_if p rs)
keep_if-IsNewestFirst p [] h = tt
keep_if-IsNewestFirst p (r ∷ rest) h =
    elim (p r)
      as (λ b.
        IsNewestFirst
          (elim b as (λ x. List Record) [ true ↦ r ∷ keep_if p rest | false ↦ keep_if p rest ])) [
            | true ↦ (All-keep_if _ p rest h.0, keep_if-IsNewestFirst p rest h.1)
            | false ↦ keep_if-IsNewestFirst p rest h.1
          ]

pub take-IsNewestFirst : (n : ℕ) (rs : List Record) → IsNewestFirst rs → IsNewestFirst (take n rs)
take-IsNewestFirst zero rs h = tt
take-IsNewestFirst (suc n) [] h = tt
take-IsNewestFirst (suc n) (r ∷ rest) h = (All-take _ n rest h.0, take-IsNewestFirst n rest h.1)
