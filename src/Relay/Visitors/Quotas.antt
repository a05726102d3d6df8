-- ===== src/Relay/Visitors/Quotas.antt =====
-- What a visitor may ask in a day.
use home_inference_server.Prelude.{
  ℕ, ◌+◌, ◌-◌, ◌<◌, Bool, true, false, not, Option, none, some, List, [], ◌∷◌, String, ◌≡◌, ◌≢◌,
  refl, sym, subst, ap, ◌∙◌, arith, str_eq, str_eq_iff, ltb, leb, ◌==◌, ==_iff, Bool-cases,
  Option-cases, inl, inr,
}
use home_inference_server.Relay.Visitors.{
  Limits, Visitor, Visitors, Allowance, granted, of_today, swept, entry_of, set_entry, current,
  asked, daily, one_more, weighed, allow, sweep_interval,
}

-- How many questions a visitor has asked on a day and on a path.
pub count_of : String → ℕ → Bool → Visitors → ℕ
count_of key day hosted v = asked hosted (current key day (entry_of key v.seen))

self : (i : String) → str_eq i i ≡ true
self i = (str_eq_iff i i).1 refl

entry-set : (w : Visitor) (t : List Visitor) → entry_of w.key (set_entry w t) ≡ some w
unfolding entry_of set_entry
entry-set w [] = rw (self w.key) refl
entry-set w (v ∷ t) = elim (Bool-cases (str_eq v.key w.key)) [
  | inl hit ↦ rw hit (rw (self w.key) refl)
  | inr miss ↦ rw (miss, miss) (entry-set w t)
]

entry-set_other :
    (w : Visitor) (key : String) (t : List Visitor)
    → str_eq w.key key ≡ false
    → entry_of key (set_entry w t) ≡ entry_of key t
unfolding entry_of set_entry
entry-set_other w key [] h = rw h refl
entry-set_other w key (v ∷ t) h = elim (Bool-cases (str_eq v.key w.key)) [
  | inl hit ↦
      let far : str_eq v.key key ≡ false =
        ground (arith, str_eq_iff v.key w.key, str_eq_iff v.key key, str_eq_iff w.key key) in
      rw (hit, h) (rw far refl)
  | inr miss ↦ elim (Bool-cases (str_eq v.key key)) [
    | inl found ↦ rw (miss, found) refl
    | inr far ↦ rw (miss, far) (entry-set_other w key t h)
  ]
]

entry-key : (key : String) (t : List Visitor) (v : Visitor) → entry_of key t ≡ some v → v.key ≡ key
unfolding entry_of
entry-key key [] v e = cc
entry-key key (w ∷ t) v e = elim (Bool-cases (str_eq w.key key)) [
  | inl hit ↦
      let same : w ≡ v = ground (arith, e) in
      subst (λ x. x.key ≡ key) same ((str_eq_iff w.key key).0 hit)
  | inr miss ↦ entry-key key t v (rw miss at e)
]

current-key :
    (key : String) (day : ℕ) (t : List Visitor) → (current key day (entry_of key t)).key ≡ key
unfolding current
current-key key day t = elim (Option-cases (entry_of key t)) [
  | inl e ↦ rw e refl
  | inr (v, e) ↦ elim (Bool-cases (v.day == day)) [
    | inl now ↦ rw (e, now) (entry-key key t v e)
    | inr old ↦ rw (e, old) refl
  ]
]

current-day : (key : String) (day : ℕ) (o : Option Visitor) → (current key day o).day ≡ day
unfolding current
current-day key day none = refl
current-day key day (some v) = elim (Bool-cases (v.day == day)) [
  | inl now ↦ rw now ((==_iff v.day day).0 now)
  | inr old ↦ rw old refl
]

current-again : (key : String) (day : ℕ) (e : Visitor) → e.day ≡ day → current key day (some e) ≡ e
unfolding current
current-again key day e h = rw ((==_iff e.day day).1 h) refl

one_more-asked :
    (hosted : Bool) (e : Visitor) → asked hosted (one_more hosted e) ≡ asked hosted e + 1
unfolding asked one_more
one_more-asked true e = refl
one_more-asked false e = refl

one_more-other :
    (hosted : Bool) (e : Visitor) → asked (not hosted) (one_more hosted e) ≡ asked (not hosted) e
unfolding asked one_more
one_more-other true e = refl
one_more-other false e = refl

one_more-day : (hosted : Bool) (e : Visitor) → (one_more hosted e).day ≡ e.day
unfolding one_more
one_more-day true e = refl
one_more-day false e = refl

one_more-key : (hosted : Bool) (e : Visitor) → (one_more hosted e).key ≡ e.key
unfolding one_more
one_more-key true e = refl
one_more-key false e = refl

-- A map has one entry for a key.
abbrev pub Unique : List Visitor → Type 0
Unique [] = Unit
Unique (v ∷ t) = (entry_of v.key t ≡ none) × Unique t

entry-of_today :
    (key : String) (day : ℕ) (t : List Visitor)
    → entry_of key t ≡ none
    → entry_of key (of_today day t) ≡ none
unfolding entry_of of_today
entry-of_today key day [] e = refl
entry-of_today key day (v ∷ t) e = elim (Bool-cases (str_eq v.key key)) [
  | inl hit ↦ absurd (ground (arith, e))
  | inr miss ↦ elim (Bool-cases (v.day == day)) [
    | inl now ↦ rw (now, miss) (entry-of_today key day t (rw miss at e))
    | inr old ↦ rw old (entry-of_today key day t (rw miss at e))
  ]
]

-- The sweep of other days forgets nothing of this one.
current-of_today :
    (key : String) (day : ℕ) (t : List Visitor)
    → Unique t
    → current key day (entry_of key (of_today day t)) ≡ current key day (entry_of key t)
unfolding entry_of of_today current
current-of_today key day [] u = refl
current-of_today key day (v ∷ t) u = elim (Bool-cases (v.day == day)) [
  | inl now ↦ elim (Bool-cases (str_eq v.key key)) [
    | inl hit ↦ rw (now, hit, now) refl
    | inr miss ↦ rw (now, miss) (current-of_today key day t u.1)
  ]
  | inr old ↦ elim (Bool-cases (str_eq v.key key)) [
    | inl hit ↦
        let gone : entry_of key (of_today day t) ≡ none =
          entry-of_today key day t
            (subst (λ k. entry_of k t ≡ none) ((str_eq_iff v.key key).0 hit) u.0) in
        rw (old, hit, old) (rw (gone, current) refl)
    | inr miss ↦ rw (old, miss) (current-of_today key day t u.1)
  ]
]

count-swept :
    (key : String) (day : ℕ) (hosted : Bool) (now : ℕ) (v : Visitors)
    → Unique v.seen
    → count_of key day hosted (swept now day v) ≡ count_of key day hosted v
unfolding count_of swept
count-swept key day hosted now v u = elim (Bool-cases (ltb sweep_interval (now - v.last_sweep))) [
  | inl due ↦ rw due (ap (asked hosted) (current-of_today key day v.seen u))
  | inr early ↦ rw early refl
]

-- What `allow` does: it grants a question below the visitor's daily limit and counts it, on the path
-- asked for alone; or it declines and counts nothing. Nobody else's count changes.
pub data Allows (key : String) (day : ℕ) (hosted : Bool) (l : Limits) (v : Visitors)
    (r : Allowance × Visitors) : Type 0 where
  grants :
      r.0 ≡ granted (daily hosted l - count_of key day hosted r.1)
      → count_of key day hosted v < daily hosted l
      → count_of key day hosted r.1 ≡ count_of key day hosted v + 1
      → count_of key day (not hosted) r.1 ≡ count_of key day (not hosted) v
      → ((other : String) (path : Bool)
          → str_eq key other ≡ false
          → count_of other day path r.1 ≡ count_of other day path v)
      → Allows key day hosted l v r
  declines :
      ((left : ℕ) → r.0 ≢ granted left)
      → ((other : String) (path : Bool) → count_of other day path r.1 ≡ count_of other day path v)
      → Allows key day hosted l v r

module _ (key : String) (day : ℕ) (hosted : Bool) (l : Limits) (bucket : Bool) (v : Visitors) where
  -- The entry of the key, written back or with one more.
  count-set :
      (e : Visitor) (path : Bool) (last : ℕ)
      → e.key ≡ key
      → e.day ≡ day
      → count_of key day path (record { seen = set_entry e v.seen; last_sweep = last })
        ≡ asked path e
  unfolding count_of
  count-set e path last k d =
      let here : entry_of key (set_entry e v.seen) ≡ some e =
        subst (λ i. entry_of i (set_entry e v.seen) ≡ some e) k (entry-set e v.seen) in
      ap (λ o. asked path (current key day o)) here ∙ ap (asked path) (current-again key day e d)

  count-far :
      (e : Visitor) (other : String) (path : Bool) (last : ℕ)
      → e.key ≡ key
      → str_eq key other ≡ false
      → count_of other day path (record { seen = set_entry e v.seen; last_sweep = last })
        ≡ count_of other day path v
  unfolding count_of
  count-far e other path last k far =
      ap (λ o. asked path (current other day o))
        (entry-set_other e other v.seen (subst (λ i. str_eq i other ≡ false) (sym k) far))

  same-counts :
      (e : Visitor)
      → e ≡ current key day (entry_of key v.seen)
      → e.key ≡ key
      → e.day ≡ day
      → (other : String) (path : Bool)
      → count_of other day path (record v { seen = set_entry e v.seen }) ≡ count_of other day path v
  unfolding count_of
  same-counts e is k d other path = elim (Bool-cases (str_eq key other)) [
    | inl hit ↦
        subst
          (λ i.
            count_of i day path (record v { seen = set_entry e v.seen }) ≡ count_of i day path v)
          ((str_eq_iff key other).0 hit) (count-set e path v.last_sweep k d ∙ ap (asked path) is)
    | inr far ↦ count-far e other path v.last_sweep k far
  ]

  weighed-Allows :
      (e : Visitor)
      → e ≡ current key day (entry_of key v.seen)
      → e.key ≡ key
      → e.day ≡ day
      → Allows key day hosted l v (weighed l hosted bucket e v)
  unfolding weighed count_of asked
  weighed-Allows e is k d = elim (Bool-cases (leb (daily hosted l) (asked hosted e))) [
    | inl spent ↦ rw spent (declines (λ left same. cc) (same-counts e is k d))
    | inr free ↦ elim (Bool-cases bucket) [
      | inr throttled ↦ rw (free, throttled) (declines (λ left same. cc) (same-counts e is k d))
      | inl flows ↦
          let w = one_more hosted e in
          let wk : w.key ≡ key = one_more-key hosted e ∙ k in
          let wd : w.day ≡ day = one_more-day hosted e ∙ d in
          let before : count_of key day hosted v ≡ asked hosted e = rw (is, count_of) refl in
          let before' : count_of key day (not hosted) v ≡ asked (not hosted) e =
            rw (is, count_of) refl in
          let after : count_of key day hosted (record v { seen = set_entry w v.seen })
              ≡ asked hosted e + 1 =
            count-set w hosted v.last_sweep wk wd ∙ one_more-asked hosted e in
          rw (free, flows)
            (grants (rw after refl) (rw before (ground arith)) (rw before after)
              (count-set w (not hosted) v.last_sweep wk wd ∙ one_more-other hosted e ∙ sym before')
              (λ other path far. count-far w other path v.last_sweep wk far))
    ]
  ]

swept-Allows :
    (key : String) (day : ℕ) (hosted : Bool) (l : Limits) (v v' : Visitors)
    (r : Allowance × Visitors)
    → ((other : String) (path : Bool) → count_of other day path v' ≡ count_of other day path v)
    → Allows key day hosted l v' r
    → Allows key day hosted l v r
swept-Allows key day hosted l v v' r same (grants e below up across others) =
    grants e (subst (λ n. n < daily hosted l) (same key hosted) below)
      (up ∙ ap (λ n. n + 1) (same key hosted)) (across ∙ same key (not hosted))
      (λ other path far. others other path far ∙ same other path)
swept-Allows key day hosted l v v' r same (declines none_left others) =
    declines none_left (λ other path. others other path ∙ same other path)

-- In a map with one entry for a key, `allow` grants a question only to a visitor who has asked fewer than
-- the limit on that day and path, counts it on that path alone, and reports what is left; otherwise it
-- counts nothing. No other visitor's counts of the day change, also when the entries of other days are
-- swept.
pub allow-Allows :
    (key : String) (l : Limits) (hosted : Bool) (now day : ℕ) (bucket : Bool) (v : Visitors)
    → Unique v.seen
    → Allows key day hosted l v (allow key l hosted now day bucket v)
unfolding allow
allow-Allows key l hosted now day bucket v u =
    let v' = swept now day v in
    swept-Allows key day hosted l v v' (allow key l hosted now day bucket v)
      (λ other path. count-swept other day path now v u)
      (weighed-Allows key day hosted l bucket v' (current key day (entry_of key v'.seen)) refl
        (current-key key day v'.seen) (current-day key day (entry_of key v'.seen)))
