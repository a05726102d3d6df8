-- ===== src/Apps/Spec/Valid.antt =====
-- What an accepted spec is.
use home_inference_server.Prelude.{
  ℕ, ◌≤◌, ◌<◌, Bool, true, false, not, Option, none, some, List, [], ◌∷◌, String, str_eq,
  str_eq_iff, ltb, ◌==◌, length, All, ◌≡◌, refl, ◌≢◌, ◌⊎◌, inl, inr, arith, Bool-cases,
  Option-cases, sym, subst,
}
use home_inference_server.Prelude.Int.{pos, ltb_ℤ}
use home_inference_server.Apps.Spec.{
  Spec, apply_defaults, id_matches, Url, UrlParser, is_origin, bad_origin, SpecError,
  unknown_min_tier, unknown_preferred_tier, preferred_below_min, rank, fail_if, ◌or_else◌,
  origin_error, has_negative, preferred_error, tier_error, knowledge_error, validate, accepted,
  judged, decoded_spec, parse_spec,
}
use home_inference_server.Apps.Spec.Defaults.{
  IsBounded, apply_defaults_twice, has_negative-NoneNegative, defaults-IsBounded,
}

abbrev pub IsTier : String → Type 0
IsTier t = (t ≡ "weak") ⊎ ((t ≡ "mid") ⊎ (t ≡ "strong"))

abbrev pub IsOrigin : UrlParser → String → Type 0
IsOrigin parse_url o =
    (u : Url) × (parse_url o ≡ some u)
    × ((u.scheme ≡ "https") ⊎ (u.scheme ≡ "http"))
    × (u.host ≢ "")
    × (u.path ≡ "")

pub record IsValid (parse_url : UrlParser) (s : Spec) : Type 0 where
  pub named : id_matches s.id ≡ true
  pub has_origin : 0 < length s.origins
  pub origins : All (IsOrigin parse_url) s.origins
  pub instructed : s.system_prompt ≢ ""
  pub knowledge :
      s.knowledge_url ≢ "" → (u : Url) × (parse_url s.knowledge_url ≡ some u) × (u.scheme ≡ "https")
  pub grounded : s.require_citations ≡ true → s.knowledge_url ≢ ""
  pub min_tier : IsTier s.min_tier
  pub preferred :
      (s.preferred_tier ≡ "")
      ⊎ (IsTier s.preferred_tier × (rank s.min_tier ≤ rank s.preferred_tier))
  pub patient : ltb_ℤ s.limits.wait_seconds (pos 10) ≡ false

or_else-none : (a b : Option SpecError) → (a or_else b) ≡ none → (a ≡ none) × (b ≡ none)
or_else-none none b h = (refl, h)
or_else-none (some e) b h = absurd (cc)

fail_if-none : (b : Bool) (e : SpecError) → fail_if b e ≡ none → b ≡ false
fail_if-none true e h = absurd (cc)
fail_if-none false e h = refl

origin_error-none : (o : Option String) → origin_error o ≡ none → o ≡ none
origin_error-none none h = refl
origin_error-none (some o) h = absurd (cc)

rank-IsTier : (t : String) → (rank t == 0) ≡ false → IsTier t
unfolding rank
rank-IsTier t h = elim (Bool-cases (str_eq t "weak")) [
  | inl weak ↦ inl ((str_eq_iff t "weak").0 weak)
  | inr not_weak ↦ elim (Bool-cases (str_eq t "mid")) [
    | inl mid ↦ inr (inl ((str_eq_iff t "mid").0 mid))
    | inr not_mid ↦ elim (Bool-cases (str_eq t "strong")) [
      | inl strong ↦ inr (inr ((str_eq_iff t "strong").0 strong))
      | inr other ↦ absurd (ground arith)
    ]
  ]
]

origin_parts :
    (u : Url)
    → is_origin (some u) ≡ true
    → ((u.scheme ≡ "https") ⊎ (u.scheme ≡ "http")) × (u.host ≢ "") × (u.path ≡ "")
unfolding is_origin
origin_parts u h =
    (scheme, λ e. ground (arith, str_eq_iff u.host ""), ground (arith, str_eq_iff u.path ""))
  where
    scheme : (u.scheme ≡ "https") ⊎ (u.scheme ≡ "http")
    scheme = elim (Bool-cases (str_eq u.scheme "https")) [
      | inl secure ↦ inl ((str_eq_iff u.scheme "https").0 secure)
      | inr plain ↦ inr ((str_eq_iff u.scheme "http").0 (ground arith))
    ]

is_origin-IsOrigin :
    (parse_url : UrlParser) (o : String) → is_origin (parse_url o) ≡ true → IsOrigin parse_url o
unfolding is_origin
is_origin-IsOrigin parse_url o h = elim (Option-cases (parse_url o)) [
  | inl e ↦ absurd (ground arith)
  | inr (u, e) ↦ let (scheme, host, path) = origin_parts u (rw e at h) in (u, e, scheme, host, path)
]

bad_origin-All :
    (parse_url : UrlParser) (os : List String)
    → bad_origin parse_url os ≡ none
    → All (IsOrigin parse_url) os
unfolding bad_origin
bad_origin-All parse_url [] h = tt
bad_origin-All parse_url (o ∷ rest) h = elim (Bool-cases (is_origin (parse_url o))) [
  | inl good ↦ (is_origin-IsOrigin parse_url o good, bad_origin-All parse_url rest (rw good at h))
  | inr bad ↦ absurd (ground arith)
]

-- The checks of `Validate`, one by one.
record Passed (parse_url : UrlParser) (s : Spec) : Type 0 where
  named : not (id_matches s.id) ≡ false
  listed : (length s.origins == 0) ≡ false
  origins : bad_origin parse_url s.origins ≡ none
  instructed : str_eq s.system_prompt "" ≡ false
  knowledge : knowledge_error parse_url s ≡ none
  tiers : tier_error s ≡ none
  limits : has_negative s ≡ false
  wait : ltb_ℤ s.limits.wait_seconds (pos 10) ≡ false

validate-Passed :
    (parse_url : UrlParser) (s : Spec) → validate parse_url s ≡ none → Passed parse_url s
unfolding validate
validate-Passed parse_url s h =
    let (h7, wait) = or_else-none _ _ h in
    let (h6, limits) = or_else-none _ _ h7 in
    let (h5, tiers) = or_else-none _ _ h6 in
    let (h4, knowledge) = or_else-none _ _ h5 in
    let (h3, prompt) = or_else-none _ _ h4 in
    let (h2, origins) = or_else-none _ _ h3 in
    let (id, listed) = or_else-none _ _ h2 in
    record {
      named = fail_if-none _ _ id;
      listed = fail_if-none _ _ listed;
      origins = origin_error-none _ origins;
      instructed = fail_if-none _ _ prompt;
      knowledge = knowledge;
      tiers = tiers;
      limits = fail_if-none _ _ limits;
      wait = fail_if-none _ _ wait;
    }

knowledge-https :
    (parse_url : UrlParser) (s : Spec)
    → knowledge_error parse_url s ≡ none
    → s.knowledge_url ≢ ""
    → (u : Url) × (parse_url s.knowledge_url ≡ some u) × (u.scheme ≡ "https")
unfolding knowledge_error
knowledge-https parse_url s h given = elim (Option-cases (parse_url s.knowledge_url)) [
  | inl e ↦ absurd (ground (arith, str_eq_iff s.knowledge_url ""))
  | inr (u, e) ↦ (u, e, ground (arith, str_eq_iff s.knowledge_url "", str_eq_iff u.scheme "https"))
]

citations-grounded :
    (parse_url : UrlParser) (s : Spec)
    → knowledge_error parse_url s ≡ none
    → s.require_citations ≡ true
    → s.knowledge_url ≢ ""
unfolding knowledge_error
citations-grounded parse_url s h required e = ground (arith, str_eq_iff s.knowledge_url "")

tier_error-min : (s : Spec) → tier_error s ≡ none → IsTier s.min_tier
unfolding tier_error
tier_error-min s h =
    rank-IsTier s.min_tier (fail_if-none _ unknown_min_tier ((or_else-none _ _ h).0))

preferred_error-above :
    (s : Spec)
    → preferred_error s ≡ none
    → (s.preferred_tier ≡ "")
      ⊎ (IsTier s.preferred_tier × (rank s.min_tier ≤ rank s.preferred_tier))
unfolding preferred_error
preferred_error-above s h = elim (Bool-cases (str_eq s.preferred_tier "")) [
  | inl free ↦ inl ((str_eq_iff s.preferred_tier "").0 free)
  | inr pinned ↦
      let (known, above) = or_else-none _ _ (rw pinned at h) in
      inr (
        rank-IsTier s.preferred_tier (fail_if-none _ unknown_preferred_tier known),
        not_below _ _ (fail_if-none _ preferred_below_min above),
      )
]
  where
    not_below : (a b : ℕ) → ltb a b ≡ false → b ≤ a
    not_below a b k = ground arith

tier_error-preferred : (s : Spec) → tier_error s ≡ none → preferred_error s ≡ none
unfolding tier_error
tier_error-preferred s h = (or_else-none _ _ h).1

Passed-IsValid : (parse_url : UrlParser) (s : Spec) → Passed parse_url s → IsValid parse_url s
Passed-IsValid parse_url s p = record {
  named = ground arith;
  has_origin = ground arith;
  origins = bad_origin-All parse_url s.origins p.origins;
  instructed = λ e. ground (arith, str_eq_iff s.system_prompt "");
  knowledge = knowledge-https parse_url s p.knowledge;
  grounded = citations-grounded parse_url s p.knowledge;
  min_tier = tier_error-min s p.tiers;
  preferred = preferred_error-above s (tier_error-preferred s p.tiers);
  patient = p.wait;
}

judged-accepted :
    (t s : Spec) (e : Option SpecError) → judged t e ≡ accepted s → (t ≡ s) × (e ≡ none)
unfolding judged
judged-accepted t s none h = (cc, refl)
judged-accepted t s (some e) h = absurd (cc)

accepted-defaults :
    (parse_url : UrlParser) (o : Option Spec) (s : Spec)
    → decoded_spec parse_url o ≡ accepted s
    → (raw : Spec) × (apply_defaults raw ≡ s) × (validate parse_url s ≡ none)
unfolding decoded_spec
accepted-defaults parse_url none s h = absurd (cc)
accepted-defaults parse_url (some raw) s h =
    let (same, passes) = judged-accepted (apply_defaults raw) s _ h in
    (raw, same, rw (sym same) passes)

-- An accepted spec is one that the relay can enforce: its id is of the form, it names origins with a
-- scheme and a host and no path, instructs the model, takes knowledge only over https and asks for
-- citations only with knowledge, knows its tiers, the preferred one not below the minimum, waits for at
-- least ten seconds, and has every limit above zero. It is in the form with the defaults filled in, so
-- that it is accepted unchanged when it is read again.
pub parse_spec-IsValid :
    (parse_url : UrlParser) (decode : String → Option Spec) (text again : String) (s : Spec)
    → parse_spec parse_url decode text ≡ accepted s
    → decode again ≡ some s
    → IsValid parse_url s × IsBounded s × (parse_spec parse_url decode again ≡ accepted s)
unfolding parse_spec
parse_spec-IsValid parse_url decode text again s h e =
    let (raw, same, passes) = accepted-defaults parse_url (decode text) s h in
    let p = validate-Passed parse_url s passes in
    let fixed : apply_defaults s ≡ s = rw (sym same) (apply_defaults_twice raw) in
    (
      Passed-IsValid parse_url s p,
      subst IsBounded same (
          defaults-IsBounded raw (
            has_negative-NoneNegative (apply_defaults raw)
              (subst (λ (t : Spec). has_negative t ≡ false) (sym same) p.limits))),
      rw (e, decoded_spec, fixed, passes) refl,
    )
