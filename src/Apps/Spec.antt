-- ===== src/Apps/Spec.antt =====
-- internal/apps/spec.go: what an app's spec may be.
--
-- A rate per minute is a float64 in the source and an integer of thousandths here. `url.Parse` and the
-- JSON decoder are arguments.
pub mod Defaults
pub mod Valid
use Prim.Native.Char.{code}
use home_inference_server.Prelude.{
  ℕ, ◌≤◌, Bool, true, false, ◌&&◌, ◌||◌, not, Option, none, some, List, [], ◌∷◌, String, str_eq,
  if◌then◌else◌, ltb, leb, ◌==◌, length,
}
use home_inference_server.Prelude.Int.{ℤ, pos, ltb_ℤ, eqb_ℤ}

pub record Limits : Type 0 where
  pub max_input_chars : ℤ
  pub max_history : ℤ
  pub max_history_chars : ℤ
  pub visitor_per_min : ℤ
  pub visitor_burst : ℤ
  pub visitor_per_day : ℤ
  pub hosted_visitor_per_day : ℤ
  pub per_min : ℤ
  pub per_day : ℤ
  pub max_concurrent : ℤ
  pub wait_seconds : ℤ

pub record Spec : Type 0 where
  pub id : String
  pub origins : List String
  pub system_prompt : String
  pub knowledge_url : String
  pub require_citations : Bool
  pub refusal : String
  pub ignore_terms : List String
  pub min_tier : String
  pub preferred_tier : String
  pub max_output_tokens : ℤ
  pub limits : Limits

abbrev pub default_refusal : String
default_refusal = "I can't answer that from what I know."

-- `setInt`: a value of 0 takes the default.
unfoldable pub set_int : ℤ → ℤ → ℤ
set_int p def = if eqb_ℤ p (pos 0) then def else p

abbrev set_text : String → String → String
set_text p def = if str_eq p "" then def else p

pub default_limits : Limits → Limits
default_limits l = record {
  max_input_chars = set_int l.max_input_chars (pos 400);
  max_history = set_int l.max_history (pos 3);
  max_history_chars = set_int l.max_history_chars (pos 200);
  visitor_per_min = set_int l.visitor_per_min (pos 5_000);
  visitor_burst = set_int l.visitor_burst (pos 3);
  visitor_per_day = set_int l.visitor_per_day (pos 30);
  hosted_visitor_per_day = set_int l.hosted_visitor_per_day (set_int l.visitor_per_day (pos 30));
  per_min = set_int l.per_min (pos 20_000);
  per_day = set_int l.per_day (pos 300);
  max_concurrent = set_int l.max_concurrent (pos 2);
  wait_seconds = set_int l.wait_seconds (pos 35);
}

unfoldable pub apply_defaults : Spec → Spec
unfolding default_limits
apply_defaults s = record s {
  min_tier = set_text s.min_tier "mid";
  max_output_tokens = set_int s.max_output_tokens (pos 400);
  refusal = if str_eq s.knowledge_url "" then s.refusal else set_text s.refusal default_refusal;
  limits = default_limits s.limits;
}

-- `^[a-z0-9][a-z0-9-]{1,39}$`.
abbrev pub codes : String → List ℕ
codes String.[] = []
codes (String.◌∷◌ c s) = code c ∷ codes s

abbrev pub is_alnum : ℕ → Bool
is_alnum c = (leb b'a' c && leb c b'z') || (leb b'0' c && leb c b'9')

pub all_of : (ℕ → Bool) → List ℕ → Bool
all_of p [] = true
all_of p (c ∷ cs) = p c && all_of p cs

pub id_codes : List ℕ → Bool
id_codes [] = false
id_codes (c ∷ cs) =
    is_alnum c
    && all_of (λ d. is_alnum d || d == b'-') cs
    && leb 1 (length cs)
    && leb (length cs) 39

pub id_matches : String → Bool
unfolding all_of id_codes
id_matches id = id_codes (codes id)

-- What `url.Parse` finds, or an error.
pub record Url : Type 0 where
  pub scheme : String
  pub host : String
  pub path : String

abbrev pub UrlParser : Type 0
UrlParser = String → Option Url

pub is_origin : Option Url → Bool
is_origin none = false
is_origin (some u) =
    (str_eq u.scheme "https" || str_eq u.scheme "http")
    && not (str_eq u.host "")
    && str_eq u.path ""

pub is_https : Option Url → Bool
is_https none = false
is_https (some u) = str_eq u.scheme "https"

pub bad_origin : UrlParser → List String → Option String
bad_origin parse_url [] = none
bad_origin parse_url (o ∷ rest) =
    let later = bad_origin parse_url rest in if is_origin (parse_url o) then later else some o

-- The errors of `Validate`, in the order of its checks.
pub data SpecError : Type 0 where
  bad_id no_origins no_system_prompt bad_knowledge_url citations_without_knowledge
        unknown_min_tier :
      SpecError
  unknown_preferred_tier preferred_below_min negative_limit short_wait undecodable : SpecError
  origin_with_path : String → SpecError

-- The map of ranks: 0 is what a missing key gives.
pub rank : String → ℕ
rank tier =
    if str_eq tier "weak"
    then 1
    else if str_eq tier "mid"
    then 2
    else if str_eq tier "strong"
    then 3
    else 0

abbrev fail_if : Bool → SpecError → Option SpecError
fail_if b e = if b then some e else none

infixl 5 ◌or_else◌
abbrev ◌or_else◌ : Option SpecError → Option SpecError → Option SpecError
none or_else k = k
(some e) or_else k = some e

abbrev origin_error : Option String → Option SpecError
origin_error none = none
origin_error (some o) = some (origin_with_path o)

abbrev is_negative : ℤ → Bool
is_negative z = ltb_ℤ z (pos 0)

pub has_negative : Spec → Bool
has_negative s =
    is_negative s.max_output_tokens
    || is_negative s.limits.max_input_chars
    || is_negative s.limits.max_history
    || is_negative s.limits.max_history_chars
    || is_negative s.limits.visitor_per_min
    || is_negative s.limits.visitor_burst
    || is_negative s.limits.visitor_per_day
    || is_negative s.limits.hosted_visitor_per_day
    || is_negative s.limits.per_min
    || is_negative s.limits.per_day
    || is_negative s.limits.max_concurrent
    || is_negative s.limits.wait_seconds

pub preferred_error : Spec → Option SpecError
unfolding rank
preferred_error s =
    if str_eq s.preferred_tier ""
    then none
    else (fail_if (rank s.preferred_tier == 0) unknown_preferred_tier
        or_else fail_if (ltb (rank s.preferred_tier) (rank s.min_tier)) preferred_below_min)

pub tier_error : Spec → Option SpecError
tier_error s = fail_if (rank s.min_tier == 0) unknown_min_tier or_else preferred_error s

pub knowledge_error : UrlParser → Spec → Option SpecError
unfolding is_https
knowledge_error parse_url s =
    fail_if (not (str_eq s.knowledge_url "") && not (is_https (parse_url s.knowledge_url)))
      bad_knowledge_url
    or_else fail_if (s.require_citations && str_eq s.knowledge_url "") citations_without_knowledge

-- `none`: the spec is accepted.
unfoldable pub validate : UrlParser → Spec → Option SpecError
unfolding id_matches bad_origin is_origin preferred_error tier_error knowledge_error has_negative
validate parse_url s =
    fail_if (not (id_matches s.id)) bad_id
    or_else fail_if (length s.origins == 0) no_origins
    or_else origin_error (bad_origin parse_url s.origins)
    or_else fail_if (str_eq s.system_prompt "") no_system_prompt
    or_else knowledge_error parse_url s
    or_else tier_error s
    or_else fail_if (has_negative s) negative_limit
    or_else fail_if (ltb_ℤ s.limits.wait_seconds (pos 10)) short_wait

pub data Parsed : Type 0 where
  accepted : Spec → Parsed
  rejected : SpecError → Parsed

judged : Spec → Option SpecError → Parsed
judged s none = accepted s
judged s (some e) = rejected e

decoded_spec : UrlParser → Option Spec → Parsed
unfolding judged
decoded_spec parse_url none = rejected undecodable
decoded_spec parse_url (some s) = judged (apply_defaults s) (validate parse_url (apply_defaults s))

unfoldable pub parse_spec : UrlParser → (String → Option Spec) → String → Parsed
unfolding decoded_spec
parse_spec parse_url decode text = decoded_spec parse_url (decode text)
