-- ===== src/Apps/Spec/Defaults.antt =====
-- The defaults of a spec: filled in once, and with no limit negative they leave every limit positive.
use home_inference_server.Prelude.{
  zero, suc, Bool, true, false, ◌||◌, String, str_eq, if◌then◌else◌, ◌≡◌, refl, inl, inr, arith,
  Bool-cases,
}
use home_inference_server.Prelude.Int.{ℤ, pos, negsuc, ltb_ℤ, eqb_ℤ}
use home_inference_server.Apps.Spec.{
  Limits, Spec, set_int, set_text, default_limits, default_refusal, apply_defaults, is_negative,
  has_negative,
}

abbrev pub IsPositive : ℤ → Type 0
IsPositive z = ltb_ℤ (pos 0) z ≡ true

-- Every limit of an accepted spec allows something.
pub record IsBounded (s : Spec) : Type 0 where
  pub output : IsPositive s.max_output_tokens
  pub input : IsPositive s.limits.max_input_chars
  pub history : IsPositive s.limits.max_history × IsPositive s.limits.max_history_chars
  pub visitor_rate : IsPositive s.limits.visitor_per_min × IsPositive s.limits.visitor_burst
  pub visitor_day : IsPositive s.limits.visitor_per_day × IsPositive s.limits.hosted_visitor_per_day
  pub app : IsPositive s.limits.per_min × IsPositive s.limits.per_day
  pub at_once : IsPositive s.limits.max_concurrent

set_int_twice : (p d e : ℤ) → eqb_ℤ d (pos 0) ≡ false → set_int (set_int p d) e ≡ set_int p d
unfolding set_int
set_int_twice p d e h = ground arith

-- What is not negative is positive once the default has been filled in.
set_int-IsPositive :
    (p d : ℤ) → IsPositive d → is_negative (set_int p d) ≡ false → IsPositive (set_int p d)
unfolding set_int
set_int-IsPositive (pos zero) d h k = h
set_int-IsPositive (pos (suc n)) d h k = ground arith
set_int-IsPositive (negsuc n) d h k = absurd (ground arith)

set_int-nonzero : (p d : ℤ) → eqb_ℤ d (pos 0) ≡ false → eqb_ℤ (set_int p d) (pos 0) ≡ false
unfolding set_int
set_int-nonzero p d h = ground arith

-- The defaults filled in twice are those filled in once.
default_limits_twice : (l : Limits) → default_limits (default_limits l) ≡ default_limits l
unfolding default_limits
default_limits_twice l = λ i. record {
  max_input_chars = set_int_twice l.max_input_chars (pos 400) (pos 400) refl i;
  max_history = set_int_twice l.max_history (pos 3) (pos 3) refl i;
  max_history_chars = set_int_twice l.max_history_chars (pos 200) (pos 200) refl i;
  visitor_per_min = set_int_twice l.visitor_per_min (pos 5_000) (pos 5_000) refl i;
  visitor_burst = set_int_twice l.visitor_burst (pos 3) (pos 3) refl i;
  visitor_per_day = set_int_twice l.visitor_per_day (pos 30) (pos 30) refl i;
  hosted_visitor_per_day =
      set_int_twice l.hosted_visitor_per_day (set_int l.visitor_per_day (pos 30))
        (set_int (set_int l.visitor_per_day (pos 30)) (pos 30))
        (set_int-nonzero l.visitor_per_day (pos 30) refl) i;
  per_min = set_int_twice l.per_min (pos 20_000) (pos 20_000) refl i;
  per_day = set_int_twice l.per_day (pos 300) (pos 300) refl i;
  max_concurrent = set_int_twice l.max_concurrent (pos 2) (pos 2) refl i;
  wait_seconds = set_int_twice l.wait_seconds (pos 35) (pos 35) refl i;
}

set_text_twice : (p d : String) → set_text (set_text p d) d ≡ set_text p d
set_text_twice p d = elim (Bool-cases (str_eq p "")) [
  | inl blank ↦ simp blank (settled d)
  | inr given ↦ simp (given, given)
]
  where
    settled : (e : String) → (if str_eq e "" then e else e) ≡ e
    settled e = ground arith

refusal_twice :
    (s : Spec)
    → (if str_eq s.knowledge_url ""
        then (if str_eq s.knowledge_url "" then s.refusal else set_text s.refusal default_refusal)
        else set_text
            (if str_eq s.knowledge_url "" then s.refusal else set_text s.refusal default_refusal)
            default_refusal)
      ≡ (if str_eq s.knowledge_url "" then s.refusal else set_text s.refusal default_refusal)
refusal_twice s = elim (Bool-cases (str_eq s.knowledge_url "")) [
  | inl blank ↦ simp blank
  | inr given ↦ simp given (set_text_twice s.refusal default_refusal)
]

pub apply_defaults_twice : (s : Spec) → apply_defaults (apply_defaults s) ≡ apply_defaults s
unfolding apply_defaults
apply_defaults_twice s = λ i. record s {
  min_tier = set_text_twice s.min_tier "mid" i;
  max_output_tokens = set_int_twice s.max_output_tokens (pos 400) (pos 400) refl i;
  refusal = refusal_twice s i;
  limits = default_limits_twice s.limits i;
}

or_false : (a b : Bool) → (a || b) ≡ false → (a ≡ false) × (b ≡ false)
or_false true b h = absurd (cc)
or_false false b h = (refl, h)

pub record NoneNegative (s : Spec) : Type 0 where
  output : is_negative s.max_output_tokens ≡ false
  input : is_negative s.limits.max_input_chars ≡ false
  history : is_negative s.limits.max_history ≡ false
  chars : is_negative s.limits.max_history_chars ≡ false
  rate : is_negative s.limits.visitor_per_min ≡ false
  burst : is_negative s.limits.visitor_burst ≡ false
  daily : is_negative s.limits.visitor_per_day ≡ false
  hosted : is_negative s.limits.hosted_visitor_per_day ≡ false
  app_rate : is_negative s.limits.per_min ≡ false
  app_daily : is_negative s.limits.per_day ≡ false
  at_once : is_negative s.limits.max_concurrent ≡ false

pub has_negative-NoneNegative : (s : Spec) → has_negative s ≡ false → NoneNegative s
unfolding has_negative
has_negative-NoneNegative s h =
    let (h1, wait) = or_false _ _ h in
    let (h2, at_once) = or_false _ _ h1 in
    let (h3, app_daily) = or_false _ _ h2 in
    let (h4, app_rate) = or_false _ _ h3 in
    let (h5, hosted) = or_false _ _ h4 in
    let (h6, daily) = or_false _ _ h5 in
    let (h7, burst) = or_false _ _ h6 in
    let (h8, rate) = or_false _ _ h7 in
    let (h9, chars) = or_false _ _ h8 in
    let (h10, history) = or_false _ _ h9 in
    let (output, input) = or_false _ _ h10 in
    record {
      output = output;
      input = input;
      history = history;
      chars = chars;
      rate = rate;
      burst = burst;
      daily = daily;
      hosted = hosted;
      app_rate = app_rate;
      app_daily = app_daily;
      at_once = at_once;
    }

pub defaults-IsBounded : (s : Spec) → NoneNegative (apply_defaults s) → IsBounded (apply_defaults s)
unfolding apply_defaults
defaults-IsBounded s n =
    let l = s.limits in
    let filled = set_int-IsPositive in
    let visitor_daily = filled l.visitor_per_day (pos 30) refl n.daily in
    record {
      output = filled s.max_output_tokens (pos 400) refl n.output;
      input = filled l.max_input_chars (pos 400) refl n.input;
      history = (
        filled l.max_history (pos 3) refl n.history,
        filled l.max_history_chars (pos 200) refl n.chars,
      );
      visitor_rate = (
        filled l.visitor_per_min (pos 5_000) refl n.rate,
        filled l.visitor_burst (pos 3) refl n.burst,
      );
      visitor_day = (
        visitor_daily,
        filled l.hosted_visitor_per_day (set_int l.visitor_per_day (pos 30)) visitor_daily n.hosted,
      );
      app = (
        filled l.per_min (pos 20_000) refl n.app_rate,
        filled l.per_day (pos 300) refl n.app_daily,
      );
      at_once = filled l.max_concurrent (pos 2) refl n.at_once;
    }
