-- ===== src/Pc/Infer/Accepts.antt =====
-- `handleInfer` and what a request must be to run: the checks against a description of the requests
-- that the API documents.
use home_inference_server.Prelude.{
  ℕ, Bool, true, false, ◌&&◌, not, Option, none, some, List, [], ◌∷◌, String, str_eq, str_eq_iff,
  ◌≡◌, refl, ◌≢◌, ◌⊎◌, inl, inr, arith, Bool-cases, ◌↔◌,
}
use home_inference_server.Pc.Api.{TextInput, VisionInput, InferRequest}
use home_inference_server.Pc.Infer.{
  Checked, passed, refused, ◌>>◌, refuse_if, is_empty, is_blank, check_text, check_vision,
  check_modality, check_reasoning, can_call_tools, has_messages, check_tools, check_request,
}

abbrev pub IsGiven : String → Type 0
IsGiven s = s ≢ ""

abbrev pub Speaks : Option TextInput → Type 0
Speaks none = ⊥
Speaks (some t) = IsGiven t.prompt ⊎ (is_empty t.messages ≡ false)

abbrev pub Shows : Option VisionInput → Type 0
Shows none = ⊥
Shows (some v) = IsGiven v.prompt × IsGiven v.image_base64

abbrev pub HasTurns : Option TextInput → Type 0
HasTurns none = ⊥
HasTurns (some t) = is_empty t.messages ≡ false

abbrev pub IsToolTier : String → Type 0
IsToolTier tier = (tier ≡ "mid") ⊎ (tier ≡ "strong")

pub record Acceptable (req : InferRequest) : Type 0 where
  pub input :
      ((req.modality ≡ "text") × Speaks req.text_input)
      ⊎ ((req.modality ≡ "vision") × Shows req.vision_input)
  pub thinking : (req.reasoning ≡ "") ⊎ ((req.reasoning ≡ "off") ⊎ (req.reasoning ≡ "on"))
  pub offers :
      (req.tools ≡ [])
      ⊎ ((req.modality ≡ "text")
          × (IsToolTier req.min_tier ⊎ IsToolTier req.preferred_tier)
          × HasTurns req.text_input)

>>-passed : (c k : Checked) → (c >> k) ≡ passed → (c ≡ passed) × (k ≡ passed)
>>-passed passed k h = (refl, h)
>>-passed (refused s c m) k h = absurd (cc)

refuse_if-passed : (b : Bool) (s : ℕ) (c m : String) → refuse_if b s c m ≡ passed → b ≡ false
refuse_if-passed true s c m h = absurd (cc)
refuse_if-passed false s c m h = refl

str_eq-false : (s t : String) → str_eq s t ≡ false → s ≢ t
str_eq-false s t h e = absurd (ground (arith, str_eq_iff s t))

str_eq-same : {s t : String} → s ≡ t → str_eq s t ≡ true
str_eq-same {s} {t} e = (str_eq_iff s t).1 e

-- Each check passes just what it should.
check_text-Speaks : (t : Option TextInput) → check_text t ≡ passed → Speaks t
unfolding check_text
check_text-Speaks none h = absurd (cc)
check_text-Speaks (some t) h = elim (Bool-cases (is_blank t.prompt)) [
  | inl blank ↦ inr (rw blank at (refuse_if-passed _ _ _ _ h))
  | inr given ↦ inl (str_eq-false t.prompt "" given)
]

Speaks-passed : (t : Option TextInput) → Speaks t → check_text t ≡ passed
unfolding check_text
Speaks-passed none h = absurd h
Speaks-passed (some t) (inl given) = ground (arith, str_eq_iff t.prompt "")
Speaks-passed (some t) (inr turns) = ground (arith, str_eq_iff t.prompt "")

check_vision-Shows : (v : Option VisionInput) → check_vision v ≡ passed → Shows v
unfolding check_vision
check_vision-Shows none h = absurd (cc)
check_vision-Shows (some v) h =
    (λ e. ground (arith, str_eq_iff v.prompt ""), λ e. ground (arith, str_eq_iff v.image_base64 ""))

Shows-passed : (v : Option VisionInput) → Shows v → check_vision v ≡ passed
unfolding check_vision
Shows-passed none h = absurd h
Shows-passed (some v) (p, b) = ground (arith, str_eq_iff v.prompt "", str_eq_iff v.image_base64 "")

abbrev pub Input : InferRequest → Type 0
Input req =
    ((req.modality ≡ "text") × Speaks req.text_input)
    ⊎ ((req.modality ≡ "vision") × Shows req.vision_input)

check_modality-Input : (req : InferRequest) → check_modality req ≡ passed → Input req
unfolding check_modality
check_modality-Input req h = elim (Bool-cases (str_eq req.modality "text")) [
  | inl text ↦
      inl ((str_eq_iff req.modality "text").0 text, check_text-Speaks req.text_input (rw text at h))
  | inr other ↦ elim (Bool-cases (str_eq req.modality "vision")) [
    | inl vision ↦ inr (
      (str_eq_iff req.modality "vision").0 vision,
      check_vision-Shows req.vision_input (rw (other, vision) at h),
    )
    | inr none_of ↦ absurd (ground arith)
  ]
]

text-ne-vision : (s : String) → s ≡ "vision" → str_eq s "text" ≡ false
text-ne-vision s e = rw e

Input-passed : (req : InferRequest) → Input req → check_modality req ≡ passed
unfolding check_modality
Input-passed req (inl (text, h)) = rw (str_eq-same text) (Speaks-passed req.text_input h)
Input-passed req (inr (vision, h)) =
    rw (text-ne-vision req.modality vision, str_eq-same vision) (Shows-passed req.vision_input h)

abbrev Thinking : InferRequest → Type 0
Thinking req = (req.reasoning ≡ "") ⊎ ((req.reasoning ≡ "off") ⊎ (req.reasoning ≡ "on"))

check_reasoning-Thinking : (req : InferRequest) → check_reasoning req ≡ passed → Thinking req
unfolding check_reasoning
check_reasoning-Thinking req h = elim (Bool-cases (is_blank req.reasoning)) [
  | inl blank ↦ inl ((str_eq_iff req.reasoning "").0 blank)
  | inr given ↦ elim (Bool-cases (str_eq req.reasoning "off")) [
    | inl off ↦ inr (inl ((str_eq_iff req.reasoning "off").0 off))
    | inr not_off ↦ elim (Bool-cases (str_eq req.reasoning "on")) [
      | inl on ↦ inr (inr ((str_eq_iff req.reasoning "on").0 on))
      | inr not_on ↦ absurd (ground arith)
    ]
  ]
]

Thinking-passed : (req : InferRequest) → Thinking req → check_reasoning req ≡ passed
unfolding check_reasoning
Thinking-passed req h = ground (
  arith,
  str_eq_iff req.reasoning "",
  str_eq_iff req.reasoning "off",
  str_eq_iff req.reasoning "on",
)

can_call_tools-IsToolTier : (tier : String) → can_call_tools tier ≡ true → IsToolTier tier
can_call_tools-IsToolTier tier h = elim (Bool-cases (str_eq tier "mid")) [
  | inl mid ↦ inl ((str_eq_iff tier "mid").0 mid)
  | inr other ↦ inr ((str_eq_iff tier "strong").0 (rw other at h))
]

IsToolTier-can_call : (tier : String) → IsToolTier tier → can_call_tools tier ≡ true
IsToolTier-can_call tier h = ground (arith, str_eq_iff tier "mid", str_eq_iff tier "strong")

has_messages-HasTurns : (t : Option TextInput) → has_messages t ≡ true → HasTurns t
has_messages-HasTurns none h = absurd (cc)
has_messages-HasTurns (some t) h = ground arith

HasTurns-has_messages : (t : Option TextInput) → HasTurns t → has_messages t ≡ true
HasTurns-has_messages none h = absurd h
HasTurns-has_messages (some t) h = rw h

empty-nil {ℓ} : {A : Type ℓ} (xs : List A) → is_empty xs ≡ true → xs ≡ []
empty-nil [] h = refl
empty-nil (x ∷ xs) h = absurd (cc)

abbrev Offers : InferRequest → Type 0
Offers req =
    (req.tools ≡ [])
    ⊎ ((req.modality ≡ "text")
        × (IsToolTier req.min_tier ⊎ IsToolTier req.preferred_tier)
        × HasTurns req.text_input)

-- A tier that can call tools, from the guard's two tests.
tool_tier :
    (a b : String)
    → (not (can_call_tools a) && not (can_call_tools b)) ≡ false
    → IsToolTier a ⊎ IsToolTier b
tool_tier a b h = elim (Bool-cases (can_call_tools a)) [
  | inl yes_a ↦ inl (can_call_tools-IsToolTier a yes_a)
  | inr no_a ↦ inr (can_call_tools-IsToolTier b (ground arith))
]

tier_guard :
    (a b : String)
    → IsToolTier a ⊎ IsToolTier b
    → (not (can_call_tools a) && not (can_call_tools b)) ≡ false
tier_guard a b (inl h) = let e = IsToolTier-can_call a h in ground arith
tier_guard a b (inr h) = let e = IsToolTier-can_call b h in ground arith

-- The three guards on a request with tools.
tool_guards :
    (req : InferRequest)
    → is_empty req.tools ≡ false
    → check_tools req ≡ passed
    → (str_eq req.modality "vision" ≡ false)
      × ((not (can_call_tools req.min_tier) && not (can_call_tools req.preferred_tier)) ≡ false)
      × (not (has_messages req.text_input) ≡ false)
unfolding check_tools
tool_guards req some_tools h =
    let (first_two, third) = >>-passed _ _ (rw some_tools at h) in
    let (first, second) = >>-passed _ _ first_two in
    (
      refuse_if-passed _ _ _ _ first,
      refuse_if-passed _ _ _ _ second,
      refuse_if-passed _ _ _ _ third,
    )

check_tools-Offers : (req : InferRequest) → Input req → check_tools req ≡ passed → Offers req
check_tools-Offers req input h = elim (Bool-cases (is_empty req.tools)) [
  | inl empty ↦ inl (empty-nil req.tools empty)
  | inr some_tools ↦
      let (kind, tiers, turns) = tool_guards req some_tools h in
      inr (
        text_of req input kind,
        tool_tier _ _ tiers,
        has_messages-HasTurns req.text_input (ground arith),
      )
]
  where
    text_of :
        (r : InferRequest) → Input r → str_eq r.modality "vision" ≡ false → r.modality ≡ "text"
    text_of r (inl (text, _)) k = text
    text_of r (inr (vision, _)) k = absurd (str_eq-false r.modality "vision" k vision)

text-not-vision : (s : String) → s ≡ "text" → str_eq s "vision" ≡ false
text-not-vision s e = rw e

Offers-passed : (req : InferRequest) → Offers req → check_tools req ≡ passed
unfolding check_tools
Offers-passed req (inl nothing) = rw nothing
Offers-passed req (inr (text, tiers, turns)) = elim (Bool-cases (is_empty req.tools)) [
  | inl empty ↦ rw empty
  | inr some_tools ↦ rw (
    some_tools,
    text-not-vision req.modality text,
    tier_guard _ _ tiers,
    HasTurns-has_messages req.text_input turns,
  )
]

-- The checks of `handleInfer` pass exactly the acceptable requests.
pub check_request-Acceptable : (req : InferRequest) → (check_request req ≡ passed) ↔ Acceptable req
unfolding check_request
check_request-Acceptable req = (sound, complete)
  where
    sound : (check_modality req >> check_reasoning req >> check_tools req) ≡ passed → Acceptable req
    sound h =
        let (first_two, third) = >>-passed _ _ h in
        let (first, second) = >>-passed _ _ first_two in
        let input = check_modality-Input req first in
        record {
          input = input;
          thinking = check_reasoning-Thinking req second;
          offers = check_tools-Offers req input third;
        }

    complete :
        Acceptable req → (check_modality req >> check_reasoning req >> check_tools req) ≡ passed
    complete a =
        rw (Input-passed req a.input, Thinking-passed req a.thinking) (Offers-passed req a.offers)
