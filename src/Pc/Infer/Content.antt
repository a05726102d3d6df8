-- ===== src/Pc/Infer/Content.antt =====
-- What the translation keeps of a request: its content, and a time to run.
use Prim.Native.String.{◌++◌ as append}
use Prim.Native.String.append
use home_inference_server.Prelude.{
  ℕ, ◌*◌, ◌≤◌, true, false, ◌&&◌, not, Option, none, some, List, [], ◌∷◌, String, str_eq_iff, ◌≡◌,
  refl, ◌≢◌, ◌⊎◌, inl, inr, arith, Bool-cases,
}
use home_inference_server.Prelude.Int.{ℤ, pos, ltb_ℤ, leb_ℤ, mul64-pos}
use home_inference_server.Pc.Api.{ChatMessage, TextInput, Message}
use home_inference_server.Pc.Infer.{
  is_empty, is_blank, has_system, copy_messages, translate_messages, text_parts, milliseconds,
  deadline,
}
use home_inference_server.Pc.Infer.Accepts.{Speaks, HasTurns, IsGiven}

append-ne-empty : (s t : String) → s ≢ "" → append s t ≢ ""
append-ne-empty String.[] t h e = h refl
append-ne-empty (String.◌∷◌ c s) t h e = absurd (cc (append.cons c s t))

copy-turns :
    (msgs : List ChatMessage) → is_empty msgs ≡ false → is_empty (copy_messages msgs) ≡ false
unfolding copy_messages
copy-turns [] h = h
copy-turns (m ∷ rest) h = refl

translate-turns :
    (msgs : List ChatMessage) (system_prompt : String)
    → is_empty msgs ≡ false
    → is_empty (translate_messages msgs system_prompt) ≡ false
unfolding translate_messages
translate-turns msgs system_prompt h =
    elim (Bool-cases (not (is_blank system_prompt) && not (has_system msgs))) [
      | inl adds ↦ rw adds refl
      | inr plain ↦ rw plain (copy-turns msgs h)
    ]

abbrev pub HasContent : String → List Message → Type 0
HasContent prompt messages = IsGiven prompt ⊎ (is_empty messages ≡ false)

-- A text input that says something still does when it is translated.
pub text_parts-Speaks :
    (t : Option TextInput) (system_prompt : String)
    → Speaks t
    → HasContent (text_parts t system_prompt).0 (text_parts t system_prompt).1
unfolding text_parts
text_parts-Speaks none system_prompt h = absurd h
text_parts-Speaks (some t) system_prompt h = elim (Bool-cases (is_empty t.messages)) [
  | inr turns ↦ rw turns (inr (translate-turns t.messages system_prompt turns))
  | inl none_of ↦
      let given : IsGiven t.prompt = given_of h none_of in
      elim (Bool-cases (is_blank t.prompt)) [
        | inl blank ↦ absurd (given ((str_eq_iff t.prompt "").0 blank))
        | inr prompted ↦ elim (Bool-cases (is_blank system_prompt)) [
          | inl bare ↦ rw (none_of, prompted, bare) (inl given)
          | inr framed ↦
              rw (none_of, prompted, framed)
                (inl (
                  append-ne-empty system_prompt _
                    (λ e. ground (arith, str_eq_iff system_prompt ""))))
        ]
      ]
]
  where
    given_of : Speaks (some t) → is_empty t.messages ≡ true → IsGiven t.prompt
    given_of (inl given) none_of = given
    given_of (inr turns) none_of = absurd (cc)

pub text_parts-turns :
    (t : Option TextInput) (system_prompt : String)
    → HasTurns t
    → is_empty (text_parts t system_prompt).1 ≡ false
unfolding text_parts
text_parts-turns none system_prompt h = absurd h
text_parts-turns (some t) system_prompt h = rw h (translate-turns t.messages system_prompt h)

-- Up to 9223372036854 ms, some 292 years, the product does not wrap.
pub milliseconds-pos :
    (ms : ℕ) → ms ≤ 9_223_372_036_854 → milliseconds (pos ms) ≡ pos (ms * 1_000_000)
unfolding milliseconds
milliseconds-pos ms h = mul64-pos ms 1_000_000 (omega arith)

pub deadline-positive :
    (infer_timeout ms : ℤ)
    → ltb_ℤ (pos 0) infer_timeout ≡ true
    → ltb_ℤ (pos 0) (deadline infer_timeout ms) ≡ true
unfolding deadline
deadline-positive infer_timeout ms h = elim (Bool-cases (leb_ℤ (milliseconds ms) (pos 0))) [
  | inl small ↦ rw small h
  | inr big ↦ rw big (ground arith)
]
