-- ===== src/Llama/Context.antt =====
-- The tokens that a chat may generate.
use home_inference_server.Prelude.{
  ℕ, ◌+◌, ◌*◌, ◌/◌, ◌<◌, false, some, ◌==◌, length, ◌≡◌, refl, ap, arith,
}
use home_inference_server.Prelude.Int.{pos, ltb_ℤ}
use home_inference_server.Pc.Api.{Request}
use home_inference_server.Llama.{counted, within_context, resolve_chat_max_tokens}

counted-fits :
    (m n t : ℕ)
    → t + 8 * m + n * 10 / 100 < n
    → counted m n (some t) + (t + 8 * m) + n * 10 / 100 ≡ n
unfolding counted
counted-fits m n t h = ground arith

within-counted :
    (m n t : ℕ)
    → t + 8 * m + n * 10 / 100 < n
    → within_context m (some n) (some t) ≡ counted m n (some t)
unfolding within_context
within-counted m n t h = rw (ne_zero n (omega (arith, h))) refl
  where
    ne_zero : (a : ℕ) → 0 < a → (a == 0) ≡ false
    ne_zero a k = ground arith

-- Where the prompt and the margin of a tenth leave room in the context, a chat without a limit of its own
-- may take all of the rest.
resolve_chat_max_tokens-fits :
    (req : Request) (n t : ℕ)
    → ltb_ℤ (pos 0) req.max_tokens ≡ false
    → t + 8 * length req.messages + n * 10 / 100 < n
    → (k : ℕ) × (resolve_chat_max_tokens req (some n) (some t) ≡ pos k)
      × (k + (t + 8 * length req.messages) + n * 10 / 100 ≡ n)
unfolding resolve_chat_max_tokens
resolve_chat_max_tokens-fits req n t own h = (
  counted (length req.messages) n (some t),
  rw own (ap pos (within-counted (length req.messages) n t h)),
  counted-fits (length req.messages) n t h,
)
