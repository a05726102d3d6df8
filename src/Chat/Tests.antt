-- ===== src/Chat/Tests.antt =====
-- A store that is full.
use home_inference_server.Prelude.{ℕ, true, false, some, [], ◌∷◌, String, ◌≡◌, refl, arith}
use home_inference_server.Chat.Store.{
  ChatMessage, Conversation, Store, get, first_line, derive_title, save,
}
use home_inference_server.Chat.Save.{StoreOk, Fate, created, save-keeps, get-save}

abbrev said : String → ChatMessage
said text = record { role = "user"; content = text }

abbrev conv : String → ℕ → Conversation
conv id t = record {
  id = id;
  title = id;
  messages = said "hello" ∷ [];
  created_at = t;
  updated_at = t;
}

abbrev full : Store
full = record {
  convs = conv "c" 3 ∷ conv "a" 1 ∷ conv "b" 2 ∷ conv "d" 4 ∷ conv "e" 5 ∷ [];
  files = "a" ∷ "b" ∷ "c" ∷ "d" ∷ "e" ∷ [];
}

abbrev fresh : Conversation
fresh = record {
  id = "f";
  title = "";
  messages = said "What is the capital of France?\nsecond line" ∷ [];
  created_at = 0;
  updated_at = 0;
}

abbrev full_ok : StoreOk full
full_ok = record { names = (refl, (refl, (refl, (refl, (refl, tt))))); cap = omega arith }

title_of : derive_title (λ t. t) fresh.messages ≡ "What is the capital of France?"
unfolding derive_title first_line
title_of = refl

save-keeps_example :
    StoreOk (save (λ t. t) 9 true fresh full).1
    × Fate fresh full (save (λ t. t) 9 true fresh full).1 "a"
save-keeps_example = save-keeps (λ t. t) 9 true fresh full "a" refl refl full_ok

get-save_example :
    (d : Conversation) × (get "a" (save (λ t. t) 9 false (conv "a" 0) full).1.convs ≡ some d)
    × (d.messages ≡ said "hello" ∷ [])
    × (d.updated_at ≡ 9)
    × (d.created_at ≡ created 9 (get "a" full.convs))
get-save_example = get-save (λ t. t) 9 (conv "a" 0) full
