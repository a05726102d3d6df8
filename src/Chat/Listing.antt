-- ===== src/Chat/Listing.antt =====
-- The list that the store shows, and what a deletion leaves.
use home_inference_server.Prelude.{
  ℕ, suc, ◌≤◌, false, none, List, [], ◌∷◌, String, ◌≡◌, refl, arith, str_eq, ltb, length, All,
  All-map, At, here, there, Bool-cases, Option-cases, inl, inr,
}
use home_inference_server.Chat.Store.{
  Conversation, ConversationMeta, Store, get, meta, delete, insert_newest, list,
}
use home_inference_server.Chat.Cap.{get-remove-other, get-remove-same}

abbrev pub Newest : List ConversationMeta → Type 0
Newest [] = Unit
Newest (m ∷ rest) = All (λ n. n.updated_at ≤ m.updated_at) rest × Newest rest

insert-below :
    (bound : ℕ) (m : ConversationMeta) (t : List ConversationMeta)
    → m.updated_at ≤ bound
    → All (λ n. n.updated_at ≤ bound) t
    → All (λ n. n.updated_at ≤ bound) (insert_newest m t)
unfolding insert_newest
insert-below bound m [] h a = (h, tt)
insert-below bound m (n ∷ t) h a = elim (Bool-cases (ltb m.updated_at n.updated_at)) [
  | inl older ↦ rw older (a.0, insert-below bound m t h a.1)
  | inr newer ↦ rw newer (h, a)
]

insert-Newest :
    (m : ConversationMeta) (t : List ConversationMeta) → Newest t → Newest (insert_newest m t)
unfolding insert_newest
insert-Newest m [] s = (tt, tt)
insert-Newest m (n ∷ t) s = elim (Bool-cases (ltb m.updated_at n.updated_at)) [
  | inl older ↦ rw older (insert-below n.updated_at m t (ground arith) s.0, insert-Newest m t s.1)
  | inr newer ↦
      let le : n.updated_at ≤ m.updated_at = ground arith in
      rw newer ((le, All-map (λ k h. omega (arith, h, le)) t s.0), s)
]

insert-At : (m : ConversationMeta) (t : List ConversationMeta) → At m (insert_newest m t)
unfolding insert_newest
insert-At m [] = here
insert-At m (n ∷ t) = elim (Bool-cases (ltb m.updated_at n.updated_at)) [
  | inl older ↦ rw older (there (insert-At m t))
  | inr newer ↦ rw newer here
]

insert-old :
    {k : ConversationMeta} (m : ConversationMeta) {t : List ConversationMeta}
    → At k t
    → At k (insert_newest m t)
unfolding insert_newest
insert-old {k} m (here {t}) = elim (Bool-cases (ltb m.updated_at k.updated_at)) [
  | inl older ↦ rw older here
  | inr newer ↦ rw newer (there here)
]
insert-old {k} m (there {s = n} {t} at) = elim (Bool-cases (ltb m.updated_at n.updated_at)) [
  | inl older ↦ rw older (there (insert-old m at))
  | inr newer ↦ rw newer (there (there at))
]

insert-length :
    (m : ConversationMeta) (t : List ConversationMeta) → length (insert_newest m t) ≡ suc (length t)
unfolding insert_newest
insert-length m [] = refl
insert-length m (n ∷ t) = elim (Bool-cases (ltb m.updated_at n.updated_at)) [
  | inl older ↦ rw older (omega (arith, insert-length m t))
  | inr newer ↦ rw newer refl
]

list-Newest : (t : List Conversation) → Newest (list t)
unfolding list
list-Newest [] = tt
list-Newest (c ∷ t) = insert-Newest (meta c) (list t) (list-Newest t)

list-length : (t : List Conversation) → length (list t) ≡ length t
unfolding list
list-length [] = refl
list-length (c ∷ t) = omega (arith, insert-length (meta c) (list t), list-length t)

list-At : {c : Conversation} {t : List Conversation} → At c t → At (meta c) (list t)
unfolding list
list-At {c} (here {t}) = insert-At (meta c) (list t)
list-At {c} (there {s = d} {t} m) = insert-old (meta d) (list-At m)

-- `List` shows the newest first, as many entries as there are conversations, and each conversation that is
-- stored.
pub list_complete :
    (t : List Conversation) (c : Conversation)
    → At c t
    → Newest (list t) × (length (list t) ≡ length t) × At (meta c) (list t)
list_complete t c m = (list-Newest t, list-length t, list-At m)

-- After a deletion the id names nothing, and every other id names what it named.
pub delete-get :
    (id other : String) (s : Store)
    → str_eq other id ≡ false
    → (get id (delete id s).convs ≡ none) × (get other (delete id s).convs ≡ get other s.convs)
unfolding delete
delete-get id other s far = elim (Option-cases (get id s.convs)) [
  | inl absent ↦ rw (absent, delete) (absent, refl)
  | inr (c, found) ↦
      rw (found, delete) (get-remove-same id s.convs, get-remove-other id other s.convs far)
]
