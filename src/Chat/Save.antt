-- ===== src/Chat/Save.antt =====
-- What a save stores, keeps and evicts.
use home_inference_server.Prelude.{
  ℕ, ◌≤◌, ◌<◌, Bool, true, false, Option, none, some, List, String, ◌≡◌, refl, sym, subst, ap, ◌∙◌,
  arith, str_eq, str_eq_iff, if◌then◌else◌, leb, length, All, At, All-at, Bool-cases, Option-cases,
  ◌⊎◌, inl, inr,
}
use home_inference_server.Chat.Store.{
  Conversation, Store, max_conversations, get, put, remove, without_file, oldest_from, evict_oldest,
  prepared, make_room, room_made, stamped, titled, save,
}
use home_inference_server.Chat.Cap.{
  Named, Oldest, nobody, this, oldest, remove-length, remove-Named, get-remove-other,
  get-remove-same, put-length-old, put-length-le, put-Named, get-put-same, get-put-other,
}

-- When the conversation was created: at the save, or when it was first saved.
abbrev pub created : ℕ → Option Conversation → ℕ
created now none = now
created now (some e) = e.created_at

module _ (trim : String → String) (now : ℕ) (c : Conversation) (s : Store) where
  prepared-messages : (prepared trim now c s).messages ≡ c.messages
  unfolding prepared stamped titled
  prepared-messages = elim (Option-cases (get c.id s.convs)) [
    | inl e ↦ rw e refl
    | inr (old, e) ↦ rw e refl
  ]

  prepared-updated : (prepared trim now c s).updated_at ≡ now
  unfolding prepared stamped titled
  prepared-updated = elim (Option-cases (get c.id s.convs)) [
    | inl e ↦ rw e refl
    | inr (old, e) ↦ rw e refl
  ]

  prepared-created : (prepared trim now c s).created_at ≡ created now (get c.id s.convs)
  unfolding prepared stamped titled
  prepared-created = elim (Option-cases (get c.id s.convs)) [
    | inl e ↦ rw e refl
    | inr (old, e) ↦ rw e refl
  ]

  prepared-id : (prepared trim now c s).id ≡ c.id
  unfolding prepared stamped titled
  prepared-id = elim (Option-cases (get c.id s.convs)) [
    | inl e ↦ rw e refl
    | inr (old, e) ↦ rw e refl
  ]

-- Every conversation has an id, and there are at most the maximum.
pub record StoreOk (s : Store) : Type 0 where
  pub names : Named s.convs
  pub cap : length s.convs ≤ max_conversations

-- A step that removes the least recently updated conversation with its file.
data Evicts (s t : Store) : Type 0 where
  drops :
      (d : Conversation)
      → At d s.convs
      → All (λ e. d.updated_at ≤ e.updated_at) s.convs
      → t.convs ≡ remove d.id s.convs
      → t.files ≡ without_file d.id s.files
      → Evicts s t

evicted :
    (s : Store) (id : String)
    → Oldest s.convs id
    → 0 < length s.convs
    → Named s.convs
    → Evicts s (
        if str_eq id ""
        then s
        else record { convs = remove id s.convs; files = without_file id s.files })
evicted s id (nobody e _) h n = absurd (omega (arith, h, ap length e))
evicted s id (this d m e least) h n =
    let named : str_eq id "" ≡ false = rw e (All-at (λ c. str_eq c.id "" ≡ false) n m) in
    rw named (drops d m least (ap (λ i. remove i s.convs) e) (ap (λ i. without_file i s.files) e))

evict_oldest-Evicts : (s : Store) → 0 < length s.convs → Named s.convs → Evicts s (evict_oldest s)
unfolding evict_oldest
evict_oldest-Evicts s h n = evicted s (oldest_from "" 0 s.convs) (oldest s.convs n) h n

-- What `make_room` does.
data Room (id : String) (s t : Store) : Type 0 where
  same :
      t ≡ s
      → ((e : Conversation) × (get id s.convs ≡ some e)) ⊎ (length s.convs < max_conversations)
      → Room id s t
  made : get id s.convs ≡ none → max_conversations ≤ length s.convs → Evicts s t → Room id s t

room_made-Room :
    (id : String) (s : Store) (o : Option Conversation)
    → get id s.convs ≡ o
    → Named s.convs
    → Room id s (room_made o s)
unfolding room_made
room_made-Room id s (some e) found n = same refl (inl (e, found))
room_made-Room id s none absent n = elim (Bool-cases (leb max_conversations (length s.convs))) [
  | inl full ↦ rw full (made absent (ground arith) (evict_oldest-Evicts s (ground arith) n))
  | inr free ↦ rw free (same refl (inr (ground arith)))
]

room : (id : String) (s : Store) → Named s.convs → Room id s (make_room id s)
unfolding make_room
room id s n = room_made-Room id s (get id s.convs) refl n

module _ (c d : Conversation) (s : Store) (same_id : d.id ≡ c.id) where
  -- The store with room has room.
  put-cap :
      (t : Store)
      → Room c.id s t
      → length s.convs ≤ max_conversations
      → length (put d t.convs) ≤ max_conversations
  put-cap t (same e (inl (old, found))) h =
      let found' : get d.id t.convs ≡ some old =
        ap (λ u. get d.id u.convs) e ∙ ap (λ i. get i s.convs) same_id ∙ found in
      omega (arith, h, put-length-old d old t.convs found', ap (λ u. length u.convs) e)
  put-cap t (same e (inr free)) h =
      omega (arith, free, put-length-le d t.convs, ap (λ u. length u.convs) e)
  put-cap t (made absent full (drops gone m least rest _)) h =
      omega (arith, h, put-length-le d t.convs, remove-length m, ap length rest)

  Room-Named : (t : Store) → Room c.id s t → Named s.convs → Named t.convs
  Room-Named t (same e _) n = subst (λ u. Named u.convs) (sym e) n
  Room-Named t (made _ _ (drops gone m least rest _)) n =
      subst Named (sym rest) (remove-Named gone.id s.convs n)

  Room-length : (t : Store) → Room c.id s t → length t.convs ≤ length s.convs
  Room-length t (same e _) = omega (arith, ap (λ u. length u.convs) e)
  Room-length t (made _ _ (drops gone m least rest _)) =
      omega (arith, remove-length m, ap length rest)

save-StoreOk :
    (trim : String → String) (now : ℕ) (fails : Bool) (c : Conversation) (s : Store)
    → str_eq c.id "" ≡ false
    → StoreOk s
    → StoreOk (save trim now fails c s).1
unfolding save
save-StoreOk trim now fails c s named v =
    let d = prepared trim now c s in
    let e = prepared-id trim now c s in
    let t = make_room c.id s in
    let r = room c.id s v.names in
    elim (Bool-cases fails) [
      | inl lost ↦ rw lost (record {
        names = Room-Named c d s e t r v.names;
        cap = omega (arith, Room-length c d s e t r, v.cap);
      })
      | inr fine ↦ rw fine (record {
        names = put-Named d t.convs (rw e named) (Room-Named c d s e t r v.names);
        cap = put-cap c d s e t r v.cap;
      })
    ]

-- What a save of `c` does to the conversation under another id.
pub data Fate (c : Conversation) (s t : Store) (other : String) : Type 0 where
  kept : get other t.convs ≡ get other s.convs → Fate c s t other
  lost :
      (d : Conversation)
      → str_eq other d.id ≡ true
      → At d s.convs
      → get c.id s.convs ≡ none
      → max_conversations ≤ length s.convs
      → All (λ e. d.updated_at ≤ e.updated_at) s.convs
      → get other t.convs ≡ none
      → Fate c s t other

Room-Fate : (c : Conversation) (s t : Store) (other : String) → Room c.id s t → Fate c s t other
Room-Fate c s t other (same e _) = kept (ap (λ u. get other u.convs) e)
Room-Fate c s t other (made absent full (drops d m least rest _)) =
    elim (Bool-cases (str_eq other d.id)) [
      | inl hit ↦
          let is : other ≡ d.id = (str_eq_iff other d.id).0 hit in
          lost d hit m absent full least (rw (rest, is) (get-remove-same d.id s.convs))
      | inr far ↦ kept (rw rest (get-remove-other d.id other s.convs far))
    ]

put-Fate :
    (c d : Conversation) (s t : Store) (files : List String) (other : String)
    → str_eq other d.id ≡ false
    → Fate c s t other
    → Fate c s (record { convs = put d t.convs; files = files }) other
put-Fate c d s t files other far (kept e) = kept (get-put-other d other t.convs far ∙ e)
put-Fate c d s t files other far (lost g h m absent full least e) =
    lost g h m absent full least (get-put-other d other t.convs far ∙ e)

save-Fate :
    (trim : String → String) (now : ℕ) (fails : Bool) (c : Conversation) (s : Store)
    (other : String)
    → str_eq other c.id ≡ false
    → StoreOk s
    → Fate c s (save trim now fails c s).1 other
unfolding save
save-Fate trim now fails c s other far v =
    let d = prepared trim now c s in
    let r = Room-Fate c s (make_room c.id s) other (room c.id s v.names) in
    elim (Bool-cases fails) [
      | inl failed ↦ rw failed r
      | inr fine ↦
          rw fine (put-Fate c d s (make_room c.id s) _ other (rw (prepared-id trim now c s) far) r)
    ]

-- A save with an id keeps every conversation named and their number within the maximum, and leaves the
-- conversation under any other id as it is, unless the saved one is new, the store is full and that other
-- one is the least recently updated of all: then it is gone. Both hold also when the write of the new one
-- fails.
pub save-keeps :
    (trim : String → String) (now : ℕ) (fails : Bool) (c : Conversation) (s : Store)
    (other : String)
    → str_eq c.id "" ≡ false
    → str_eq other c.id ≡ false
    → StoreOk s
    → StoreOk (save trim now fails c s).1 × Fate c s (save trim now fails c s).1 other
save-keeps trim now fails c s other named far v =
    (save-StoreOk trim now fails c s named v, save-Fate trim now fails c s other far v)

-- What a save whose write succeeds stores can be read under its id: the same messages, updated now, and
-- created when the conversation of that id first was.
pub get-save :
    (trim : String → String) (now : ℕ) (c : Conversation) (s : Store)
    → (d : Conversation) × (get c.id (save trim now false c s).1.convs ≡ some d)
      × (d.messages ≡ c.messages)
      × (d.updated_at ≡ now)
      × (d.created_at ≡ created now (get c.id s.convs))
unfolding save
get-save trim now c s =
    let d = prepared trim now c s in
    let t = make_room c.id s in
    (
      d,
      subst (λ i. get i (put d t.convs) ≡ some d) (prepared-id trim now c s)
          (get-put-same d t.convs),
      prepared-messages trim now c s,
      prepared-updated trim now c s,
      prepared-created trim now c s,
    )
