-- ===== src/Chat/Store.antt =====
-- internal/chatstore/chatstore.go, over the types Conversation and ChatMessage of api.
--
-- The map is a list in the order in which Go's `range` happens to visit it, and the directory is the list
-- of the ids that have a file. Reading the directory is not modelled, nor the bytes of a file. A write
-- that fails is an argument; the removal of a file succeeds, or its error is only logged.
use Prim.Native.String.{count as rune_count, slice, ◌++◌ as append, [] as empty_text, ◌∷◌ as rune}
use text.Mathlib.Text.{find?}
use home_inference_server.Prelude.{
  ℕ, zero, suc, Bool, ◌||◌, not, Option, none, some, List, [], ◌∷◌, String, str_eq, if◌then◌else◌,
  ltb, leb, length,
}

pub record ChatMessage : Type 0 where
  pub role : String
  pub content : String

pub record Conversation : Type 0 where
  pub id : String
  pub title : String
  pub messages : List ChatMessage
  pub created_at : ℕ
  pub updated_at : ℕ

pub record ConversationMeta : Type 0 where
  pub id : String
  pub title : String
  pub created_at : ℕ
  pub updated_at : ℕ
  pub turn_count : ℕ

pub record Store : Type 0 where
  pub convs : List Conversation
  pub files : List String

abbrev pub max_conversations : ℕ
max_conversations = 5

abbrev pub is_conv : String → Conversation → Bool
is_conv id c = str_eq c.id id

-- `s.convs[id]`, the assignment and `delete`.
unfoldable pub get : String → List Conversation → Option Conversation
get id [] = none
get id (c ∷ rest) = if is_conv id c then some c else get id rest

unfoldable pub put : Conversation → List Conversation → List Conversation
put c [] = c ∷ []
put c (d ∷ rest) = let later = put c rest in if is_conv c.id d then c ∷ rest else d ∷ later

unfoldable pub remove : String → List Conversation → List Conversation
remove id [] = []
remove id (c ∷ rest) = let later = remove id rest in if is_conv id c then later else c ∷ later

unfoldable pub with_file : String → List String → List String
with_file id [] = id ∷ []
with_file id (f ∷ files) =
    let later = with_file id files in if str_eq f id then f ∷ files else f ∷ later

unfoldable pub without_file : String → List String → List String
without_file id [] = []
without_file id (f ∷ files) =
    let later = without_file id files in if str_eq f id then later else f ∷ later

-- The loop of `evictOldestLocked`; the id and the time so far.
unfoldable pub oldest_from : String → ℕ → List Conversation → String
oldest_from id oldest [] = id
oldest_from id oldest (c ∷ rest) =
    let older = oldest_from c.id c.updated_at rest in
    let same = oldest_from id oldest rest in
    if str_eq id "" || ltb c.updated_at oldest then older else same

unfoldable pub evict_oldest : Store → Store
evict_oldest s =
    let id = oldest_from "" 0 s.convs in
    if str_eq id ""
    then s
    else record { convs = remove id s.convs; files = without_file id s.files }

unfoldable pub turns : List ChatMessage → ℕ
turns [] = 0
turns (m ∷ rest) = if str_eq m.role "user" then suc (turns rest) else turns rest

unfoldable pub meta : Conversation → ConversationMeta
meta c = record {
  id = c.id;
  title = c.title;
  created_at = c.created_at;
  updated_at = c.updated_at;
  turn_count = turns c.messages;
}

-- `strings.SplitN(s, "\n", 2)[0]` and `string(r[:n])`.
unfoldable pub first_line : String → String
first_line s = elim (find? s "\n") [ none ↦ s | some i ↦ slice s 0 i ]

unfoldable pub take_runes : ℕ → String → String
take_runes zero s = ""
take_runes (suc n) empty_text = ""
take_runes (suc n) (rune c s) = rune c (take_runes n s)

-- `trim` is `strings.TrimSpace`.
unfoldable pub derive_title : (String → String) → List ChatMessage → String
derive_title trim [] = "New conversation"
derive_title trim (m ∷ rest) =
    let line = trim (first_line m.content) in
    let later = derive_title trim rest in
    if not (str_eq m.role "user") || str_eq line ""
    then later
    else if ltb 48 (rune_count line)
    then append (take_runes 48 line) "…"
    else line

-- `Save`, up to the write: the store after a possible eviction, and the conversation to write.
unfoldable pub stamped : ℕ → Conversation → Option Conversation → Conversation
stamped now c none = record c { created_at = now; updated_at = now }
stamped now c (some existing) = record c { created_at = existing.created_at; updated_at = now }

unfoldable pub titled : (String → String) → Conversation → Conversation
titled trim c = record c {
  title = if str_eq (trim c.title) "" then derive_title trim c.messages else c.title;
}

unfoldable pub prepared : (String → String) → ℕ → Conversation → Store → Conversation
prepared trim now c s = titled trim (stamped now c (get c.id s.convs))

unfoldable pub room_made : Option Conversation → Store → Store
room_made (some existing) s = s
room_made none s = if leb max_conversations (length s.convs) then evict_oldest s else s

unfoldable pub make_room : String → Store → Store
make_room id s = room_made (get id s.convs) s

unfoldable pub save :
    (String → String) → ℕ → Bool → Conversation → Store → Option ConversationMeta × Store
save trim now write_fails c s =
    let d = prepared trim now c s in
    let s' = make_room c.id s in
    if write_fails
    then (none, s')
    else (some (meta d), record { convs = put d s'.convs; files = with_file d.id s'.files })

unfoldable pub delete : String → Store → Store
delete id s = elim (get id s.convs) [
  | none ↦ s
  | some _ ↦ record { convs = remove id s.convs; files = without_file id s.files }
]

-- `sort.Slice` by `UpdatedAt`, newest first.
unfoldable pub insert_newest : ConversationMeta → List ConversationMeta → List ConversationMeta
insert_newest m [] = m ∷ []
insert_newest m (n ∷ rest) =
    let later = insert_newest m rest in
    if ltb m.updated_at n.updated_at then n ∷ later else m ∷ n ∷ rest

unfoldable pub list : List Conversation → List ConversationMeta
list [] = []
list (c ∷ rest) = insert_newest (meta c) (list rest)
