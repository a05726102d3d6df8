-- ===== src/Chat/Cap.antt =====
-- The laws of the map of conversations, and which one is the least recent.
use home_inference_server.Prelude.{
  ℕ, suc, ◌≤◌, ◌<◌, true, false, none, some, List, [], ◌∷◌, String, ◌≡◌, refl, subst, arith, str_eq,
  str_eq_iff, ltb, length, All, At, here, there, Bool-cases, inl, inr,
}
use home_inference_server.Chat.Store.{Conversation, is_conv, get, put, remove, oldest_from}

self : (i : String) → str_eq i i ≡ true
self i = (str_eq_iff i i).1 refl

str_eq-sym : (s t : String) → str_eq s t ≡ false → str_eq t s ≡ false
str_eq-sym s t h = ground (arith, str_eq_iff s t, str_eq_iff t s)

abbrev pub Named : List Conversation → Type 0
Named t = All (λ c. str_eq c.id "" ≡ false) t

pub get-At :
    (id : String) (t : List Conversation) (c : Conversation)
    → get id t ≡ some c
    → At c t × (str_eq c.id id ≡ true)
unfolding get
get-At id [] c e = cc
get-At id (d ∷ rest) c e = elim (Bool-cases (is_conv id d)) [
  | inl hit ↦
      let same : d ≡ c = ground (arith, e) in
      (subst (λ x. At x (d ∷ rest)) same here, subst (λ x. str_eq x.id id ≡ true) same hit)
  | inr miss ↦ let (at, fits) = get-At id rest c (rw miss at e) in (there at, fits)
]

pub get-member :
    {c : Conversation} {t : List Conversation} → At c t → (d : Conversation) × (get c.id t ≡ some d)
unfolding get
get-member {c} (here {t}) = (c, rw (self c.id) refl)
get-member {c} (there {s} {t} m) = elim (Bool-cases (is_conv c.id s)) [
  | inl hit ↦ (s, rw hit refl)
  | inr miss ↦ let (d, e) = get-member m in (d, rw miss e)
]

-- The scan for the least recent conversation, from a candidate that has an id.
data Scan (id : String) (oldest : ℕ) (t : List Conversation) (r : String) : Type 0 where
  first : r ≡ id → All (λ e. oldest ≤ e.updated_at) t → Scan id oldest t r
  later :
      (d : Conversation)
      → At d t
      → r ≡ d.id
      → d.updated_at < oldest
      → All (λ e. d.updated_at ≤ e.updated_at) t
      → Scan id oldest t r

keep-Scan :
    (id : String) (oldest : ℕ) (c : Conversation) (t : List Conversation) (r : String)
    → oldest ≤ c.updated_at
    → Scan id oldest t r
    → Scan id oldest (c ∷ t) r
keep-Scan id oldest c t r h (first e a) = first e (h, a)
keep-Scan id oldest c t r h (later d m e l a) = later d (there m) e l (omega arith, a)

switch-Scan :
    (id : String) (oldest : ℕ) (c : Conversation) (t : List Conversation) (r : String)
    → c.updated_at < oldest
    → Scan c.id c.updated_at t r
    → Scan id oldest (c ∷ t) r
switch-Scan id oldest c t r h (first e a) = later c here e h (omega arith, a)
switch-Scan id oldest c t r h (later d m e l a) = later d (there m) e (omega arith) (omega arith, a)

scan :
    (id : String) (oldest : ℕ) (t : List Conversation)
    → str_eq id "" ≡ false
    → Named t
    → Scan id oldest t (oldest_from id oldest t)
unfolding oldest_from
scan id oldest [] h n = first refl tt
scan id oldest (c ∷ t) h n = elim (Bool-cases (ltb c.updated_at oldest)) [
  | inl older ↦
      rw (h, older) (switch-Scan id oldest c t _ (ground arith) (scan c.id c.updated_at t n.0 n.1))
  | inr newer ↦ rw (h, newer) (keep-Scan id oldest c t _ (ground arith) (scan id oldest t h n.1))
]

-- What is evicted: nothing if there is nothing, or the least recently updated conversation.
pub data Oldest (t : List Conversation) (r : String) : Type 0 where
  nobody : t ≡ [] → r ≡ "" → Oldest t r
  this :
      (d : Conversation) → At d t → r ≡ d.id → All (λ e. d.updated_at ≤ e.updated_at) t → Oldest t r

scan-Oldest :
    (c : Conversation) (t : List Conversation) (r : String)
    → Scan c.id c.updated_at t r
    → Oldest (c ∷ t) r
scan-Oldest c t r (first e a) = this c here e (omega arith, a)
scan-Oldest c t r (later d m e l a) = this d (there m) e (omega arith, a)

pub oldest : (t : List Conversation) → Named t → Oldest t (oldest_from "" 0 t)
unfolding oldest_from
oldest [] n = nobody refl refl
oldest (c ∷ t) n = scan-Oldest c t _ (scan c.id c.updated_at t n.0 n.1)

-- Removal and its laws.
remove-length-le : (id : String) (t : List Conversation) → length (remove id t) ≤ length t
unfolding remove
remove-length-le id [] = omega arith
remove-length-le id (c ∷ t) = ground (arith, remove-length-le id t)

pub remove-length :
    {c : Conversation} {t : List Conversation} → At c t → length (remove c.id t) < length t
unfolding remove
remove-length {c} (here {t}) = rw (self c.id) (omega (arith, remove-length-le c.id t))
remove-length {c} (there {s} {t} m) = elim (Bool-cases (is_conv c.id s)) [
  | inl hit ↦ rw hit (omega (arith, remove-length-le c.id t))
  | inr miss ↦ rw miss (omega (arith, remove-length m))
]

pub remove-Named : (id : String) (t : List Conversation) → Named t → Named (remove id t)
unfolding remove
remove-Named id [] n = tt
remove-Named id (c ∷ t) n = elim (Bool-cases (is_conv id c)) [
  | inl hit ↦ rw hit (remove-Named id t n.1)
  | inr miss ↦ rw miss (n.0, remove-Named id t n.1)
]

pub get-remove-other :
    (id other : String) (t : List Conversation)
    → str_eq other id ≡ false
    → get other (remove id t) ≡ get other t
unfolding get remove
get-remove-other id other [] h = refl
get-remove-other id other (c ∷ t) h = elim (Bool-cases (is_conv id c)) [
  | inr miss ↦ elim (Bool-cases (is_conv other c)) [
    | inl hit ↦ rw (miss, hit) refl
    | inr far ↦ rw (miss, far) (get-remove-other id other t h)
  ]
  | inl gone ↦
      let far : is_conv other c ≡ false =
        ground (arith, str_eq_iff c.id id, str_eq_iff c.id other, str_eq_iff other id) in
      rw (gone, far) (get-remove-other id other t h)
]

pub get-remove-same : (id : String) (t : List Conversation) → get id (remove id t) ≡ none
unfolding get remove
get-remove-same id [] = refl
get-remove-same id (c ∷ t) = elim (Bool-cases (is_conv id c)) [
  | inl gone ↦ rw gone (get-remove-same id t)
  | inr miss ↦ rw (miss, miss) (get-remove-same id t)
]

-- The assignment and its laws.
pub put-length-new :
    (c : Conversation) (t : List Conversation)
    → get c.id t ≡ none
    → length (put c t) ≡ suc (length t)
unfolding put get
put-length-new c [] e = refl
put-length-new c (d ∷ t) e = elim (Bool-cases (is_conv c.id d)) [
  | inl hit ↦ absurd (ground (arith, e))
  | inr miss ↦ rw miss (omega (arith, put-length-new c t (rw miss at e)))
]

pub put-length-old :
    (c e : Conversation) (t : List Conversation) → get c.id t ≡ some e → length (put c t) ≡ length t
unfolding put get
put-length-old c e [] h = cc
put-length-old c e (d ∷ t) h = elim (Bool-cases (is_conv c.id d)) [
  | inl hit ↦ rw hit refl
  | inr miss ↦ rw miss (omega (arith, put-length-old c e t (rw miss at h)))
]

pub put-length-le : (c : Conversation) (t : List Conversation) → length (put c t) ≤ suc (length t)
unfolding put
put-length-le c [] = omega arith
put-length-le c (d ∷ t) = ground (arith, put-length-le c t)

pub put-Named :
    (c : Conversation) (t : List Conversation) → str_eq c.id "" ≡ false → Named t → Named (put c t)
unfolding put
put-Named c [] h n = (h, tt)
put-Named c (d ∷ t) h n = elim (Bool-cases (is_conv c.id d)) [
  | inl hit ↦ rw hit (h, n.1)
  | inr miss ↦ rw miss (n.0, put-Named c t h n.1)
]

pub get-put-same : (c : Conversation) (t : List Conversation) → get c.id (put c t) ≡ some c
unfolding put get
get-put-same c [] = rw (self c.id) refl
get-put-same c (d ∷ t) = elim (Bool-cases (is_conv c.id d)) [
  | inl hit ↦ rw hit (rw (self c.id) refl)
  | inr miss ↦ rw (miss, miss) (get-put-same c t)
]

pub get-put-other :
    (c : Conversation) (other : String) (t : List Conversation)
    → str_eq other c.id ≡ false
    → get other (put c t) ≡ get other t
unfolding put get
get-put-other c other [] h = rw (str_eq-sym other c.id h) refl
get-put-other c other (d ∷ t) h = elim (Bool-cases (is_conv c.id d)) [
  | inl hit ↦
      let far : is_conv other d ≡ false =
        ground (arith, str_eq_iff d.id c.id, str_eq_iff d.id other, str_eq_iff other c.id) in
      rw (hit, far) (rw (str_eq-sym other c.id h) refl)
  | inr miss ↦ elim (Bool-cases (is_conv other d)) [
    | inl found ↦ rw (miss, found) refl
    | inr far ↦ rw (miss, far) (get-put-other c other t h)
  ]
]
