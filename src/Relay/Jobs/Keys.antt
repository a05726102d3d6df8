-- ===== src/Relay/Jobs/Keys.antt =====
-- The primary key of the table: no two rows have one id, and an update by id changes one row.
use home_inference_server.Prelude.{
  At, here, there, All-at, Bool, true, false, none, [], ◌∷◌, ◌++◌, String, ◌≡◌, refl, sym, subst,
  arith, str_eq, str_eq_iff, if◌then◌else◌, All, Bool-cases, inl, inr,
}
use home_inference_server.Relay.Sql.{update_where, delete_where, select_where}
use home_inference_server.Relay.Jobs.{Job, Jobs, has_id}

abbrev pub OtherId : Job → Job → Type 0
OtherId j k = str_eq k.id j.id ≡ false

abbrev pub Distinct : Jobs → Type 0
Distinct [] = Unit
Distinct (j ∷ t) = All (OtherId j) t × Distinct t

str_eq-sym : (s t : String) → str_eq s t ≡ false → str_eq t s ≡ false
str_eq-sym s t h = ground (arith, str_eq_iff s t, str_eq_iff t s)

-- An update that keeps the ids keeps them distinct.
OtherId-update :
    (j : Job) (p : Job → Bool) (f : Job → Job)
    → ((k : Job) → (f k).id ≡ k.id)
    → (t : Jobs) → All (OtherId j) t
    → All (OtherId j) (update_where p f t)
OtherId-update j p f same [] a = tt
OtherId-update j p f same (k ∷ t) a = (head, OtherId-update j p f same t a.1)
  where
    head : OtherId j (if p k then f k else k)
    head = elim (Bool-cases (p k)) [ inl hit ↦ rw hit (rw (same k) a.0) | inr miss ↦ rw miss a.0 ]

OtherId-id : (j k : Job) → j.id ≡ k.id → (t : Jobs) → All (OtherId j) t → All (OtherId k) t
OtherId-id j k e [] a = tt
OtherId-id j k e (r ∷ t) a = (subst (λ i. str_eq r.id i ≡ false) e a.0, OtherId-id j k e t a.1)

pub Distinct-update :
    (p : Job → Bool) (f : Job → Job)
    → ((k : Job) → (f k).id ≡ k.id)
    → (t : Jobs) → Distinct t
    → Distinct (update_where p f t)
Distinct-update p f same [] d = tt
Distinct-update p f same (j ∷ t) d = elim (Bool-cases (p j)) [
  | inl hit ↦ rw hit (
    OtherId-id j (f j) (sym (same j)) _ (OtherId-update j p f same t d.0),
    Distinct-update p f same t d.1,
  )
  | inr miss ↦ rw miss (OtherId-update j p f same t d.0, Distinct-update p f same t d.1)
]

OtherId-delete :
    (j : Job) (p : Job → Bool) (t : Jobs) → All (OtherId j) t → All (OtherId j) (delete_where p t)
OtherId-delete j p [] a = tt
OtherId-delete j p (k ∷ t) a = ground (arith, OtherId-delete j p t a.1)

pub Distinct-delete : (p : Job → Bool) (t : Jobs) → Distinct t → Distinct (delete_where p t)
Distinct-delete p [] d = tt
Distinct-delete p (j ∷ t) d = ground (arith, OtherId-delete j p t d.0, Distinct-delete p t d.1)

OtherId-append :
    (j k : Job) (t : Jobs)
    → All (OtherId j) t
    → str_eq k.id j.id ≡ false
    → All (OtherId j) (t ++ k ∷ [])
OtherId-append j k [] a h = (h, tt)
OtherId-append j k (r ∷ t) a h = (a.0, OtherId-append j k t a.1 h)

-- A row whose id is new.
pub Distinct-append :
    (k : Job) (t : Jobs) → Distinct t → select_where (has_id k.id) t ≡ none → Distinct (t ++ k ∷ [])
Distinct-append k [] d h = (tt, tt)
Distinct-append k (j ∷ t) d h =
    let miss : str_eq j.id k.id ≡ false = ground arith in
    (OtherId-append j k t d.0 (str_eq-sym j.id k.id miss), Distinct-append k t d.1 (ground arith))

id_self : (i : String) → str_eq i i ≡ true
id_self i = (str_eq_iff i i).1 refl

module _ (f : Job → Job) where
  update_absent : (j : Job) (t : Jobs) → All (OtherId j) t → update_where (has_id j.id) f t ≡ t
  update_absent j [] a = refl
  update_absent j (k ∷ t) a = rw (a.0, update_absent j t a.1)

  -- The rows after an update by the key of `c`: all but `c` are as they were.
  pub All-update_key {κ} :
      (P : Job → Type κ) {c : Job} {t : Jobs}
      → At c t
      → Distinct t
      → All P t
      → P (f c)
      → All P (update_where (has_id c.id) f t)
  All-update_key P {c} (here {t}) d a h =
      rw (id_self c.id) (h, subst (All P) (sym (update_absent c t d.0)) a.1)
  All-update_key P {c} (there {s} {t} m) d a h =
      rw (str_eq-sym c.id s.id (All-at (OtherId s) d.0 m)) (a.0, All-update_key P m d.1 a.1 h)

no_match : (s t : String) → str_eq s t ≡ false → str_eq t s ≡ true → ⊥
no_match s t h e = ground (arith, str_eq_iff s t, str_eq_iff t s)

-- A key names one row.
pub unique_key :
    {j c : Job} {t : Jobs} → At j t → At c t → Distinct t → str_eq j.id c.id ≡ true → j ≡ c
unique_key here here d e = refl
unique_key {j} {c} here (there m) d e = absurd (no_match c.id j.id (All-at (OtherId j) d.0 m) e)
unique_key {j} {c} (there m) here d e =
    absurd (no_match c.id j.id (str_eq-sym j.id c.id (All-at (OtherId c) d.0 m)) e)
unique_key (there m) (there n) d e = unique_key m n d.1 e
