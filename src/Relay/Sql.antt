-- ===== src/Relay/Sql.antt =====
-- The statements of SQL that the relay uses, over a table as a list of rows in the order of insertion.
use home_inference_server.Prelude.{
  At, here, there, All-map, ℕ, suc, ◌≤◌, ◌≡◌, refl, arith, Bool, true, false, Option, none, some,
  List, [], ◌∷◌, if◌then◌else◌, ltb, All, Bool-cases, inl, inr,
}

both : {b : Bool} → b ≡ false → b ≡ true → ⊥
both p q = cc

le_step : {c r s : ℕ} → ltb c r ≡ false → c ≤ s → r ≤ s
le_step p q = ground arith

module _ {ℓ} {A : Type ℓ} where
  -- `UPDATE … SET f WHERE p`.
  abbrev pub update_where : (A → Bool) → (A → A) → List A → List A
  update_where p f [] = []
  update_where p f (r ∷ t) = (if p r then f r else r) ∷ update_where p f t

  -- `DELETE … WHERE p`.
  abbrev pub delete_where : (A → Bool) → List A → List A
  delete_where p [] = []
  delete_where p (r ∷ t) = if p r then delete_where p t else r ∷ delete_where p t

  -- `SELECT COUNT(*) … WHERE p`, which is also the number of rows that a statement affects.
  abbrev pub count_where : (A → Bool) → List A → ℕ
  count_where p [] = 0
  count_where p (r ∷ t) = if p r then suc (count_where p t) else count_where p t

  -- `SELECT … WHERE p`, at most one row, as for a key.
  abbrev pub select_where : (A → Bool) → List A → Option A
  select_where p [] = none
  select_where p (r ∷ t) = if p r then some r else select_where p t

  -- The earlier of a row and a candidate; of equals the row.
  abbrev pub earlier : (A → ℕ) → A → Option A → A
  earlier key r none = r
  earlier key r (some c) = if ltb (key c) (key r) then c else r

  -- `SELECT … WHERE p ORDER BY key ASC LIMIT 1`.
  abbrev pub first_by : (A → Bool) → (A → ℕ) → List A → Option A
  first_by p key [] = none
  first_by p key (r ∷ t) =
      let rest = first_by p key t in if p r then some (earlier key r rest) else rest

  pub All-update {κ} :
      {P : A → Type κ} (p : A → Bool) (f : A → A) (t : List A)
      → ((r : A) → p r ≡ true → P r → P (f r))
      → All P t
      → All P (update_where p f t)
  All-update p f [] keep a = tt
  All-update p f (r ∷ t) keep a = elim (Bool-cases (p r)) [
    | inl hit ↦ (rw hit (keep r hit a.0), All-update p f t keep a.1)
    | inr miss ↦ (rw miss a.0, All-update p f t keep a.1)
  ]

  pub All-delete {κ} :
      (P : A → Type κ) (p : A → Bool) (t : List A) → All P t → All P (delete_where p t)
  All-delete P p [] a = tt
  All-delete P p (r ∷ t) a = elim (Bool-cases (p r)) [
    | inl hit ↦ rw hit (All-delete P p t a.1)
    | inr miss ↦ rw miss (a.0, All-delete P p t a.1)
  ]

  -- What `ORDER BY … LIMIT 1` selects is a row that qualifies, and none that qualifies comes earlier.
  pub data First (p : A → Bool) (key : A → ℕ) (t : List A) (o : Option A) : Type ℓ where
    found :
        (r : A)
        → o ≡ some r
        → At r t
        → p r ≡ true
        → All (λ s. p s ≡ true → key r ≤ key s) t
        → First p key t o
    missing : o ≡ none → All (λ s. p s ≡ false) t → First p key t o

  First-step :
      (p : A → Bool) (key : A → ℕ) (r : A) (t : List A) (o : Option A)
      → First p key t o
      → First p key (r ∷ t) (if p r then some (earlier key r o) else o)
  First-step p key r t o (found c e m q l) = elim (Bool-cases (p r)) [
    | inr out ↦ rw out (found c e (there m) q (λ h. cc, l))
    | inl fits ↦ elim (Bool-cases (ltb (key c) (key r))) [
      | inl less ↦ rw (fits, e, less) (found c refl (there m) q (λ _. ground arith, l))
      | inr not_less ↦
          rw (fits, e, not_less)
            (found r refl here fits
              (λ _. omega arith, All-map (λ s f h. le_step not_less (f h)) t l))
    ]
  ]
  First-step p key r t o (missing e l) = elim (Bool-cases (p r)) [
    | inr out ↦ rw out (missing e (out, l))
    | inl fits ↦
        rw (fits, e)
          (found r refl here fits (λ _. omega arith, All-map (λ s f h. absurd (both f h)) t l))
  ]

  pub first_by-First : (p : A → Bool) (key : A → ℕ) (t : List A) → First p key t (first_by p key t)
  first_by-First p key [] = missing refl tt
  first_by-First p key (r ∷ t) = First-step p key r t (first_by p key t) (first_by-First p key t)
