-- ===== src/Apps/Retrieve/Trimmed.antt =====
-- How long a document of the index is.
use home_inference_server.Prelude.{
  ℕ, ◌+◌, ◌/◌, ◌≤◌, Option, none, some, List, [], ◌∷◌, ltb, leb, length, take, length-take-le,
  length-take-shorter, ◌≡◌, All, inl, inr, arith, Bool-cases, leb→le,
}
use home_inference_server.Apps.Retrieve.{
  max_doc_chars, Doc, last_stop, cut_at, trim_text, new_index,
}

cut_at-le : (s : List ℕ) (o : Option ℕ) → length (cut_at s o) ≤ length s
unfolding cut_at
cut_at-le s none = omega arith
cut_at-le s (some cut) = elim (Bool-cases (ltb (max_doc_chars / 2) cut)) [
  | inl late ↦ rw late (length-take-shorter (cut + 1) s)
  | inr early ↦ rw early (omega arith)
]

module _ (trim_space : List ℕ → List ℕ) where
  trim_text-le : (s : List ℕ) → length (trim_text trim_space s) ≤ max_doc_chars
  unfolding trim_text
  trim_text-le s = elim (Bool-cases (leb (length (trim_space s)) max_doc_chars)) [
    | inl short ↦ rw short (leb→le (length (trim_space s)) max_doc_chars short)
    | inr long ↦
        let head = take max_doc_chars (trim_space s) in
        rw long (
          omega
            (arith, cut_at-le head (last_stop head), length-take-le max_doc_chars (trim_space s)))
  ]

  pub new_index-All :
      (ds : List Doc) → All (λ (d : Doc). length d.text ≤ max_doc_chars) (new_index trim_space ds)
  unfolding new_index
  new_index-All [] = tt
  new_index-All (d ∷ ds) = (trim_text-le d.text, new_index-All ds)

  pub length-new_index : (ds : List Doc) → length (new_index trim_space ds) ≡ length ds
  unfolding new_index
  length-new_index [] = omega arith
  length-new_index (d ∷ ds) = omega (arith, length-new_index ds)
