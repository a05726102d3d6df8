-- ===== src/Apps/Retrieve/Budget.antt =====
-- The sources of a question: how many, how long and which.
use home_inference_server.Prelude.{
  ℕ, ◌+◌, ◌≤◌, ◌<◌, false, List, [], ◌∷◌, ◌++◌, length, All, At, ◌≡◌, ◌⊎◌,
}
use home_inference_server.Apps.Retrieve.{
  source_budget, max_sources, Doc, used_by, always_docs, Scored, scored_docs,
}

abbrev pub IsRanked : List Scored → Type 0
IsRanked [] = Unit {0}
IsRanked (r ∷ rest) = All (λ (o : Scored). o.score ≤ r.score) rest × IsRanked rest

-- A choice among ranked documents, in their order.
pub data Chosen : List Scored → List Doc → Type 0 where
  stopped : (rs : List Scored) → Chosen rs []
  left : {rs : List Scored} {out : List Doc} (r : Scored) → Chosen rs out → Chosen (r ∷ rs) out
  kept :
      {rs : List Scored} {out : List Doc} (r : Scored)
      → Chosen rs out
      → Chosen (r ∷ rs) (r.doc ∷ out)

-- A document is among the chosen, or the number or the budget is used up for it.
abbrev pub IsServed : ℕ → ℕ → List Doc → Scored → Type 0
IsServed n used out r =
    At r.doc out
    ⊎ ((max_sources ≤ n + length out) ⊎ (source_budget < used + used_by out + length r.doc.text))

-- What the loop picks, from `n` sources and `used` characters on.
record Picks (n used : ℕ) (rs : List Scored) (out : List Doc) : Type 0 where
  few : (out ≡ []) ⊎ (n + length out ≤ max_sources)
  small : (out ≡ []) ⊎ (used + used_by out ≤ source_budget)
  chosen : Chosen rs out
  whole : All (IsServed n used out) rs

-- Each scored document is one of the index that is not sent with every question, and scores.
abbrev IsRelevant : (Doc → ℕ) → List Doc → Scored → Type 0
IsRelevant score docs r =
    At r.doc docs × (r.doc.always ≡ false) × (0 < score r.doc) × (r.score ≡ score r.doc)

-- What `Retrieve` returns.
pub record Retrieved (score : Doc → ℕ) (docs out : List Doc) : Type 0 where
  pub ranking : List Scored
  pub picked : List Doc
  pub split : out ≡ always_docs docs ++ picked
  pub few : (picked ≡ []) ⊎ (length out ≤ max_sources)
  pub small : (picked ≡ []) ⊎ (used_by out ≤ source_budget)
  pub ranked : IsRanked ranking
  pub relevant : All (IsRelevant score docs) ranking
  pub chosen : Chosen ranking picked
  pub whole :
      All
        (λ r.
          At r.doc picked
          ⊎ ((max_sources ≤ length out) ⊎ (source_budget < used_by out + length r.doc.text)))
        (scored_docs score docs)
