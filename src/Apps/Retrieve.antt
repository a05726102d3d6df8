-- ===== src/Apps/Retrieve.antt =====
-- internal/apps/retrieve.go: the sources that a question is answered from.
--
-- A text is its bytes. The tokenizer and the score, which is in floating point, are one argument: the
-- score of each document for the question, as a number of the same order, 0 where the source's is 0.
pub mod Budget
pub mod Trimmed
use home_inference_server.Prelude.{
  ℕ, zero, suc, ◌+◌, ◌/◌, Bool, true, false, ◌&&◌, ◌||◌, not, Option, none, some, List, [], ◌∷◌,
  ◌++◌, String, if◌then◌else◌, ltb, leb, ◌==◌, length, take,
}

abbrev pub source_budget : ℕ
source_budget = 6_000

abbrev pub max_sources : ℕ
max_sources = 8

abbrev pub max_doc_chars : ℕ
max_doc_chars = 2_000

pub record Doc : Type 0 where
  pub title : String
  pub link : String
  pub text : List ℕ
  pub always : Bool

-- `strings.LastIndexAny(s, ".\n")`.
pub later_of : Option ℕ → Bool → Option ℕ
later_of none here = if here then some 0 else none
later_of (some i) here = some (suc i)

unfoldable pub last_stop : List ℕ → Option ℕ
unfolding later_of
last_stop [] = none
last_stop (c ∷ s) = later_of (last_stop s) (c == b'.' || c == 10)

pub cut_at : List ℕ → Option ℕ → List ℕ
cut_at s none = s
cut_at s (some cut) = if ltb (max_doc_chars / 2) cut then take (cut + 1) s else s

module _ (trim_space : List ℕ → List ℕ) where
  pub trim_text : List ℕ → List ℕ
  unfolding cut_at
  trim_text s =
      if leb (length (trim_space s)) max_doc_chars
      then trim_space s
      else let head = take max_doc_chars (trim_space s) in cut_at head (last_stop head)

  -- `NewIndex`, but for the counts that the score is made of.
  pub new_index : List Doc → List Doc
  new_index [] = []
  new_index (d ∷ rest) = record d { text = trim_text d.text } ∷ new_index rest

abbrev size : Doc → ℕ
size d = length d.text

unfoldable pub used_by : List Doc → ℕ
used_by [] = 0
used_by (d ∷ rest) = length d.text + used_by rest

-- The two lists that the loop over the index fills.
unfoldable pub always_docs : List Doc → List Doc
always_docs [] = []
always_docs (d ∷ rest) = let later = always_docs rest in if d.always then d ∷ later else later

pub record Scored : Type 0 where
  pub doc : Doc
  pub score : ℕ

module _ (score : Doc → ℕ) where
  unfoldable pub scored_docs : List Doc → List Scored
  scored_docs [] = []
  scored_docs (d ∷ rest) =
      let later = scored_docs rest in
      if d.always
      then later
      else if ltb 0 (score d)
      then record { doc = d; score = score d } ∷ later
      else later

-- `sort.SliceStable`, higher scores first.
pub insert_scored : Scored → List Scored → List Scored
insert_scored x [] = x ∷ []
insert_scored x (y ∷ rest) = if ltb x.score y.score then y ∷ insert_scored x rest else x ∷ y ∷ rest

unfoldable pub sort_scored : List Scored → List Scored
unfolding insert_scored
sort_scored [] = []
sort_scored (x ∷ rest) = insert_scored x (sort_scored rest)

-- The loop over the ranked documents, with the number of sources and the characters so far.
unfoldable pub pick : ℕ → ℕ → List Scored → List Doc
pick n used [] = []
pick n used (r ∷ rest) =
    let skip = pick n used rest in
    let take_it = r.doc ∷ pick (n + 1) (used + length r.doc.text) rest in
    if leb max_sources n
    then []
    else if ltb source_budget (used + length r.doc.text)
    then skip
    else take_it

unfoldable pub retrieve : (Doc → ℕ) → List Doc → List Doc
retrieve score docs =
    always_docs docs
    ++ pick (length (always_docs docs)) (used_by (always_docs docs))
        (sort_scored (scored_docs score docs))
