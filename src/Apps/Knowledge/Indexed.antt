-- ===== src/Apps/Knowledge/Indexed.antt =====
-- What a source serves, however its fetches go.
use home_inference_server.Prelude.{
  ℕ, suc, ◌+◌, ◌≤◌, ◌<◌, true, false, Option, none, some, List, [], ◌∷◌, String, str_eq_iff, ltb,
  ◌==◌, length, take, length-of_take, take_all, All, All-own, ◌≡◌, refl, ap, ◌≢◌, inl, inr, arith,
  Bool-cases, At,
}
use home_inference_server.Prelude.Int.{ℤ, pos, negsuc, eqb_ℤ}
use home_inference_server.Apps.Retrieve.{Doc, max_doc_chars, new_index}
use home_inference_server.Apps.Retrieve.Trimmed.{new_index-All, length-new_index}
use home_inference_server.Apps.Knowledge.{
  Document, Knowledge, KnowledgeError, is_incomplete, is_seen, documents_error, validate,
  max_knowledge_bytes, Fetch, no_response, response, RefreshError, Source, docs_of, indexed,
  decoded, read_body, refresh, new_source, run_source,
}

abbrev pub IsComplete : Document → Type 0
IsComplete d = (d.id ≢ "") × (d.title ≢ "") × (0 < length d.text)

-- No two documents have the same id.
abbrev pub HaveOwnIds : List Document → Type 0
HaveOwnIds [] = Unit {0}
HaveOwnIds (d ∷ rest) = All (λ (e : Document). e.id ≢ d.id) rest × HaveOwnIds rest

pub record IsKnowledge (k : Knowledge) : Type 0 where
  pub version : k.version ≡ pos 1
  pub some_documents : 0 < length k.documents
  pub complete : All IsComplete k.documents
  pub own_ids : HaveOwnIds k.documents

is_incomplete-IsComplete : (d : Document) → is_incomplete d ≡ false → IsComplete d
unfolding is_incomplete
is_incomplete-IsComplete d h = (
  λ e. ground (arith, str_eq_iff d.id ""),
  λ e. ground (arith, str_eq_iff d.title ""),
  ground arith,
)

-- An accepted list: each document is complete, and its id is neither among those seen nor repeated.
record Accepted (seen : List String) (ds : List Document) : Type 0 where
  complete : All IsComplete ds
  own_ids : HaveOwnIds ds
  unseen : All (λ (d : Document). is_seen d.id seen ≡ false) ds

unseen_later :
    (id : String) (seen : List String) (d : Document)
    → is_seen d.id (id ∷ seen) ≡ false
    → (d.id ≢ id) × (is_seen d.id seen ≡ false)
unfolding is_seen
unseen_later id seen d h = (λ e. ground (arith, str_eq_iff id d.id), ground arith)

split_unseen :
    (id : String) (seen : List String) (ds : List Document)
    → All (λ (d : Document). is_seen d.id (id ∷ seen) ≡ false) ds
    → All (λ (d : Document). d.id ≢ id) ds × All (λ (d : Document). is_seen d.id seen ≡ false) ds
split_unseen id seen [] a = (tt, tt)
split_unseen id seen (d ∷ ds) a =
    let (other, free) = unseen_later id seen d a.0 in
    let (others, frees) = split_unseen id seen ds a.1 in ((other, others), (free, frees))

documents-Accepted :
    (seen : List String) (i : ℕ) (ds : List Document)
    → documents_error seen i ds ≡ none
    → Accepted seen ds
unfolding documents_error
documents-Accepted seen i [] h = record { complete = tt; own_ids = tt; unseen = tt }
documents-Accepted seen i (d ∷ ds) h = elim (Bool-cases (is_incomplete d)) [
  | inl bad ↦ absurd (ground arith)
  | inr good ↦ elim (Bool-cases (is_seen d.id seen)) [
    | inl old ↦ absurd (ground arith)
    | inr new ↦
        let a = documents-Accepted (d.id ∷ seen) (suc i) ds (rw (good, new) at h) in
        let (others, frees) = split_unseen d.id seen ds a.unseen in
        record {
          complete = (is_incomplete-IsComplete d good, a.complete);
          own_ids = (others, a.own_ids);
          unseen = (new, frees);
        }
  ]
]

version_one : (z : ℤ) → eqb_ℤ z (pos 1) ≡ true → z ≡ pos 1
version_one (pos n) h = ap pos (ground arith)
version_one (negsuc n) h = absurd (ground arith)

validate-IsKnowledge : (k : Knowledge) → validate k ≡ none → IsKnowledge k
unfolding validate
validate-IsKnowledge k h = elim (Bool-cases (eqb_ℤ k.version (pos 1))) [
  | inr other ↦ absurd (ground arith)
  | inl first ↦ elim (Bool-cases (length k.documents == 0)) [
    | inl nothing ↦ absurd (ground arith)
    | inr something ↦
        let a = documents-Accepted [] 0 k.documents (rw (first, something) at h) in
        record {
          version = version_one k.version first;
          some_documents = ground arith;
          complete = a.complete;
          own_ids = a.own_ids;
        }
  ]
]

module _ (trim_space : List ℕ → List ℕ) (decode : List ℕ → Option Knowledge) where
  -- The index is made of a valid file that a fetch has brought.
  pub record IsIndexed (f : Fetch) (docs : List Doc) : Type 0 where
    pub body : List ℕ
    pub file : Knowledge
    pub brought : f ≡ response 200 (some body)
    pub within : length body ≤ max_knowledge_bytes
    pub read : decode body ≡ some file
    pub valid : IsKnowledge file
    pub made : docs ≡ new_index trim_space (docs_of file.documents)
    pub trimmed : All (λ (d : Doc). length d.text ≤ max_doc_chars) docs
    pub not_empty : 0 < length docs

  -- A refresh either fails and keeps the index, or replaces it by the index of what it brought.
  pub data Refreshed (f : Fetch) (s : Source) (o : Option RefreshError × Source) : Type 0 where
    kept : (e : RefreshError) → o.0 ≡ some e → o.1 ≡ s → Refreshed f s o
    replaced :
        (docs : List Doc) → o.0 ≡ none → o.1.index ≡ some docs → IsIndexed f docs → Refreshed f s o

  length-docs_of : (ds : List Document) → length (docs_of ds) ≡ length ds
  unfolding docs_of
  length-docs_of [] = omega arith
  length-docs_of (d ∷ ds) = omega (arith, length-docs_of ds)

  indexed-Refreshed :
      (f : Fetch) (s : Source) (body : List ℕ) (k : Knowledge) (e : Option KnowledgeError)
      → f ≡ response 200 (some body)
      → length body ≤ max_knowledge_bytes
      → decode body ≡ some k
      → validate k ≡ e
      → Refreshed f s (indexed trim_space decode k e s)
  unfolding indexed
  indexed-Refreshed f s body k (some e) brought within read h = kept _ refl refl
  indexed-Refreshed f s body k none brought within read h =
      let valid = validate-IsKnowledge k h in
      replaced _ refl refl (record {
        body = body;
        file = k;
        brought = brought;
        within = within;
        read = read;
        valid = valid;
        made = refl;
        trimmed = new_index-All trim_space (docs_of k.documents);
        not_empty = omega (
          arith,
          valid.some_documents,
          length-docs_of k.documents,
          length-new_index trim_space (docs_of k.documents),
        );
      })

  decoded-Refreshed :
      (f : Fetch) (s : Source) (body : List ℕ) (o : Option Knowledge)
      → f ≡ response 200 (some body)
      → length body ≤ max_knowledge_bytes
      → decode body ≡ o
      → Refreshed f s (decoded trim_space decode o s)
  unfolding decoded
  decoded-Refreshed f s body none brought within read = kept _ refl refl
  decoded-Refreshed f s body (some k) brought within read =
      indexed-Refreshed f s body k (validate k) brought within read refl

  ltb-false : (a b : ℕ) → ltb a b ≡ false → b ≤ a
  ltb-false a b h = ground arith

  read_body-Refreshed :
      (f : Fetch) (s : Source) (o : Option (List ℕ))
      → f ≡ response 200 o
      → Refreshed f s (read_body trim_space decode o s)
  unfolding read_body
  read_body-Refreshed f s none brought = kept _ refl refl
  read_body-Refreshed f s (some body) brought =
      elim (Bool-cases (ltb max_knowledge_bytes (length (take (max_knowledge_bytes + 1) body)))) [
        | inl large ↦ rw large (kept _ refl refl)
        | inr small ↦
            let few =
              ltb-false max_knowledge_bytes (length (take (max_knowledge_bytes + 1) body)) small in
            let within = length-of_take max_knowledge_bytes body few in
            let same = take_all (max_knowledge_bytes + 1) body (omega (arith, within)) in
            rw (small, same) (decoded-Refreshed f s body (decode body) brought within refl)
      ]

  same_status : (n : ℕ) → (n == 200) ≡ true → n ≡ 200
  same_status n h = ground arith

  refresh-Refreshed : (f : Fetch) (s : Source) → Refreshed f s (refresh trim_space decode f s)
  unfolding refresh
  refresh-Refreshed no_response s = kept _ refl refl
  refresh-Refreshed (response status body) s = elim (Bool-cases (status == 200)) [
    | inl fine ↦ rw fine (
        read_body-Refreshed (response status body) s body
          (ap (λ n. response n body) (same_status status fine)))
    | inr other ↦ rw other (kept _ refl refl)
  ]

  -- What a source serves comes from a fetch of which `P` holds.
  pub data Served (P : Fetch → Type 0) (s : Source) : Type 0 where
    nothing_yet : s.index ≡ none → Served P s
    since :
        (f : Fetch) (docs : List Doc) → P f → s.index ≡ some docs → IsIndexed f docs → Served P s

  refreshed-Served :
      (P : Fetch → Type 0) (f : Fetch) (s : Source) (o : Option RefreshError × Source)
      → P f
      → Refreshed f s o
      → Served P s
      → Served P o.1
  refreshed-Served P f s o p (kept e failed same) v = rw same v
  refreshed-Served P f s o p (replaced docs fine index made) v = since f docs p index made

  run-Served :
      (P : Fetch → Type 0) (fs : List Fetch) (s : Source)
      → All P fs
      → Served P s
      → Served P (run_source trim_space decode fs s)
  unfolding run_source
  run-Served P [] s a v = v
  run-Served P (f ∷ fs) s a v =
      run-Served P fs (refresh trim_space decode f s).1 a.1
        (refreshed-Served P f s _ a.0 (refresh-Refreshed f s) v)

  -- However the fetches of a knowledge file go, a source serves nothing until one has brought a valid file
  -- and then the index of such a file, one of those that were fetched: of version 1, with at least one
  -- document, each with an id of its own, a title and a text, from a 200 of at most 512 KiB, the texts
  -- trimmed to at most 2000 bytes. The next fetch either fails and leaves all as it is, or puts the index of
  -- what it brought in place.
  pub run_source-Served :
      (fs : List Fetch) (f : Fetch)
      → Served (λ g. At g fs) (run_source trim_space decode fs new_source)
        × Refreshed f
            (run_source trim_space decode fs new_source)
            (refresh trim_space decode f (run_source trim_space decode fs new_source))
  unfolding new_source
  run_source-Served fs f = (
    run-Served (λ g. At g fs) fs new_source (All-own fs) (nothing_yet refl),
    refresh-Refreshed f (run_source trim_space decode fs new_source),
  )
