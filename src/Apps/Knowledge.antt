-- ===== src/Apps/Knowledge.antt =====
-- internal/apps/knowledge.go: the knowledge file of an app, checked, fetched and indexed.
--
-- A body and a text are bytes. The HTTP exchange is a `Fetch`, and `json.Unmarshal` an argument. The lock
-- and the channel that tells of the first attempt are left out.
pub mod Indexed
use home_inference_server.Prelude.{
  ℕ, suc, ◌+◌, ◌*◌, Bool, true, false, ◌||◌, not, Option, none, some, List, [], ◌∷◌, String, str_eq,
  if◌then◌else◌, ltb, ◌==◌, length, take,
}
use home_inference_server.Prelude.Int.{ℤ, pos, eqb_ℤ}
use home_inference_server.Apps.Retrieve.{Doc, new_index}

pub record Document : Type 0 where
  pub id : String
  pub title : String
  pub link : String
  pub text : List ℕ
  pub always : Bool

pub record Knowledge : Type 0 where
  pub version : ℤ
  pub documents : List Document

pub data KnowledgeError : Type 0 where
  unsupported_version : ℤ → KnowledgeError
  no_documents : KnowledgeError
  incomplete : ℕ → KnowledgeError
  repeated : String → KnowledgeError

pub is_incomplete : Document → Bool
is_incomplete d = str_eq d.id "" || str_eq d.title "" || length d.text == 0

pub is_seen : String → List String → Bool
is_seen id [] = false
is_seen id (s ∷ seen) = str_eq s id || is_seen id seen

-- The loop over the documents, with the ids that it has seen and the number of the next.
pub documents_error : List String → ℕ → List Document → Option KnowledgeError
documents_error seen i [] = none
documents_error seen i (d ∷ rest) =
    let later = documents_error (d.id ∷ seen) (suc i) rest in
    if is_incomplete d
    then some (incomplete i)
    else if is_seen d.id seen
    then some (repeated d.id)
    else later

-- `none`: the knowledge is valid.
unfoldable pub validate : Knowledge → Option KnowledgeError
unfolding is_incomplete is_seen documents_error
validate k =
    if not (eqb_ℤ k.version (pos 1))
    then some (unsupported_version k.version)
    else if length k.documents == 0
    then some no_documents
    else documents_error [] 0 k.documents

abbrev pub max_knowledge_bytes : ℕ
max_knowledge_bytes = 512 * 1_024

-- What one exchange comes to: no response, or a status with a body that can be read or not.
pub data Fetch : Type 0 where
  no_response : Fetch
  response : ℕ → Option (List ℕ) → Fetch

pub data RefreshError : Type 0 where
  fetch_failed unreadable too_large not_json : RefreshError
  bad_status : ℕ → RefreshError
  invalid : KnowledgeError → RefreshError

-- The index is `none` until a fetch has succeeded. It is the list of the documents; what the score is made
-- of is left out.
pub record Source : Type 0 where
  pub index : Option (List Doc)

pub new_source : Source
new_source = record { index = none }

pub docs_of : List Document → List Doc
docs_of [] = []
docs_of (d ∷ rest) =
    record { title = d.title; link = d.link; text = d.text; always = d.always } ∷ docs_of rest

module _ (trim_space : List ℕ → List ℕ) (decode : List ℕ → Option Knowledge) where
  indexed : Knowledge → Option KnowledgeError → Source → Option RefreshError × Source
  unfolding docs_of
  indexed k (some e) s = (some (invalid e), s)
  indexed k none s = (none, record { index = some (new_index trim_space (docs_of k.documents)) })

  decoded : Option Knowledge → Source → Option RefreshError × Source
  unfolding indexed
  decoded none s = (some not_json, s)
  decoded (some k) s = indexed k (validate k) s

  -- The reader stops one byte past the maximum.
  read_body : Option (List ℕ) → Source → Option RefreshError × Source
  unfolding decoded
  read_body none s = (some unreadable, s)
  read_body (some body) s =
      let seen = take (max_knowledge_bytes + 1) body in
      if ltb max_knowledge_bytes (length seen) then (some too_large, s) else decoded (decode seen) s

  pub refresh : Fetch → Source → Option RefreshError × Source
  unfolding read_body
  refresh no_response s = (some fetch_failed, s)
  refresh (response status body) s =
      if not (status == 200) then (some (bad_status status), s) else read_body body s

  -- `Run`: one refresh at once and one for each tick, whose errors are logged.
  pub run_source : List Fetch → Source → Source
  run_source [] s = s
  run_source (f ∷ rest) s = run_source rest (refresh f s).1
