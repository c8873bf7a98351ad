-- ===== src/Documents/Handlers.antt =====
-- The handlers of src/modules/documents/application, over the table of documents. The membership of a
-- user in a project, as `findMembership` gives it, is an argument.
use collabai_backend.Prelude.{
  ℕ, ◌/◌, String, Bool, not, ◌==◌, Option, none, some, or_else, truthy, List, [], ◌∷◌, ◌++◌,
  if◌then◌else◌, Result, ok, err, Action, ◌>>=◌, ◌>>◌, pure,
}
use Prim.Native.String as Text
use collabai_backend.Prisma.{Table}
use collabai_backend.Projects.Role.{can_write_content}
use collabai_backend.Projects.Entities.{TextOps, ProjectMember}
use collabai_backend.Documents.Entities.{
  Document, DocumentPatch, Attachment, DocumentError, document_not_found, document_forbidden,
  view_only, document_conflict, database, same_document, create_document_entity,
  update_document_entity, find_document, list_documents, create_document_row, update_document_row,
  delete_document_row,
}
use collabai_backend.Documents.Extraction.{Extractor, extract_all}

pub data DocumentEvent : Type 0 where
  document_created document_updated : Document → String → DocumentEvent
  document_deleted : String → String → String → String → DocumentEvent

module _ (documents : Table Document same_document) (text : TextOps) (extractor : Extractor)
    (find_membership : String → String → Option ProjectMember) where
  pub record DocumentWorld : Type 0 where
    pub rows : documents.Contents
    pub events : List DocumentEvent

  abbrev pub Handler : Type 0 → Type 0
  Handler A = Action DocumentWorld DocumentError A

  abbrev fetch : String → Handler Document
  fetch id w = elim (find_document documents id w.rows) [
    | none ↦ (err document_not_found, w)
    | some d ↦ (ok d, w)
  ]

  abbrev look : {A : Type 0} → (documents.Contents → A) → Handler A
  look f w = (ok (f w.rows), w)

  abbrev save : (documents.Contents → Option documents.Contents) → Handler (Unit {0})
  save f w = elim (f w.rows) [
    | none ↦ (err database, w)
    | some rows ↦ (ok tt, record w { rows = rows })
  ]

  abbrev emit : DocumentEvent → Handler (Unit {0})
  emit e w = (ok tt, record w { events = w.events ++ e ∷ [] })

  -- The checks that the handlers begin with.
  unfoldable pub check_member : Option ProjectMember → Result DocumentError ProjectMember
  check_member none = err document_forbidden
  check_member (some m) = if m.is_active then ok m else err document_forbidden

  unfoldable pub check_writer : Option ProjectMember → Result DocumentError (Unit {0})
  check_writer none = err document_forbidden
  check_writer (some m) =
      if not m.is_active
      then err document_forbidden
      else if not (can_write_content m.role)
      then err view_only
      else ok tt

  abbrev demand : {A : Type 0} → Result DocumentError A → Handler A
  demand r w = (r, w)

  -- The version that a client names: the second of the last change.
  abbrev pub version : Document → ℕ
  version d = d.updated_at / 1000

  unfoldable pub check_version : Option ℕ → Document → Result DocumentError (Unit {0})
  check_version none d = ok tt
  check_version (some v) d = if v == version d then ok tt else err document_conflict

  -- The content, where attachments are given.
  unfoldable pub with_content : DocumentPatch → Document → DocumentPatch
  with_content patch d = elim (or_else patch.attachments []) [
    | [] ↦ patch
    | a ∷ others ↦ record patch {
      content = some (
          extract_all text extractor (or_else patch.title d.title) (a ∷ others)
            (or_else patch.content d.content));
    }
  ]

  -- `UpdateDocumentHandler.execute`
  unfoldable pub update_document : ℕ → String → String → DocumentPatch → Option ℕ → Handler Document
  unfolding check_version with_content
  update_document now user id patch expected = do
    d ← fetch id
    demand (check_writer (find_membership d.project_id user))
    demand (check_version expected d)
    let changed = update_document_entity text now (with_content patch d) d
    save (update_document_row documents changed)
    view ← fetch d.id
    emit (document_updated view user)
    pure view

  -- `DeleteDocumentHandler.execute`
  unfoldable pub delete_document : String → String → Handler (Unit {0})
  delete_document user id = do
    d ← fetch id
    demand (check_writer (find_membership d.project_id user))
    save (delete_document_row documents id)
    emit (document_deleted id d.project_id user d.title)

  first_name : List Attachment → Option String
  first_name [] = none
  first_name (a ∷ rest) = some a.name

  abbrev named_by_type : Option String → String
  named_by_type none = "Untitled document"
  named_by_type (some t) = Text.◌++◌ "Document." t

  abbrev trimmed : Option String → Option String
  trimmed none = none
  trimmed (some t) = truthy (some (text.trim t))

  -- `derivedTitle`
  unfoldable pub derived_title : Option String → List Attachment → Option String → String
  unfolding first_name truthy
  derived_title title attachments file_type =
      or_else (trimmed title)
        (or_else (truthy (first_name attachments)) (named_by_type (truthy file_type)))

  -- `CreateDocumentHandler.execute`
  unfoldable pub create_document :
      ℕ
      → String
      → String
      → String
      → Option String
      → Option String
      → Option (List Attachment)
      → Option String
      → Handler Document
  create_document now fresh user project title content attachments file_type = do
    demand (check_writer (find_membership project user))
    let name = derived_title title (or_else attachments []) file_type
    let body = extract_all text extractor name (or_else attachments []) (or_else content "")
    let d = create_document_entity text now fresh project name body attachments file_type user
    save (create_document_row documents d)
    view ← fetch d.id
    emit (document_created view user)
    pure view

  -- `GetDocumentHandler.execute`: the document, and may the user edit it?
  unfoldable pub get_document : String → String → Handler (Document × Bool)
  get_document user id = do
    d ← fetch id
    m ← demand (check_member (find_membership d.project_id user))
    pure (d, can_write_content m.role)

  -- `GetDocumentsHandler.execute`
  unfoldable pub get_documents :
      (List Document → List Document) → String → String → Handler (List Document)
  get_documents by_updated_at user project = do
    m ← demand (check_member (find_membership project user))
    look (list_documents documents by_updated_at project)
