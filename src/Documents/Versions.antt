-- ===== src/Documents/Versions.antt =====
-- What the version that a client names protects: update-document.handler.ts of
-- src/modules/documents/application/commands.
use collabai_backend.Prelude.{
  ℕ, ◌/◌, ◌≡◌, inl, inr, refl, sym, String, true, false, ◌==◌, Option, none, some, ok, err, find?,
  find?-eq-some, find?-update_if_self, update_if, arith, same_text, Option-cases, Result-cases,
}
use collabai_backend.Common.Uuid.{is_valid_uuid, uuid, uuid-uuid, is_valid_uuid-uuid}
use collabai_backend.Prisma.{Table}
use collabai_backend.Projects.Entities.{TextOps, ProjectMember}
use collabai_backend.Documents.Entities.{
  Document, DocumentPatch, DocumentError, document_conflict, same_document, document_key,
  update_document_entity, find_document, update_document_row,
}
use collabai_backend.Documents.Extraction.{Extractor}
use collabai_backend.Documents.Handlers.{
  DocumentWorld, check_writer, check_version, with_content, update_document,
}

-- What `update_document_row` makes of a row.
abbrev written_over : Document → Document → Document
written_over d r = record r {
  title = d.title;
  content = d.content;
  attachments = d.attachments;
  file_type = d.file_type;
  updated_at = d.updated_at;
}

module _ (documents : Table Document same_document) where
  -- A row that is written over is found with the time of the change.
  update-find :
      (id : String) (d new : Document) (s s' : documents.Contents)
      → find_document documents id s ≡ some d
      → new.id ≡ d.id
      → update_document_row documents new s ≡ some s'
      → (found : Document) × (find_document documents id s' ≡ some found)
        × (found.updated_at ≡ new.updated_at)
        × (found.project_id ≡ d.project_id)
        × (found.id ≡ d.id)
  unfolding find_document update_document_row
  update-find id d new s s' found same made =
      let valid : is_valid_uuid id ≡ true = ground arith in
      let there : find? (document_key (uuid id)) (documents.rows s) ≡ some d =
        ground (arith, documents.find_first_rows (document_key (uuid id)) s) in
      let key : uuid id ≡ d.id = ground (
        arith,
        find?-eq-some (document_key (uuid id)) (documents.rows s) d,
        same_text (uuid id) d.id,
      ) in
      let key' : uuid new.id ≡ uuid id = ground (arith, uuid-uuid id) in
      let f = written_over new in
      let own : is_valid_uuid new.id ≡ true = ground (arith, is_valid_uuid-uuid id) in
      let made' : documents.update (document_key (uuid id)) f s ≡ some s' =
        rw (sym key') (ground arith) in
      let rows_after : documents.rows s' ≡ update_if (document_key (uuid id)) f (documents.rows s) =
        documents.update_rows (document_key (uuid id)) f s s' made' in
      let after =
        find?-update_if_self (document_key (uuid id)) f (documents.rows s) d (λ y k. k) there in
      (f d, ground (arith, documents.find_first_rows (document_key (uuid id)) s'), refl, refl, refl)

module _ (documents : Table Document same_document) (text : TextOps) (extractor : Extractor)
    (find_membership : String → String → Option ProjectMember) where
  update-changes :
      (now : ℕ) (user id : String) (patch : DocumentPatch) (expected : Option ℕ) (d view : Document)
      (w w' : DocumentWorld documents text extractor find_membership)
      → find_document documents id w.rows ≡ some d
      → update_document documents text extractor find_membership now user id patch expected w
        ≡ (ok view, w')
      → (found : Document) × (find_document documents id w'.rows ≡ some found)
        × (found.updated_at ≡ now)
  unfolding update_document update_document_entity
  update-changes now user id patch expected d view w w' found done =
      let filled = with_content documents text extractor find_membership patch d in
      let changed = update_document_entity text now filled d in
      elim (Option-cases (update_document_row documents changed w.rows)) [
        | inl refused ↦ absurd (ground arith)
        | inr (rows, made) ↦
            let (new, there, when, of_project, under) =
              update-find documents id d changed w.rows rows found refl made in
            let kept : w'.rows ≡ rows = ground arith in (new, rw kept there, when)
      ]

  -- Two users read the same document. When one of them has changed it, in a later second, an update of
  -- the other's that names the version which both have read is an error, and the documents and the events
  -- stay as they are.
  pub update_document-stale :
      (now later : ℕ) (first second id : String) (patch patch' : DocumentPatch)
      (expected : Option ℕ) (d view : Document)
      (w w' : DocumentWorld documents text extractor find_membership)
      → find_document documents id w.rows ≡ some d
      → update_document documents text extractor find_membership now first id patch expected w
        ≡ (ok view, w')
      → (now / 1000 == d.updated_at / 1000) ≡ false
      → (e : DocumentError) × (update_document documents text extractor find_membership later second
            id patch'
            (some (d.updated_at / 1000))
            w'
          ≡ (err e, w'))
  unfolding update_document check_version
  update_document-stale now later first second id patch patch' expected d view w w' found done
        moved =
      let (new, there, when) = update-changes now first id patch expected d view w w' found done in
      elim (Result-cases (
        check_writer documents text extractor find_membership
          (find_membership new.project_id second))) [
            | inl (x, may) ↦ (document_conflict, ground arith)
            | inr (e, refused) ↦ (e, ground arith)
          ]

  -- Two users read the same document. When one of them has changed it, within the second of the change
  -- before, an update of the other's that names the version which both have read does what an update
  -- without a version does.
  pub update_document-same_second :
      (now later : ℕ) (first second id : String) (patch patch' : DocumentPatch)
      (expected : Option ℕ) (d view : Document)
      (w w' : DocumentWorld documents text extractor find_membership)
      → find_document documents id w.rows ≡ some d
      → update_document documents text extractor find_membership now first id patch expected w
        ≡ (ok view, w')
      → (now / 1000 == d.updated_at / 1000) ≡ true
      → update_document documents text extractor find_membership later second id patch'
          (some (d.updated_at / 1000))
          w'
        ≡ update_document documents text extractor find_membership later second id patch' none w'
  unfolding update_document check_version
  update_document-same_second now later first second id patch patch' expected d view w w' found done
        same =
      let (new, there, when) = update-changes now first id patch expected d view w w' found done in
      let passes : (d.updated_at / 1000 == new.updated_at / 1000) ≡ true = ground arith in
      elim (Result-cases (
        check_writer documents text extractor find_membership
          (find_membership new.project_id second))) [
            | inl (x, may) ↦ ground arith
            | inr (e, refused) ↦ ground arith
          ]
