-- ===== src/Documents/Tests/Editing.antt =====
-- Ann and Bob have both read the document, which was changed last at 1200.
use collabai_backend.Prelude.{
  ◌≡◌, refl, ℕ, ◌/◌, String, true, false, Option, none, some, ok, err, [], ◌∷◌, ◌=s=◌,
}
use collabai_backend.Common.Uuid.{is_valid_uuid, uuid}
use collabai_backend.Prisma.{Table}
use collabai_backend.Prisma.Memory.{memory, same_text-shared}
use collabai_backend.Projects.Role.{member, can_write_content}
use collabai_backend.Projects.Entities.{TextOps, ProjectMember}
use collabai_backend.Documents.Entities.{
  Document, DocumentPatch, DocumentError, same_document, update_document_entity, find_document,
  update_document_row,
}
use collabai_backend.Documents.Extraction.{Extractor}
use collabai_backend.Documents.Handlers.{
  DocumentWorld, document_updated, check_writer, check_version, with_content, update_document,
}
use collabai_backend.Documents.Versions.{update_document-stale, update_document-same_second}

abbrev documents : Table Document same_document
documents = memory same_document (λ r x y. same_text-shared r.id x.id y.id)

abbrev plain : TextOps
plain = record { trim = λ s. s; to_lower = λ s. s }

abbrev extractor : Extractor
extractor = record {
  extract = λ a. none;
  is_upload_note = λ s. false;
  includes_start_of = λ s t. false;
}

abbrev membership : String → String → Option ProjectMember
membership project user = some record {
  id = user;
  project_id = project;
  user_id = user;
  role = member;
  invited_by = none;
  joined_at = none;
  is_active = true;
}

abbrev one : String
one = "10000000-0000-4000-8000-000000000001"

abbrev saved_as : String → ℕ → Document
saved_as content time = record {
  id = one;
  project_id = "p";
  title = "Notes";
  content = content;
  attachments = [];
  file_type = none;
  created_by_id = "ann";
  created_at = 1;
  updated_at = time;
}

abbrev saying : String → DocumentPatch
saying content = record {
  title = none;
  content = some content;
  attachments = none;
  file_type = none;
}

abbrev before : DocumentWorld documents plain extractor membership
unfolding memory
before = record { rows = (saved_as "old" 1200 ∷ [], refl); events = [] }

abbrev after : ℕ → DocumentWorld documents plain extractor membership
unfolding memory
after time = record {
  rows = (saved_as "ann's" time ∷ [], refl);
  events = document_updated (saved_as "ann's" time) "ann" ∷ [];
}

there : find_document documents one before.rows ≡ some (saved_as "old" 1200)
unfolding find_document before memory is_valid_uuid uuid ◌=s=◌
there = refl

saved_late :
    update_document documents plain extractor membership 2500 "ann" one
      (saying "ann's")
      (some 1)
      before
    ≡ (ok (saved_as "ann's" 2500), after 2500)
unfolding update_document check_writer check_version with_content update_document_entity
    find_document update_document_row can_write_content before after memory is_valid_uuid uuid ◌=s=◌
saved_late = refl

saved_soon :
    update_document documents plain extractor membership 1700 "ann" one
      (saying "ann's")
      (some 1)
      before
    ≡ (ok (saved_as "ann's" 1700), after 1700)
unfolding update_document check_writer check_version with_content update_document_entity
    find_document update_document_row can_write_content before after memory is_valid_uuid uuid ◌=s=◌
saved_soon = refl

update_document-stale_example :
    (e : DocumentError) × (update_document documents plain extractor membership 2600 "bob" one
        (saying "bob's")
        (some (1200 / 1000))
        (after 2500)
      ≡ (err e, after 2500))
update_document-stale_example =
    update_document-stale documents plain extractor membership 2500 2600 "ann" "bob" one
      (saying "ann's") (saying "bob's") (some 1) (saved_as "old" 1200) (saved_as "ann's" 2500)
      before (after 2500) there saved_late refl

update_document-same_second_example :
    update_document documents plain extractor membership 1800 "bob" one
      (saying "bob's")
      (some (1200 / 1000))
      (after 1700)
    ≡ update_document documents plain extractor membership 1800 "bob" one
        (saying "bob's")
        none
        (after 1700)
update_document-same_second_example =
    update_document-same_second documents plain extractor membership 1700 1800 "ann" "bob" one
      (saying "ann's") (saying "bob's") (some 1) (saved_as "old" 1200) (saved_as "ann's" 1700)
      before (after 1700) there saved_soon refl
