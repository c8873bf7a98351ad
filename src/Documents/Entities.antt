-- ===== src/Documents/Entities.antt =====
-- src/modules/documents: document.entity.ts of domain/entities, document.repository.ts of
-- infrastructure/persistence and application/errors/document.errors.ts. A view is the document, without
-- the joined user.
use collabai_backend.Prelude.{
  ℕ, String, Bool, Option, none, some, or_else, List, [], ◌=s=◌, if◌then◌else◌,
}
use collabai_backend.Common.Uuid.{is_valid_uuid, uuid}
use collabai_backend.Prisma.{Table}
use collabai_backend.Projects.Entities.{TextOps}

pub record Attachment : Type 0 where
  pub id : String
  pub name : String
  pub size : ℕ
  pub media_type : String
  pub data_url : Option String
  pub uploaded_at : String

-- `DocumentProps`
pub record Document : Type 0 where
  pub id : String
  pub project_id : String
  pub title : String
  pub content : String
  pub attachments : List Attachment
  pub file_type : Option String
  pub created_by_id : String
  pub created_at : ℕ
  pub updated_at : ℕ

-- What an update may change.
pub record DocumentPatch : Type 0 where
  pub title : Option String
  pub content : Option String
  pub attachments : Option (List Attachment)
  -- `some none` is the null that takes the type away.
  pub file_type : Option (Option String)

pub data DocumentError : Type 0 where
  document_not_found document_forbidden view_only document_conflict database : DocumentError

module _ (text : TextOps) where
  -- `DocumentEntity.create`
  unfoldable pub create_document_entity :
      ℕ
      → String
      → String
      → String
      → String
      → Option (List Attachment)
      → Option String
      → String
      → Document
  create_document_entity now id project title content attachments file_type user = record {
    id = id;
    project_id = project;
    title = text.trim title;
    content = content;
    attachments = or_else attachments [];
    file_type = file_type;
    created_by_id = user;
    created_at = now;
    updated_at = now;
  }

  retitled : Option String → String → String
  retitled none old = old
  retitled (some new) old = text.trim new

  -- `DocumentEntity.update`
  unfoldable pub update_document_entity : ℕ → DocumentPatch → Document → Document
  unfolding retitled
  update_document_entity now patch d = record d {
    title = retitled patch.title d.title;
    content = or_else patch.content d.content;
    attachments = or_else patch.attachments d.attachments;
    file_type = or_else patch.file_type d.file_type;
    updated_at = now;
  }

-- id @id
abbrev pub same_document : Document → Document → Bool
same_document a b = a.id =s= b.id

abbrev pub document_key : String → Document → Bool
document_key id d = id =s= d.id

module _ (documents : Table Document same_document) where
  unfoldable pub find_document : String → documents.Contents → Option Document
  find_document id s =
      if is_valid_uuid id then documents.find_first (document_key (uuid id)) s else none

  unfoldable pub list_documents :
      (List Document → List Document) → String → documents.Contents → List Document
  list_documents by_updated_at project s =
      if is_valid_uuid project
      then by_updated_at (documents.find_many (λ d. d.project_id =s= uuid project) s)
      else []

  unfoldable pub create_document_row : Document → documents.Contents → Option documents.Contents
  create_document_row d s =
      documents.create
        (record d {
          id = uuid d.id;
          project_id = uuid d.project_id;
          created_by_id = uuid d.created_by_id;
        })
        s

  unfoldable pub update_document_row : Document → documents.Contents → Option documents.Contents
  update_document_row d s =
      documents.update (document_key (uuid d.id))
        (λ r. record r {
          title = d.title;
          content = d.content;
          attachments = d.attachments;
          file_type = d.file_type;
          updated_at = d.updated_at;
        })
        s

  unfoldable pub delete_document_row : String → documents.Contents → Option documents.Contents
  delete_document_row id s =
      if is_valid_uuid id then documents.delete (document_key (uuid id)) s else some s
