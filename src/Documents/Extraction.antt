-- ===== src/Documents/Extraction.antt =====
-- How create-document.handler.ts and update-document.handler.ts of
-- src/modules/documents/application/commands fill a document from its attachments. What
-- `DocumentExtractorService` finds in one, if anything, and the calls of JavaScript's texts are arguments.
use Prim.Native.String.{◌++◌}
use collabai_backend.Prelude.{
  String, Bool, not, ◌||◌, Option, none, some, List, [], ◌∷◌, ◌=s=◌, if◌then◌else◌,
}
use collabai_backend.Projects.Entities.{TextOps}
use collabai_backend.Documents.Entities.{Attachment}

-- The regular expression for what a client writes when it uploads a file, and `includes` of the first
-- hundred characters.
pub record Extractor : Type 0 where
  pub extract : Attachment → Option String
  pub is_upload_note : String → Bool
  pub includes_start_of : String → String → Bool

module _ (text : TextOps) (extractor : Extractor) where
  abbrev is_placeholder : String → Bool
  is_placeholder content =
      content =s= "" || text.trim content =s= "" || extractor.is_upload_note (text.trim content)

  abbrev merged : String → Attachment → String → String → String
  merged title att found content =
      if is_placeholder content
      then "# " ++ title ++ "\n\n" ++ text.trim found
      else if not (extractor.includes_start_of content found)
      then text.trim content
        ++ "\n\n---\n### Extracted File Content ("
        ++ att.name
        ++ ")\n\n"
        ++ text.trim found
      else content

  abbrev merge_one : String → Attachment → Option String → String → String
  merge_one title att none content = content
  merge_one title att (some found) content =
      if text.trim found =s= "" then content else merged title att found content

  -- The loop over the attachments.
  unfoldable pub extract_all : String → List Attachment → String → String
  extract_all title [] content = content
  extract_all title (att ∷ atts) content =
      extract_all title atts (merge_one title att (extractor.extract att) content)
