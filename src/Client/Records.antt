-- ===== src/Client/Records.antt =====
-- src/ntulearn_skill/client/contracts.py: sessions, pages, and the records that a source returns.
use ntulearn_skill.Prelude.{
  ltb, leb, ◌==◌, all, codes, text_length, value_error, Result, ok, raise_if, ◌>>◌, ℕ, String, Bool,
  true, ◌&&◌, ◌||◌, not, Option, none, some, List,
}
use ntulearn_skill.Core.Models.{Availability, Coverage, DateTime}
use ntulearn_skill.Core.Identifiers.{CourseId, ContentId, AttachmentId}
use ntulearn_skill.Prelude.Json.{JsonFields, ℤ}

pub data ReadPurpose : Type 0 where
  discovery content resource_metadata resource_stream : ReadPurpose
  announcements assessments schedule due_items : ReadPurpose

-- `marker` names the authorization context.
pub record AuthorizedReadSession : Type 0 where
  pub provider : String
  pub purposes : List ReadPurpose
  pub marker : ℕ

pub record PageRequest : Type 0 where
  pub cursor : Option String
  pub page_size : ℕ

-- A cursor is a non-empty ASCII text of at most 256 characters.
unfoldable pub is_cursor : String → Bool
is_cursor s = ltb 0 (text_length s) && all (λ c. ltb c 128) (codes s) && leb (text_length s) 256

abbrev pub no_cursor_or : Option String → Bool
no_cursor_or none = true
no_cursor_or (some s) = is_cursor s

-- The constructor, with the checks of `__post_init__`.
unfoldable pub make_page_request : Option String → ℕ → Result PageRequest
make_page_request cursor page_size = do
  raise_if (page_size == 0 || ltb 1000 page_size)
      (value_error "page_size must be between 1 and 1000")
  raise_if (not (no_cursor_or cursor)) (value_error "cursor must be a non-empty ASCII value")
  ok (record { cursor = cursor; page_size = page_size })

pub record Page (A : Type 0) : Type 0 where
  pub items : List A
  pub next_cursor : Option String
  pub coverage_for_page : Coverage

pub record CourseSourceRecord : Type 0 where
  pub remote_id : CourseId
  pub code : String
  pub title : String
  pub term : Option String
  pub availability : Availability

pub record ResourceMetadataRecord : Type 0 where
  pub remote_id : AttachmentId
  pub content_id : ContentId
  pub display_title : String
  pub original_filename : String
  pub declared_mime : Option String
  pub candidate_modified_at : Option DateTime

pub record ContentSourceRecord : Type 0 where
  pub remote_id : ContentId
  pub course_id : CourseId
  pub parent_id : Option ContentId
  pub handler_kind : String
  pub title : String
  pub position : ℤ
  pub availability : Availability
  pub is_container : Bool
  pub sanitized_metadata : JsonFields
  pub resources : List ResourceMetadataRecord
