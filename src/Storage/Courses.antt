-- ===== src/Storage/Courses.antt =====
-- src/ntulearn_skill/storage/repository.py: the rows of courses, with `put_course` and `get_course`. A
-- row holds the remote identity that its source object stands for.
pub mod Order
pub mod Writes
mod Tests
use ntulearn_skill.Prelude.{
  ltb, leb, ◌==◌, if◌then◌else◌, is_none, is_some, opt_eq, Bool-cases, Option-cases, length, any,
  all, count_if, All, length-append, append_nil, append_assoc, any-append, All-imp, All-both,
  All-append, contains, codes, text_length, is_space, is_blank, one_of, Error, type_error,
  value_error, assertion_error, storage_error, local_job_error, local_job_contract_mismatch,
  other_error, Result, err, ok, raise_if, ◌>>=◌, ◌>>◌, >>=-returns, Result-cases, ℕ, zero, suc, ◌+◌,
  ◌-◌, ◌*◌, ◌/◌, ◌%◌, ◌≤◌, ◌<◌, String, ◌≡◌, refl, sym, ap, ◌∙◌, ◌≢◌, ◌↔◌, ◌⊎◌, inl, inr, Bool,
  true, false, ◌&&◌, ◌||◌, not, Option, none, some, List, [], ◌∷◌, ◌++◌, map, arith, ◌==ₛ◌, eq_iff,
}
use ntulearn_skill.Core.Models.{
  Availability, Coverage, SyncRunStatus, ObservationStatus, FetchDecision, is_complete, Instant,
  Duration, DateTime, to_storage_time, from_storage_time,
}
use ntulearn_skill.Core.Identifiers.{
  RemoteId, CourseId, ContentId, AttachmentId, make_remote_id, same_id, same_id_iff,
}

-- What an observation says of a course.
pub record CourseFields : Type 0 where
  pub code : String
  pub title : String
  pub term : Option String
  pub availability : Availability

pub record CourseRecord : Type 0 where
  pub key : ℕ
  pub remote_id : CourseId
  pub fields : CourseFields
  pub first_observed_at : Instant
  pub last_observed_at : Instant

abbrev earlier : Instant → Instant → Instant
earlier a b = if leb a b then a else b

-- The key of a new row.
unfoldable pub next_key : List CourseRecord → ℕ
next_key [] = 1
next_key (r ∷ rows) = if leb (next_key rows) r.key then r.key + 1 else next_key rows

unfoldable pub get_course : CourseId → List CourseRecord → Option CourseRecord
get_course id [] = none
get_course id (r ∷ rows) = if same_id id r.remote_id then some r else get_course id rows

abbrev pub new_course : ℕ → CourseId → CourseFields → Instant → CourseRecord
new_course key id fields at = record {
  key = key;
  remote_id = id;
  fields = fields;
  first_observed_at = at;
  last_observed_at = at;
}

-- An older observation moves the first time only; another one is an upsert.
unfoldable pub observe_row : CourseFields → Instant → CourseRecord → CourseRecord
observe_row fields at r =
    if ltb at r.last_observed_at
    then record r { first_observed_at = earlier r.first_observed_at at }
    else record r {
      fields = fields;
      first_observed_at = earlier r.first_observed_at at;
      last_observed_at = at;
    }

unfoldable pub update_course :
    (CourseRecord → CourseRecord) → CourseId → List CourseRecord → List CourseRecord
update_course f id [] = []
update_course f id (r ∷ rows) =
    if same_id id r.remote_id then f r ∷ rows else r ∷ update_course f id rows

-- The writes of the transaction of `put_course`.
unfoldable pub write_course :
    CourseId → CourseFields → Instant → List CourseRecord → List CourseRecord
unfolding get_course update_course observe_row next_key
write_course id fields at rows =
    if is_some (get_course id rows)
    then update_course (observe_row fields at) id rows
    else rows ++ new_course (next_key rows) id fields at ∷ []

-- `… or None`
abbrev pub non_empty : String → Option String
non_empty s = if text_length s == 0 then none else some s

-- What `sanitize_source_text` makes of a term.
abbrev pub clean_term : (String → Result String) → Option String → Result (Option String)
clean_term sanitize none = ok none
clean_term sanitize (some term) = do t ← sanitize term; ok (non_empty t)

abbrev pub written :
    Option CourseRecord → List CourseRecord → Result (CourseRecord × List CourseRecord)
written none rows = err (assertion_error "")
written (some r) rows = ok (r, rows)

-- `put_course`, over the function that makes a text safe.
unfoldable pub put_course :
    (String → Result String)
    → CourseId
    → CourseFields
    → Instant
    → List CourseRecord
    → Result (CourseRecord × List CourseRecord)
unfolding write_course get_course
put_course sanitize id fields at rows = do
  code ← sanitize fields.code
  title ← sanitize fields.title
  term ← clean_term sanitize fields.term
  raise_if (text_length code == 0 || text_length title == 0)
      (value_error "course code and title must be non-empty")
  let after =
      write_course id
        (record { code = code; title = title; term = term; availability = fields.availability }) at
        rows
  written (get_course id after) after
