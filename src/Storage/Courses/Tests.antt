-- ===== src/Storage/Courses/Tests.antt =====
-- Two observations of a course, for the theorems on src/ntulearn_skill/storage/repository.py.
use ntulearn_skill.Prelude.{ok, String, ◌≡◌, refl, none, some, List, [], ◌∷◌, arith}
use ntulearn_skill.Core.Models.{Availability, Instant}
use ntulearn_skill.Core.Identifiers.{RemoteId}
use ntulearn_skill.Storage.Courses.{
  CourseFields, CourseRecord, next_key, get_course, observe_row, update_course, write_course,
  put_course,
}
use ntulearn_skill.Storage.Courses.Writes.{put_course_comm}

abbrev id : RemoteId
id = record { provider = "ntulearn"; value = "_1_1" }

abbrev fields : String → CourseFields
fields title = record {
  code = "SC1001";
  title = title;
  term = some "";
  availability = Availability.active;
}

abbrev row : String → Instant → Instant → CourseRecord
row title first last = record {
  key = 1;
  remote_id = id;
  fields = record (fields title) { term = none };
  first_observed_at = first;
  last_observed_at = last;
}

put_first : put_course ok id (fields "Old") 10 [] ≡ ok (row "Old" 10 10, row "Old" 10 10 ∷ [])
unfolding put_course write_course get_course next_key
put_first = refl

put_second :
    put_course ok id (fields "New") 20 (row "Old" 10 10 ∷ [])
    ≡ ok (row "New" 10 20, row "New" 10 20 ∷ [])
unfolding put_course write_course get_course update_course observe_row
put_second = refl

put_course_comm_example :
    (q' : CourseRecord) × (middle : List CourseRecord) × (r' : CourseRecord) × (put_course ok id
        (fields "New")
        20
        []
      ≡ ok (q', middle))
    × (put_course ok id (fields "Old") 10 middle ≡ ok (r', row "New" 10 20 ∷ []))
put_course_comm_example =
    put_course_comm ok id (fields "Old") (fields "New") 10 20 [] (row "Old" 10 10 ∷ [])
      (row "New" 10 20 ∷ []) (row "Old" 10 10) (row "New" 10 20) (omega arith) put_first put_second
