-- ===== src/Storage/Courses/Order.antt =====
-- src/ntulearn_skill/storage/repository.py: observations of courses that arrive out of order.
use ntulearn_skill.Prelude.{
  is_some, Bool-cases, ℕ, ◌<◌, ◌≡◌, refl, sym, ap, ◌∙◌, inl, inr, true, false, List, [], ◌∷◌, ◌++◌,
  arith,
}
use ntulearn_skill.Core.Models.{Instant}
use ntulearn_skill.Core.Identifiers.{CourseId, same_id, same_id_iff}
use ntulearn_skill.Storage.Courses.{
  CourseFields, CourseRecord, next_key, get_course, new_course, observe_row, update_course,
  write_course,
}

observe_row_comm :
    (f g : CourseFields) (s t : Instant) (r : CourseRecord)
    → s < t
    → observe_row g t (observe_row f s r) ≡ observe_row f s (observe_row g t r)
unfolding observe_row
observe_row_comm f g s t r h = ground (arith)

observe_row-id :
    (f : CourseFields) (s : Instant) (r : CourseRecord)
    → (observe_row f s r).remote_id ≡ r.remote_id
unfolding observe_row
observe_row-id f s r = ground (arith)

pub get_course-update :
    (f : CourseFields) (s : Instant) (id other : CourseId) (rows : List CourseRecord)
    → is_some (get_course other (update_course (observe_row f s) id rows))
      ≡ is_some (get_course other rows)
unfolding get_course update_course
get_course-update f s id other [] = refl
get_course-update f s id other (r ∷ rows) =
    ground (arith, get_course-update f s id other rows, observe_row-id f s r)

update_course_comm :
    (f g : CourseFields) (s t : Instant) (id : CourseId) (rows : List CourseRecord)
    → s < t
    → update_course (observe_row g t) id (update_course (observe_row f s) id rows)
      ≡ update_course (observe_row f s) id (update_course (observe_row g t) id rows)
unfolding update_course
update_course_comm f g s t id [] h = refl
update_course_comm f g s t id (r ∷ rows) h = ground (
  arith,
  update_course_comm f g s t id rows h,
  observe_row-id f s r,
  observe_row-id g t r,
  observe_row_comm f g s t r h,
)

-- A row that was added is the one that is updated.
update_course-append :
    (f : CourseRecord → CourseRecord) (id : CourseId) (rows : List CourseRecord) (r : CourseRecord)
    → is_some (get_course id rows) ≡ false
    → same_id id r.remote_id ≡ true
    → update_course f id (rows ++ r ∷ []) ≡ rows ++ f r ∷ []
unfolding get_course update_course
update_course-append f id [] r n e = ground (arith)
update_course-append f id (q ∷ rows) r n e = ground (arith, update_course-append f id rows r)

pub get_course-append :
    (id : CourseId) (rows : List CourseRecord) (r : CourseRecord)
    → same_id id r.remote_id ≡ true
    → is_some (get_course id (rows ++ r ∷ [])) ≡ true
unfolding get_course
get_course-append id [] r e = ground (arith)
get_course-append id (q ∷ rows) r e = ground (arith, get_course-append id rows r)

observe_row-new :
    (f g : CourseFields) (s t : Instant) (key : ℕ) (id : CourseId)
    → s < t
    → observe_row g t (new_course key id f s) ≡ observe_row f s (new_course key id g t)
unfolding observe_row
observe_row-new f g s t key id h = ground (arith)

-- A write for a course that is there, and for one that is not.
pub write_course-known :
    (id : CourseId) (f : CourseFields) (s : Instant) (rows : List CourseRecord)
    → is_some (get_course id rows) ≡ true
    → write_course id f s rows ≡ update_course (observe_row f s) id rows
unfolding write_course
write_course-known id f s rows e = rw e refl

pub write_course-new :
    (id : CourseId) (f : CourseFields) (s : Instant) (rows : List CourseRecord)
    → is_some (get_course id rows) ≡ false
    → write_course id f s rows ≡ rows ++ new_course (next_key rows) id f s ∷ []
unfolding write_course
write_course-new id f s rows e = rw e refl

write_course-later :
    (id : CourseId) (f g : CourseFields) (s t : Instant) (rows : List CourseRecord)
    → is_some (get_course id rows) ≡ false
    → write_course id g t (write_course id f s rows)
      ≡ rows ++ observe_row g t (new_course (next_key rows) id f s) ∷ []
write_course-later id f g s t rows e =
    let same = (same_id_iff id id).1 refl in
    let row = new_course (next_key rows) id f s in
    ap (write_course id g t) (write_course-new id f s rows e)
    ∙ write_course-known id g t (rows ++ row ∷ []) (get_course-append id rows row same)
    ∙ update_course-append (observe_row g t) id rows row e same

-- Two observations of a course at different times leave the same rows in whichever order they are
-- written, whether the course was known before or not.
pub write_course_comm :
    (id : CourseId) (f g : CourseFields) (s t : Instant) (rows : List CourseRecord)
    → s < t
    → write_course id g t (write_course id f s rows)
      ≡ write_course id f s (write_course id g t rows)
write_course_comm id f g s t rows h = elim (Bool-cases (is_some (get_course id rows))) [
  | inl e ↦
      ap (write_course id g t) (write_course-known id f s rows e)
      ∙ write_course-known id g t (update_course (observe_row f s) id rows)
          (get_course-update f s id id rows ∙ e)
      ∙ update_course_comm f g s t id rows h
      ∙ sym (
          write_course-known id f s (update_course (observe_row g t) id rows)
            (get_course-update g t id id rows ∙ e))
      ∙ ap (write_course id f s) (sym (write_course-known id g t rows e))
  | inr e ↦
      write_course-later id f g s t rows e
      ∙ ap (λ r. rows ++ r ∷ []) (observe_row-new f g s t (next_key rows) id h)
      ∙ sym (write_course-later id g f t s rows e)
]
