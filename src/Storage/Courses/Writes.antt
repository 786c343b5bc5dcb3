-- ===== src/Storage/Courses/Writes.antt =====
-- src/ntulearn_skill/storage/repository.py: `put_course` for observations that arrive out of order.
use ntulearn_skill.Prelude.{
  ◌==◌, is_some, Bool-cases, Option-cases, text_length, value_error, Result, ok, raise_if,
  >>=-returns, ◌<◌, String, ◌≡◌, refl, sym, ap, ◌∙◌, inl, inr, true, ◌||◌, Option, none, some, List,
}
use ntulearn_skill.Core.Models.{Instant}
use ntulearn_skill.Core.Identifiers.{CourseId, same_id_iff}
use ntulearn_skill.Storage.Courses.{
  CourseFields, CourseRecord, next_key, get_course, new_course, write_course, clean_term, written,
  put_course,
}
use ntulearn_skill.Storage.Courses.Order.{
  get_course-update, get_course-append, write_course-known, write_course-new, write_course_comm,
}

-- A course that was written is there.
write_course-get_course :
    (id : CourseId) (f : CourseFields) (s : Instant) (rows : List CourseRecord)
    → is_some (get_course id (write_course id f s rows)) ≡ true
write_course-get_course id f s rows = elim (Bool-cases (is_some (get_course id rows))) [
  | inl e ↦
      ap (λ l. is_some (get_course id l)) (write_course-known id f s rows e)
      ∙ get_course-update f s id id rows
      ∙ e
  | inr e ↦
      ap (λ l. is_some (get_course id l)) (write_course-new id f s rows e)
      ∙ get_course-append id rows (new_course (next_key rows) id f s) ((same_id_iff id id).1 refl)
]

written-returns :
    (id : CourseId) (rows : List CourseRecord)
    → is_some (get_course id rows) ≡ true
    → (r : CourseRecord) × (written (get_course id rows) rows ≡ ok (r, rows))
written-returns id rows e = elim (Option-cases (get_course id rows)) [
  | inl n ↦ cc
  | inr (r, n) ↦ (r, ap (λ o. written o rows) n)
]

written-rows :
    (o : Option CourseRecord) (rows after : List CourseRecord) (r : CourseRecord)
    → written o rows ≡ ok (r, after)
    → rows ≡ after
written-rows none rows after r e = cc
written-rows (some q) rows after r e = cc

module _ (sanitize : String → Result String) where
  -- What `put_course` writes depends on the fields only, and then it returns for all rows.
  Writes : CourseId → CourseFields → Instant → CourseFields → Type 0
  Writes id fields at f =
      (rows : List CourseRecord)
      → (r : CourseRecord) × (put_course sanitize id fields at rows
          ≡ ok (r, write_course id f at rows))

  put_course-returns :
      (id : CourseId) (fields : CourseFields) (at : Instant) (code title : String)
      (term : Option String) (u : Unit {0})
      → sanitize fields.code ≡ ok code
      → sanitize fields.title ≡ ok title
      → clean_term sanitize fields.term ≡ ok term
      → raise_if
          (text_length code == 0 || text_length title == 0)
          (value_error "course code and title must be non-empty")
        ≡ ok u
      → Writes id fields at
          (record { code = code; title = title; term = term; availability = fields.availability })
  unfolding put_course Writes
  put_course-returns id fields at code title term u a b c d rows =
      let f : CourseFields = record {
        code = code;
        title = title;
        term = term;
        availability = fields.availability;
      } in
      let (q, w) =
        written-returns id (write_course id f at rows) (write_course-get_course id f at rows) in
      (q, rw (a, b, c, d) w)

  put_course-Writes :
      (id : CourseId) (fields : CourseFields) (at : Instant) (rows after : List CourseRecord)
      (r : CourseRecord)
      → put_course sanitize id fields at rows ≡ ok (r, after)
      → (f : CourseFields) × (write_course id f at rows ≡ after) × Writes id fields at f
  unfolding put_course Writes
  put_course-Writes id fields at rows after r e =
      let (code, a, e1) = >>=-returns (sanitize fields.code) _ e in
      let (title, b, e2) = >>=-returns (sanitize fields.title) _ e1 in
      let (term, c, e3) = >>=-returns (clean_term sanitize fields.term) _ e2 in
      let (u, d, e4) =
        >>=-returns
          (raise_if (text_length code == 0 || text_length title == 0)
            (value_error "course code and title must be non-empty"))
          _ e3 in
      let f : CourseFields = record {
        code = code;
        title = title;
        term = term;
        availability = fields.availability;
      } in
      (
        f,
        written-rows (get_course id (write_course id f at rows)) (write_course id f at rows) after r
            e4,
        put_course-returns id fields at code title term u a b c d,
      )

  -- If `put_course` returns for two observations of a course one after the other, the first of an
  -- earlier time, then it returns for them in the other order as well, and leaves the same rows.
  pub put_course_comm :
      (id : CourseId) (fields others : CourseFields) (s t : Instant)
      (rows first second : List CourseRecord) (r q : CourseRecord)
      → s < t
      → put_course sanitize id fields s rows ≡ ok (r, first)
      → put_course sanitize id others t first ≡ ok (q, second)
      → (q' : CourseRecord) × (middle : List CourseRecord) × (r' : CourseRecord) × (put_course
            sanitize id others t rows
          ≡ ok (q', middle))
        × (put_course sanitize id fields s middle ≡ ok (r', second))
  unfolding Writes
  put_course_comm id fields others s t rows first second r q h e k =
      let (f, w, put_f) = put_course-Writes id fields s rows first r e in
      let (g, x, put_g) = put_course-Writes id others t first second q k in
      let (q', m) = put_g rows in
      let (r', n) = put_f (write_course id g t rows) in
      let same : write_course id f s (write_course id g t rows) ≡ second =
        sym (write_course_comm id f g s t rows h) ∙ ap (write_course id g t) w ∙ x in
      (q', write_course id g t rows, r', m, n ∙ ap (λ l. ok (r', l)) same)
