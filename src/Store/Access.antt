-- ===== src/Store/Access.antt =====
-- store.py: which courses, teachers and students a scope may read, and the lesson records, on which
-- the students rest. A Python set is the list of its members, of which only membership is asked.
use api_dashboard.Prelude.{
  ℕ, String, Bool, true, ◌&&◌, ◌||◌, not, Option, none, some, List, [], ◌∷◌, ◌++◌, map, keep,
  collect, map_option, leb, elem, elem_opt, get_or, nonempty, sort, text_leb, nullable_leb, ◌==◌,
  nat_eq, string_eq, option_eq, if◌then◌else◌,
}
use api_dashboard.Scope.{Scope, unrestricted}
use api_dashboard.Store.Rows.{Store, LessonRecord, Course, Teacher}

-- set.intersection(*sets) if len(sets) > 1 else sets[0], of the sets that a scope names.
unfoldable pub meet : Option (List ℕ) → Option (List ℕ) → Option (List ℕ)
meet none ys = ys
meet (some xs) none = some xs
meet (some xs) (some ys) = some (keep (λ x. elem x ys) xs)

-- SELECT * FROM teachers ORDER BY name, uid
abbrev pub teacher_leb : Teacher → Teacher → Bool
teacher_leb t u = if t.name == u.name then leb t.uid u.uid else nullable_leb text_leb t.name u.name

module _ {R : Type 0} where
  -- SELECT * FROM courses ORDER BY created_at DESC
  unfoldable pub all_courses : Store R → List Course
  all_courses s = sort (λ (c d : Course). nullable_leb text_leb d.created_at c.created_at) s.courses

  unfoldable pub all_teachers : Store R → List Teacher
  all_teachers s = sort teacher_leb s.teachers

  -- The uids of the teachers of some branches.
  abbrev pub branch_teachers : Store R → List ℕ → List ℕ
  branch_teachers s branch_ids =
      map (λ (t : Teacher). t.uid)
        (keep (λ (t : Teacher). elem_opt t.branch_id branch_ids) (all_teachers s))

  unfoldable pub teacher_uids_in_scope : Store R → Scope → Option (List ℕ)
  unfolding meet unrestricted
  teacher_uids_in_scope s scope =
      if unrestricted scope
      then none
      else meet (map_option (branch_teachers s) scope.branch_ids) scope.teacher_uids

  unfoldable pub course_ids_taught_by : Store R → List ℕ → List ℕ
  course_ids_taught_by s [] = []
  course_ids_taught_by s (u ∷ us) =
      collect
        (λ (r : LessonRecord R). if elem_opt r.teacher_uid (u ∷ us) then r.course_id else none)
        s.lesson_records

  -- The courses of some teachers: those assigned to them, and those that they have taught.
  abbrev pub teacher_courses : Store R → List ℕ → List ℕ
  teacher_courses s uids =
      map (λ (c : Course). c.course_id)
        (keep (λ (c : Course). elem_opt c.teacher_uid uids) (all_courses s))
      ++ course_ids_taught_by s uids

  abbrev pub branch_courses : Store R → List ℕ → List ℕ
  branch_courses s branch_ids =
      let branch : Scope = record { branch_ids = some branch_ids; teacher_uids = none } in
      let teachers = get_or (teacher_uids_in_scope s branch) [] in
      map (λ (c : Course). c.course_id)
        (keep (λ (c : Course). elem_opt c.branch_id branch_ids) (all_courses s))
      ++ teacher_courses s teachers

  unfoldable pub course_ids_in_scope : Store R → Scope → Option (List ℕ)
  unfolding meet unrestricted teacher_uids_in_scope
  course_ids_in_scope s scope =
      if unrestricted scope
      then none
      else meet (map_option (branch_courses s) scope.branch_ids)
          (map_option (teacher_courses s) scope.teacher_uids)

  unfoldable pub scope_keys : Store R → Scope → Option (List ℕ × List ℕ)
  scope_keys s scope =
      if unrestricted scope
      then none
      else some (get_or (course_ids_in_scope s scope) [], get_or (teacher_uids_in_scope s scope) [])

-- `_row_in_scope`, on the course and the teacher of a row.
unfoldable pub row_in_scope : Option ℕ → Option ℕ → Option (List ℕ × List ℕ) → Bool
row_in_scope course_id teacher_uid none = true
row_in_scope course_id teacher_uid (some (course_ids, teacher_uids)) =
    elem_opt course_id course_ids || elem_opt teacher_uid teacher_uids

-- `col = ?`, where the value is given.
abbrev pub equals : Option ℕ → Option ℕ → Bool
equals none col = true
equals (some v) col = col == some v

-- The keyword arguments of `EventStore.lesson_records` but its scope.
pub record Filter : Type 0 where
  pub course_id : Option ℕ
  pub student_uid : Option ℕ
  pub teacher_uid : Option ℕ
  pub since : Option String
  pub until : Option String

abbrev pub no_filter : Filter
no_filter = record {
  course_id = none;
  student_uid = none;
  teacher_uid = none;
  since = none;
  until = none;
}

-- lesson_date >= since, where `since` is given and not empty; it is false of a NULL.
abbrev pub at_or_after : Option String → Option String → Bool
at_or_after none date = true
at_or_after (some t) none = not (nonempty t)
at_or_after (some t) (some d) = not (nonempty t) || text_leb t d

-- lesson_date < until
abbrev pub before : Option String → Option String → Bool
before none date = true
before (some t) none = not (nonempty t)
before (some t) (some d) = not (nonempty t) || not (text_leb t d)

module _ {R : Type 0} where
  unfoldable pub selected : Filter → LessonRecord R → Bool
  selected f r =
      equals f.course_id r.course_id
      && equals f.student_uid (some r.student_uid)
      && equals f.teacher_uid r.teacher_uid
      && at_or_after f.since r.lesson_date
      && before f.until r.lesson_date

  unfoldable pub lesson_records : Store R → Scope → Filter → List (LessonRecord R)
  lesson_records s scope f =
      keep (λ (r : LessonRecord R). row_in_scope r.course_id r.teacher_uid (scope_keys s scope))
        (sort (λ (r q : LessonRecord R). nullable_leb text_leb q.lesson_date r.lesson_date)
          (keep (selected f) s.lesson_records))

  unfoldable pub student_uids_in_scope : Store R → Scope → Option (List ℕ)
  student_uids_in_scope s scope =
      if unrestricted scope
      then none
      else some (map (λ (r : LessonRecord R). r.student_uid) (lesson_records s scope no_filter))
