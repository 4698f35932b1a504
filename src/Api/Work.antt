-- ===== src/Api/Work.antt =====
-- Quizzes, assignments, submissions and grades: the methods from `quizzes` to `gradeHistory` of
-- packages/ui/src/api.ts.
use the_cinder_project.Base.{Option, some, [], ◌∷◌, ◌++◌, Text, codes}
use the_cinder_project.Base.Json.{Json, str}
use the_cinder_project.Api.Request.{
  Request, get_, post, put, patch, delete, plain, with_json, with_fields, text_or_null,
}

pub data WorkCall : Type 0 where
  create_quiz create_assignment : Json → WorkCall
  update_quiz deliver_quiz update_assignment save_grade : Text → Json → WorkCall
  duplicate_quiz publish_quiz archive_quiz : Text → WorkCall
  start_quiz_attempt quiz_attempt quiz_attempts submit_quiz_attempt reopen_quiz_attempt :
      Text → WorkCall
  release_quiz_results quiz_statistics : Text → WorkCall
  save_quiz_response : Text → Text → Json → WorkCall
  grade_quiz_response : Text → Text → Json → Text → WorkCall
  delete_assignment submissions my_submission withdraw_work comments grade_history : Text → WorkCall
  submit_work : Text → Json → Text → Option Text → WorkCall
  add_comment : Text → Text → Json → WorkCall

abbrev quiz_path : Text → Text → Text
quiz_path id rest = codes "/api/quizzes/" ++ (id ++ rest)

abbrev delivery_path : Text → Text → Text
delivery_path id rest = codes "/api/quiz-deliveries/" ++ (id ++ rest)

abbrev attempt_path : Text → Text → Text
attempt_path id rest = codes "/api/quiz-attempts/" ++ (id ++ rest)

abbrev assignment_path : Text → Text → Text
assignment_path id rest = codes "/api/assignments/" ++ (id ++ rest)

abbrev submission_path : Text → Text → Text
submission_path id rest = codes "/api/submissions/" ++ (id ++ rest)

unfoldable pub work_request : WorkCall → Request
work_request (create_quiz input) = with_json post (codes "/api/quizzes") input
work_request (update_quiz id input) = with_json patch (codes "/api/quizzes/" ++ id) input
work_request (duplicate_quiz id) = plain post (quiz_path id (codes "/duplicate"))
work_request (publish_quiz id) = plain post (quiz_path id (codes "/publish"))
work_request (archive_quiz id) = plain delete (codes "/api/quizzes/" ++ id)
work_request (deliver_quiz id input) = with_json post (quiz_path id (codes "/deliver")) input
work_request (start_quiz_attempt delivery_id) =
    plain post (delivery_path delivery_id (codes "/start"))
work_request (quiz_attempt id) = plain get_ (codes "/api/quiz-attempts/" ++ id)
work_request (quiz_attempts delivery_id) =
    plain get_ (delivery_path delivery_id (codes "/attempts"))
work_request (save_quiz_response id question_id answer) =
    with_fields put (attempt_path id (codes "/responses/" ++ question_id))
      ((codes "answer", some answer) ∷ [])
work_request (submit_quiz_attempt id) = plain post (attempt_path id (codes "/submit"))
work_request (reopen_quiz_attempt id) = plain post (attempt_path id (codes "/reopen"))
work_request (grade_quiz_response id question_id points feedback) =
    with_fields put (attempt_path id (codes "/responses/" ++ (question_id ++ codes "/grade")))
      ((codes "points", some points) ∷ (codes "feedback", some (str feedback)) ∷ [])
work_request (release_quiz_results delivery_id) =
    plain post (delivery_path delivery_id (codes "/release"))
work_request (quiz_statistics delivery_id) = plain get_ (delivery_path delivery_id (codes "/stats"))
work_request (create_assignment input) = with_json post (codes "/api/assignments") input
work_request (update_assignment id input) = with_json patch (codes "/api/assignments/" ++ id) input
work_request (delete_assignment id) = plain delete (codes "/api/assignments/" ++ id)
work_request (submissions assignment_id) =
    plain get_ (assignment_path assignment_id (codes "/submissions"))
work_request (my_submission assignment_id) =
    plain get_ (assignment_path assignment_id (codes "/submission"))
work_request (submit_work assignment_id doc_json plaintext change_note) =
    with_fields put (assignment_path assignment_id (codes "/submission")) (
      (codes "doc_json", some doc_json)
      ∷ (codes "plaintext", some (str plaintext))
      ∷ (codes "change_note", text_or_null change_note)
      ∷ [])
work_request (withdraw_work assignment_id) =
    plain delete (assignment_path assignment_id (codes "/submission"))
work_request (save_grade submission_id input) =
    with_json put (submission_path submission_id (codes "/grade")) input
work_request (comments submission_id) =
    plain get_ (submission_path submission_id (codes "/comments"))
work_request (add_comment submission_id body anchor) =
    with_fields post (submission_path submission_id (codes "/comments"))
      ((codes "body", some (str body)) ∷ (codes "anchor", some anchor) ∷ [])
work_request (grade_history submission_id) =
    plain get_ (submission_path submission_id (codes "/grade-history"))
