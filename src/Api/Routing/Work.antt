-- ===== src/Api/Routing/Work.antt =====
-- The routes of the methods of Api/Work.antt.
use the_cinder_project.Base.{Text, codes, text_eq, refl, [], ◌∷◌}
use the_cinder_project.Api.Work.{
  WorkCall, work_request, create_quiz, update_quiz, duplicate_quiz, publish_quiz, archive_quiz,
  deliver_quiz, start_quiz_attempt, quiz_attempt, quiz_attempts, save_quiz_response,
  submit_quiz_attempt, reopen_quiz_attempt, grade_quiz_response, release_quiz_results,
  quiz_statistics, create_assignment, update_assignment, delete_assignment, submissions,
  my_submission, submit_work, withdraw_work, save_grade, comments, add_comment, grade_history,
}
use the_cinder_project.Host.Routes.{dispatch, find_route, segments}
use the_cinder_project.Api.Routing.Ids.{IsId, segment, Meets, via_id, via_ids}

-- The handler that the Host should call.
abbrev pub work_handler : WorkCall → Text
work_handler (create_quiz _) = codes "quizzes::create_quiz"
work_handler (update_quiz _ _) = codes "quizzes::update_quiz"
work_handler (duplicate_quiz _) = codes "quizzes::duplicate_quiz"
work_handler (publish_quiz _) = codes "quizzes::publish_quiz"
work_handler (archive_quiz _) = codes "quizzes::archive_quiz"
work_handler (deliver_quiz _ _) = codes "quizzes::deliver_quiz"
work_handler (start_quiz_attempt _) = codes "quizzes::start_attempt"
work_handler (quiz_attempt _) = codes "quizzes::get_attempt"
work_handler (quiz_attempts _) = codes "quizzes::list_attempts"
work_handler (save_quiz_response _ _ _) = codes "quizzes::save_response"
work_handler (submit_quiz_attempt _) = codes "quizzes::submit_attempt"
work_handler (reopen_quiz_attempt _) = codes "quizzes::reopen_attempt"
work_handler (grade_quiz_response _ _ _ _) = codes "quizzes::grade_response"
work_handler (release_quiz_results _) = codes "quizzes::release_results"
work_handler (quiz_statistics _) = codes "quizzes::statistics"
work_handler (create_assignment _) = codes "assignments::create_assignment"
work_handler (update_assignment _ _) = codes "assignments::update_assignment"
work_handler (delete_assignment _) = codes "assignments::delete_assignment"
work_handler (submissions _) = codes "assignments::list_submissions"
work_handler (my_submission _) = codes "assignments::get_my_submission"
work_handler (submit_work _ _ _ _) = codes "assignments::submit_work"
work_handler (withdraw_work _) = codes "assignments::withdraw_work"
work_handler (save_grade _ _) = codes "assignments::save_grade"
work_handler (comments _) = codes "assignments::list_comments"
work_handler (add_comment _ _ _) = codes "assignments::add_comment"
work_handler (grade_history _) = codes "assignments::grade_history"

-- The ids in a path.
abbrev pub WorkIds : WorkCall → Type 0
WorkIds (create_quiz _) = Unit
WorkIds (update_quiz id _) = IsId id
WorkIds (duplicate_quiz id) = IsId id
WorkIds (publish_quiz id) = IsId id
WorkIds (archive_quiz id) = IsId id
WorkIds (deliver_quiz id _) = IsId id
WorkIds (start_quiz_attempt id) = IsId id
WorkIds (quiz_attempt id) = IsId id
WorkIds (quiz_attempts id) = IsId id
WorkIds (save_quiz_response id q _) = IsId id × IsId q
WorkIds (submit_quiz_attempt id) = IsId id
WorkIds (reopen_quiz_attempt id) = IsId id
WorkIds (grade_quiz_response id q _ _) = IsId id × IsId q
WorkIds (release_quiz_results id) = IsId id
WorkIds (quiz_statistics id) = IsId id
WorkIds (create_assignment _) = Unit
WorkIds (update_assignment id _) = IsId id
WorkIds (delete_assignment id) = IsId id
WorkIds (submissions id) = IsId id
WorkIds (my_submission id) = IsId id
WorkIds (submit_work id _ _ _) = IsId id
WorkIds (withdraw_work id) = IsId id
WorkIds (save_grade id _) = IsId id
WorkIds (comments id) = IsId id
WorkIds (add_comment id _ _) = IsId id
WorkIds (grade_history id) = IsId id

pub work_request-Meets : (c : WorkCall) → WorkIds c → Meets (work_handler c) (work_request c)
unfolding dispatch work_request find_route segments text_eq
work_request-Meets (create_quiz input) h = refl
work_request-Meets (update_quiz id input) h =
    via_id (work_handler (update_quiz id input)) (work_request (update_quiz id input))
      (λ x. codes "" ∷ codes "api" ∷ codes "quizzes" ∷ x ∷ []) id h (simp (segment id h).last refl)
      (λ c s. refl)
work_request-Meets (duplicate_quiz id) h =
    via_id (work_handler (duplicate_quiz id)) (work_request (duplicate_quiz id))
      (λ x. codes "" ∷ codes "api" ∷ codes "quizzes" ∷ x ∷ codes "duplicate" ∷ []) id h
      (simp (segment id h).more refl) (λ c s. refl)
work_request-Meets (publish_quiz id) h =
    via_id (work_handler (publish_quiz id)) (work_request (publish_quiz id))
      (λ x. codes "" ∷ codes "api" ∷ codes "quizzes" ∷ x ∷ codes "publish" ∷ []) id h
      (simp (segment id h).more refl) (λ c s. refl)
work_request-Meets (archive_quiz id) h =
    via_id (work_handler (archive_quiz id)) (work_request (archive_quiz id))
      (λ x. codes "" ∷ codes "api" ∷ codes "quizzes" ∷ x ∷ []) id h (simp (segment id h).last refl)
      (λ c s. refl)
work_request-Meets (deliver_quiz id input) h =
    via_id (work_handler (deliver_quiz id input)) (work_request (deliver_quiz id input))
      (λ x. codes "" ∷ codes "api" ∷ codes "quizzes" ∷ x ∷ codes "deliver" ∷ []) id h
      (simp (segment id h).more refl) (λ c s. refl)
work_request-Meets (start_quiz_attempt id) h =
    via_id (work_handler (start_quiz_attempt id)) (work_request (start_quiz_attempt id))
      (λ x. codes "" ∷ codes "api" ∷ codes "quiz-deliveries" ∷ x ∷ codes "start" ∷ []) id h
      (simp (segment id h).more refl) (λ c s. refl)
work_request-Meets (quiz_attempt id) h =
    via_id (work_handler (quiz_attempt id)) (work_request (quiz_attempt id))
      (λ x. codes "" ∷ codes "api" ∷ codes "quiz-attempts" ∷ x ∷ []) id h
      (simp (segment id h).last refl) (λ c s. refl)
work_request-Meets (quiz_attempts id) h =
    via_id (work_handler (quiz_attempts id)) (work_request (quiz_attempts id))
      (λ x. codes "" ∷ codes "api" ∷ codes "quiz-deliveries" ∷ x ∷ codes "attempts" ∷ []) id h
      (simp (segment id h).more refl) (λ c s. refl)
work_request-Meets (save_quiz_response id q a) h =
    via_ids (work_handler (save_quiz_response id q a)) (work_request (save_quiz_response id q a))
      (λ x y. codes "" ∷ codes "api" ∷ codes "quiz-attempts" ∷ x ∷ codes "responses" ∷ y ∷ []) id q
      h.0 h.1 (simp ((segment id h.0).more, (segment q h.1).last) refl) (λ c d s t. refl)
work_request-Meets (submit_quiz_attempt id) h =
    via_id (work_handler (submit_quiz_attempt id)) (work_request (submit_quiz_attempt id))
      (λ x. codes "" ∷ codes "api" ∷ codes "quiz-attempts" ∷ x ∷ codes "submit" ∷ []) id h
      (simp (segment id h).more refl) (λ c s. refl)
work_request-Meets (reopen_quiz_attempt id) h =
    via_id (work_handler (reopen_quiz_attempt id)) (work_request (reopen_quiz_attempt id))
      (λ x. codes "" ∷ codes "api" ∷ codes "quiz-attempts" ∷ x ∷ codes "reopen" ∷ []) id h
      (simp (segment id h).more refl) (λ c s. refl)
work_request-Meets (grade_quiz_response id q p f) h =
    via_ids (work_handler (grade_quiz_response id q p f))
      (work_request (grade_quiz_response id q p f))
      (λ x y.
        codes ""
        ∷ codes "api"
        ∷ codes "quiz-attempts"
        ∷ x
        ∷ codes "responses"
        ∷ y
        ∷ codes "grade"
        ∷ [])
      id q h.0 h.1 (simp ((segment id h.0).more, (segment q h.1).more) refl) (λ c d s t. refl)
work_request-Meets (release_quiz_results id) h =
    via_id (work_handler (release_quiz_results id)) (work_request (release_quiz_results id))
      (λ x. codes "" ∷ codes "api" ∷ codes "quiz-deliveries" ∷ x ∷ codes "release" ∷ []) id h
      (simp (segment id h).more refl) (λ c s. refl)
work_request-Meets (quiz_statistics id) h =
    via_id (work_handler (quiz_statistics id)) (work_request (quiz_statistics id))
      (λ x. codes "" ∷ codes "api" ∷ codes "quiz-deliveries" ∷ x ∷ codes "stats" ∷ []) id h
      (simp (segment id h).more refl) (λ c s. refl)
work_request-Meets (create_assignment input) h = refl
work_request-Meets (update_assignment id input) h =
    via_id (work_handler (update_assignment id input)) (work_request (update_assignment id input))
      (λ x. codes "" ∷ codes "api" ∷ codes "assignments" ∷ x ∷ []) id h
      (simp (segment id h).last refl) (λ c s. refl)
work_request-Meets (delete_assignment id) h =
    via_id (work_handler (delete_assignment id)) (work_request (delete_assignment id))
      (λ x. codes "" ∷ codes "api" ∷ codes "assignments" ∷ x ∷ []) id h
      (simp (segment id h).last refl) (λ c s. refl)
work_request-Meets (submissions id) h =
    via_id (work_handler (submissions id)) (work_request (submissions id))
      (λ x. codes "" ∷ codes "api" ∷ codes "assignments" ∷ x ∷ codes "submissions" ∷ []) id h
      (simp (segment id h).more refl) (λ c s. refl)
work_request-Meets (my_submission id) h =
    via_id (work_handler (my_submission id)) (work_request (my_submission id))
      (λ x. codes "" ∷ codes "api" ∷ codes "assignments" ∷ x ∷ codes "submission" ∷ []) id h
      (simp (segment id h).more refl) (λ c s. refl)
work_request-Meets (submit_work id d p n) h =
    via_id (work_handler (submit_work id d p n)) (work_request (submit_work id d p n))
      (λ x. codes "" ∷ codes "api" ∷ codes "assignments" ∷ x ∷ codes "submission" ∷ []) id h
      (simp (segment id h).more refl) (λ c s. refl)
work_request-Meets (withdraw_work id) h =
    via_id (work_handler (withdraw_work id)) (work_request (withdraw_work id))
      (λ x. codes "" ∷ codes "api" ∷ codes "assignments" ∷ x ∷ codes "submission" ∷ []) id h
      (simp (segment id h).more refl) (λ c s. refl)
work_request-Meets (save_grade id input) h =
    via_id (work_handler (save_grade id input)) (work_request (save_grade id input))
      (λ x. codes "" ∷ codes "api" ∷ codes "submissions" ∷ x ∷ codes "grade" ∷ []) id h
      (simp (segment id h).more refl) (λ c s. refl)
work_request-Meets (comments id) h =
    via_id (work_handler (comments id)) (work_request (comments id))
      (λ x. codes "" ∷ codes "api" ∷ codes "submissions" ∷ x ∷ codes "comments" ∷ []) id h
      (simp (segment id h).more refl) (λ c s. refl)
work_request-Meets (add_comment id b a) h =
    via_id (work_handler (add_comment id b a)) (work_request (add_comment id b a))
      (λ x. codes "" ∷ codes "api" ∷ codes "submissions" ∷ x ∷ codes "comments" ∷ []) id h
      (simp (segment id h).more refl) (λ c s. refl)
work_request-Meets (grade_history id) h =
    via_id (work_handler (grade_history id)) (work_request (grade_history id))
      (λ x. codes "" ∷ codes "api" ∷ codes "submissions" ∷ x ∷ codes "grade-history" ∷ []) id h
      (simp (segment id h).more refl) (λ c s. refl)
