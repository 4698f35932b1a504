-- ===== src/Api/Classrooms.antt =====
-- Classrooms, live sessions and attendance: the methods from `classrooms` to `endLiveSession`, and
-- those on attendance, of packages/ui/src/api.ts.
use the_cinder_project.Base.{ℕ, some, [], ◌∷◌, ◌++◌, Text, codes}
use the_cinder_project.Base.Number.{from_nat}
use the_cinder_project.Base.Json.{Json, str, num}
use the_cinder_project.Api.Request.{
  Request, get_, post, put, patch, delete, plain, with_json, with_fields,
}

pub data ClassroomCall : Type 0 where
  classrooms active_student_live_sessions : ClassroomCall
  join_classroom join_live_session : Text → ClassroomCall
  classroom_teachers delete_classroom classroom_roster : Text → ClassroomCall
  active_live_session live_session_history : Text → ClassroomCall
  join_live_session_by_id live_session_details end_live_session : Text → ClassroomCall
  add_classroom_teacher remove_classroom_teacher enrol_student remove_student :
      Text → Text → ClassroomCall
  attendance : Text → Text → ClassroomCall
  create_classroom start_live_session : Json → ClassroomCall
  update_classroom assign_live_session_task submit_live_session_result : Text → Json → ClassroomCall
  acknowledge_live_session_task : Text → ℕ → Text → ClassroomCall
  save_attendance : Text → Text → Text → Text → Text → ClassroomCall

abbrev classroom_path : Text → Text → Text
classroom_path id rest = codes "/api/classrooms/" ++ (id ++ rest)

abbrev session_path : Text → Text → Text
session_path id rest = codes "/api/live-sessions/" ++ (id ++ rest)

unfoldable pub classroom_request : ClassroomCall → Request
classroom_request classrooms = plain get_ (codes "/api/classrooms")
classroom_request (join_classroom code) =
    with_fields post (codes "/api/classrooms/join") ((codes "code", some (str code)) ∷ [])
classroom_request (classroom_teachers id) = plain get_ (classroom_path id (codes "/teachers"))
classroom_request (add_classroom_teacher id teacher_id) =
    with_fields post (classroom_path id (codes "/teachers"))
      ((codes "teacher_id", some (str teacher_id)) ∷ [])
classroom_request (remove_classroom_teacher id teacher_id) =
    plain delete (classroom_path id (codes "/teachers/" ++ teacher_id))
classroom_request (create_classroom input) = with_json post (codes "/api/classrooms") input
classroom_request (update_classroom id input) =
    with_json patch (codes "/api/classrooms/" ++ id) input
classroom_request (delete_classroom id) = plain delete (codes "/api/classrooms/" ++ id)
classroom_request (classroom_roster id) = plain get_ (codes "/api/classrooms/" ++ id)
classroom_request (enrol_student classroom_id student_id) =
    with_fields post (classroom_path classroom_id (codes "/students"))
      ((codes "student_id", some (str student_id)) ∷ [])
classroom_request (remove_student classroom_id student_id) =
    plain delete (classroom_path classroom_id (codes "/students/" ++ student_id))
classroom_request (start_live_session input) = with_json post (codes "/api/live-sessions") input
classroom_request (active_live_session classroom_id) =
    plain get_ (classroom_path classroom_id (codes "/live-session"))
classroom_request active_student_live_sessions = plain get_ (codes "/api/live-sessions/active")
classroom_request (join_live_session code) =
    with_fields post (codes "/api/live-sessions/join") ((codes "code", some (str code)) ∷ [])
classroom_request (join_live_session_by_id id) = plain post (session_path id (codes "/join"))
classroom_request (assign_live_session_task id input) =
    with_json post (session_path id (codes "/task")) input
classroom_request (acknowledge_live_session_task id revision state) =
    with_fields post (session_path id (codes "/task-ack"))
      ((codes "revision", some (num (from_nat revision))) ∷ (codes "state", some (str state)) ∷ [])
classroom_request (live_session_history classroom_id) =
    plain get_ (classroom_path classroom_id (codes "/live-sessions"))
classroom_request (live_session_details id) = plain get_ (codes "/api/live-sessions/" ++ id)
classroom_request (submit_live_session_result id input) =
    with_json post (session_path id (codes "/result")) input
classroom_request (end_live_session id) = plain post (session_path id (codes "/end"))
classroom_request (attendance classroom_id day) =
    plain get_ (classroom_path classroom_id (codes "/attendance/" ++ day))
classroom_request (save_attendance classroom_id day student_id status note) =
    with_fields put (classroom_path classroom_id (codes "/attendance/" ++ day)) (
      (codes "student_id", some (str student_id))
      ∷ (codes "status", some (str status))
      ∷ (codes "note", some (str note))
      ∷ [])
