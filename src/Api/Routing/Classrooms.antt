-- ===== src/Api/Routing/Classrooms.antt =====
-- The routes of the methods of Api/Classrooms.antt.
use the_cinder_project.Base.{Text, codes, text_eq, refl, [], ◌∷◌}
use the_cinder_project.Api.Classrooms.{
  ClassroomCall, classroom_request, classrooms, join_classroom, classroom_teachers,
  add_classroom_teacher, remove_classroom_teacher, create_classroom, update_classroom,
  delete_classroom, classroom_roster, enrol_student, remove_student, start_live_session,
  active_live_session, active_student_live_sessions, join_live_session, join_live_session_by_id,
  assign_live_session_task, acknowledge_live_session_task, live_session_history,
  live_session_details, submit_live_session_result, end_live_session, attendance, save_attendance,
}
use the_cinder_project.Host.Routes.{dispatch, find_route, segments}
use the_cinder_project.Api.Routing.Ids.{IsId, segment, Meets, via, via_id, via_ids}

-- The handler that the Host should call.
abbrev pub classroom_handler : ClassroomCall → Text
classroom_handler classrooms = codes "classrooms::list"
classroom_handler (join_classroom _) = codes "classrooms::join"
classroom_handler (classroom_teachers _) = codes "classrooms::classroom_teachers"
classroom_handler (add_classroom_teacher _ _) = codes "classrooms::add_co_teacher"
classroom_handler (remove_classroom_teacher _ _) = codes "classrooms::remove_co_teacher"
classroom_handler (create_classroom _) = codes "classrooms::create"
classroom_handler (update_classroom _ _) = codes "classrooms::update"
classroom_handler (delete_classroom _) = codes "classrooms::archive"
classroom_handler (classroom_roster _) = codes "classrooms::roster"
classroom_handler (enrol_student _ _) = codes "classrooms::enrol"
classroom_handler (remove_student _ _) = codes "classrooms::remove"
classroom_handler (start_live_session _) = codes "live_sessions::start"
classroom_handler (active_live_session _) = codes "live_sessions::active_for_classroom"
classroom_handler active_student_live_sessions = codes "live_sessions::active_for_student"
classroom_handler (join_live_session _) = codes "live_sessions::join"
classroom_handler (join_live_session_by_id _) = codes "live_sessions::join_by_id"
classroom_handler (assign_live_session_task _ _) = codes "live_sessions::assign_task"
classroom_handler (acknowledge_live_session_task _ _ _) = codes "live_sessions::acknowledge_task"
classroom_handler (live_session_history _) = codes "live_sessions::session_history"
classroom_handler (live_session_details _) = codes "live_sessions::details"
classroom_handler (submit_live_session_result _ _) = codes "live_sessions::submit_result"
classroom_handler (end_live_session _) = codes "live_sessions::end"
classroom_handler (attendance _ _) = codes "attendance::read_day"
classroom_handler (save_attendance _ _ _ _ _) = codes "attendance::save_record"

-- The ids in a path.
abbrev pub ClassroomIds : ClassroomCall → Type 0
ClassroomIds classrooms = Unit
ClassroomIds (join_classroom _) = Unit
ClassroomIds (classroom_teachers id) = IsId id
ClassroomIds (add_classroom_teacher id _) = IsId id
ClassroomIds (remove_classroom_teacher id t) = IsId id × IsId t
ClassroomIds (create_classroom _) = Unit
ClassroomIds (update_classroom id _) = IsId id
ClassroomIds (delete_classroom id) = IsId id
ClassroomIds (classroom_roster id) = IsId id
ClassroomIds (enrol_student id _) = IsId id
ClassroomIds (remove_student id s) = IsId id × IsId s
ClassroomIds (start_live_session _) = Unit
ClassroomIds (active_live_session id) = IsId id
ClassroomIds active_student_live_sessions = Unit
ClassroomIds (join_live_session _) = Unit
ClassroomIds (join_live_session_by_id id) = IsId id
ClassroomIds (assign_live_session_task id _) = IsId id
ClassroomIds (acknowledge_live_session_task id _ _) = IsId id
ClassroomIds (live_session_history id) = IsId id
ClassroomIds (live_session_details id) = IsId id
ClassroomIds (submit_live_session_result id _) = IsId id
ClassroomIds (end_live_session id) = IsId id
ClassroomIds (attendance id day) = IsId id × IsId day
ClassroomIds (save_attendance id day _ _ _) = IsId id × IsId day

pub classroom_request-Meets :
    (c : ClassroomCall) → ClassroomIds c → Meets (classroom_handler c) (classroom_request c)
unfolding dispatch classroom_request find_route segments text_eq
classroom_request-Meets classrooms h = refl
classroom_request-Meets (join_classroom code) h = refl
classroom_request-Meets (classroom_teachers id) h =
    via_id (classroom_handler (classroom_teachers id)) (classroom_request (classroom_teachers id))
      (λ x. codes "" ∷ codes "api" ∷ codes "classrooms" ∷ x ∷ codes "teachers" ∷ []) id h
      (simp (segment id h).more refl) (λ c s. refl)
classroom_request-Meets (add_classroom_teacher id t) h =
    via_id (classroom_handler (add_classroom_teacher id t))
      (classroom_request (add_classroom_teacher id t))
      (λ x. codes "" ∷ codes "api" ∷ codes "classrooms" ∷ x ∷ codes "teachers" ∷ []) id h
      (simp (segment id h).more refl) (λ c s. refl)
classroom_request-Meets (remove_classroom_teacher id t) h =
    via_ids (classroom_handler (remove_classroom_teacher id t))
      (classroom_request (remove_classroom_teacher id t))
      (λ x y. codes "" ∷ codes "api" ∷ codes "classrooms" ∷ x ∷ codes "teachers" ∷ y ∷ []) id t h.0
      h.1 (simp ((segment id h.0).more, (segment t h.1).last) refl) (λ c d s t. refl)
classroom_request-Meets (create_classroom input) h = refl
classroom_request-Meets (update_classroom id input) h =
    via (classroom_handler (update_classroom id input))
      (classroom_request (update_classroom id input))
      (codes "" ∷ codes "api" ∷ codes "classrooms" ∷ id ∷ []) (simp (segment id h).last refl)
      (simp ((segment id h).some_char, (segment id h).ne_join) refl)
classroom_request-Meets (delete_classroom id) h =
    via (classroom_handler (delete_classroom id)) (classroom_request (delete_classroom id))
      (codes "" ∷ codes "api" ∷ codes "classrooms" ∷ id ∷ []) (simp (segment id h).last refl)
      (simp ((segment id h).some_char, (segment id h).ne_join) refl)
classroom_request-Meets (classroom_roster id) h =
    via (classroom_handler (classroom_roster id)) (classroom_request (classroom_roster id))
      (codes "" ∷ codes "api" ∷ codes "classrooms" ∷ id ∷ []) (simp (segment id h).last refl)
      (simp ((segment id h).some_char, (segment id h).ne_join) refl)
classroom_request-Meets (enrol_student id s) h =
    via_id (classroom_handler (enrol_student id s)) (classroom_request (enrol_student id s))
      (λ x. codes "" ∷ codes "api" ∷ codes "classrooms" ∷ x ∷ codes "students" ∷ []) id h
      (simp (segment id h).more refl) (λ c s. refl)
classroom_request-Meets (remove_student id s) h =
    via_ids (classroom_handler (remove_student id s)) (classroom_request (remove_student id s))
      (λ x y. codes "" ∷ codes "api" ∷ codes "classrooms" ∷ x ∷ codes "students" ∷ y ∷ []) id s h.0
      h.1 (simp ((segment id h.0).more, (segment s h.1).last) refl) (λ c d s t. refl)
classroom_request-Meets (start_live_session input) h = refl
classroom_request-Meets (active_live_session id) h =
    via_id (classroom_handler (active_live_session id)) (classroom_request (active_live_session id))
      (λ x. codes "" ∷ codes "api" ∷ codes "classrooms" ∷ x ∷ codes "live-session" ∷ []) id h
      (simp (segment id h).more refl) (λ c s. refl)
classroom_request-Meets active_student_live_sessions h = refl
classroom_request-Meets (join_live_session code) h = refl
classroom_request-Meets (join_live_session_by_id id) h =
    via_id (classroom_handler (join_live_session_by_id id))
      (classroom_request (join_live_session_by_id id))
      (λ x. codes "" ∷ codes "api" ∷ codes "live-sessions" ∷ x ∷ codes "join" ∷ []) id h
      (simp (segment id h).more refl) (λ c s. refl)
classroom_request-Meets (assign_live_session_task id input) h =
    via_id (classroom_handler (assign_live_session_task id input))
      (classroom_request (assign_live_session_task id input))
      (λ x. codes "" ∷ codes "api" ∷ codes "live-sessions" ∷ x ∷ codes "task" ∷ []) id h
      (simp (segment id h).more refl) (λ c s. refl)
classroom_request-Meets (acknowledge_live_session_task id r s) h =
    via_id (classroom_handler (acknowledge_live_session_task id r s))
      (classroom_request (acknowledge_live_session_task id r s))
      (λ x. codes "" ∷ codes "api" ∷ codes "live-sessions" ∷ x ∷ codes "task-ack" ∷ []) id h
      (simp (segment id h).more refl) (λ c s. refl)
classroom_request-Meets (live_session_history id) h =
    via_id (classroom_handler (live_session_history id))
      (classroom_request (live_session_history id))
      (λ x. codes "" ∷ codes "api" ∷ codes "classrooms" ∷ x ∷ codes "live-sessions" ∷ []) id h
      (simp (segment id h).more refl) (λ c s. refl)
classroom_request-Meets (live_session_details id) h =
    via (classroom_handler (live_session_details id)) (classroom_request (live_session_details id))
      (codes "" ∷ codes "api" ∷ codes "live-sessions" ∷ id ∷ []) (simp (segment id h).last refl)
      (simp ((segment id h).some_char, (segment id h).ne_join, (segment id h).ne_active) refl)
classroom_request-Meets (submit_live_session_result id input) h =
    via_id (classroom_handler (submit_live_session_result id input))
      (classroom_request (submit_live_session_result id input))
      (λ x. codes "" ∷ codes "api" ∷ codes "live-sessions" ∷ x ∷ codes "result" ∷ []) id h
      (simp (segment id h).more refl) (λ c s. refl)
classroom_request-Meets (end_live_session id) h =
    via_id (classroom_handler (end_live_session id)) (classroom_request (end_live_session id))
      (λ x. codes "" ∷ codes "api" ∷ codes "live-sessions" ∷ x ∷ codes "end" ∷ []) id h
      (simp (segment id h).more refl) (λ c s. refl)
classroom_request-Meets (attendance id day) h =
    via_ids (classroom_handler (attendance id day)) (classroom_request (attendance id day))
      (λ x y. codes "" ∷ codes "api" ∷ codes "classrooms" ∷ x ∷ codes "attendance" ∷ y ∷ []) id day
      h.0 h.1 (simp ((segment id h.0).more, (segment day h.1).last) refl) (λ c d s t. refl)
classroom_request-Meets (save_attendance id day s st n) h =
    via_ids (classroom_handler (save_attendance id day s st n))
      (classroom_request (save_attendance id day s st n))
      (λ x y. codes "" ∷ codes "api" ∷ codes "classrooms" ∷ x ∷ codes "attendance" ∷ y ∷ []) id day
      h.0 h.1 (simp ((segment id h.0).more, (segment day h.1).last) refl) (λ c d s t. refl)
