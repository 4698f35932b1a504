-- ===== src/Host/Routes.antt =====
-- The Host's routes: the `router` of each module of crates/host/src/routes, which crates/host/src/lib.rs
-- merges. A handler is named by its module and function. `IsRouter` is what axum, the router of the Host,
-- documents: a name in braces takes any segment, a fixed segment goes before one in braces, and a
-- path that fits with another method is answered by 405.
use the_cinder_project.Base.{
  Bool, true, false, ◌&&◌, List, [], ◌∷◌, ◌++◌, Text, codes, push_char, text_eq, truthy, ◌==◌,
  if◌then◌else◌, ◌≡◌,
}
use the_cinder_project.Api.Request.{Method, get_, post, put, patch, delete}

pub record Route : Type 0 where
  pub pattern : Text
  pub handlers : List (Method × Text)

abbrev on : Text → List (Method × Text) → Route
on pattern handlers = record { pattern = pattern; handlers = handlers }

abbrev health_router : List Route
health_router = on (codes "/api/health") ((get_, codes "health::health") ∷ []) ∷ []

abbrev auth_router : List Route
auth_router =
    on (codes "/api/auth/status") ((get_, codes "auth::status") ∷ [])
    ∷ on (codes "/api/auth/login") ((post, codes "auth::login") ∷ [])
    ∷ on (codes "/api/auth/logout") ((post, codes "auth::logout") ∷ [])
    ∷ on (codes "/api/auth/bootstrap") ((post, codes "auth::bootstrap") ∷ [])
    ∷ on (codes "/api/auth/register-teacher") ((post, codes "auth::register_teacher") ∷ [])
    ∷ on (codes "/api/auth/recover") ((post, codes "auth::recover_teacher") ∷ [])
    ∷ on (codes "/api/auth/student-recover") ((post, codes "auth::recover_student") ∷ [])
    ∷ on (codes "/api/auth/change-password") ((post, codes "auth::change_password") ∷ [])
    ∷ on (codes "/api/me") ((get_, codes "auth::me") ∷ [])
    ∷ on (codes "/api/teacher/invite-pin") ((post, codes "auth::generate_teacher_invite") ∷ [])
    ∷ on (codes "/api/teacher/accounts") ((get_, codes "auth::list_teachers") ∷ [])
    ∷ on (codes "/api/teacher/accounts/{id}") ((delete, codes "auth::delete_teacher") ∷ [])
    ∷ on (codes "/api/teacher/users")
        ((get_, codes "auth::list_users") ∷ (post, codes "auth::create_student") ∷ [])
    ∷ on (codes "/api/teacher/users/{id}")
        ((patch, codes "auth::update_student") ∷ (delete, codes "auth::delete_student") ∷ [])
    ∷ on (codes "/api/teacher/users/{id}/reset-credentials")
        ((post, codes "auth::reset_student_credentials") ∷ [])
    ∷ []

abbrev assignments_router : List Route
assignments_router =
    on (codes "/api/assignments") (
      (get_, codes "assignments::list_assignments")
      ∷ (post, codes "assignments::create_assignment")
      ∷ [])
    ∷ on (codes "/api/assignments/{id}") (
        (get_, codes "assignments::get_assignment")
        ∷ (patch, codes "assignments::update_assignment")
        ∷ (delete, codes "assignments::delete_assignment")
        ∷ [])
    ∷ on (codes "/api/assignments/{id}/submission") (
        (get_, codes "assignments::get_my_submission")
        ∷ (put, codes "assignments::submit_work")
        ∷ (delete, codes "assignments::withdraw_work")
        ∷ [])
    ∷ on (codes "/api/assignments/{id}/submissions")
        ((get_, codes "assignments::list_submissions") ∷ [])
    ∷ on (codes "/api/submissions/{id}") ((get_, codes "assignments::get_submission") ∷ [])
    ∷ on (codes "/api/submissions/{id}/grade") ((put, codes "assignments::save_grade") ∷ [])
    ∷ on (codes "/api/submissions/{id}/comments")
        ((get_, codes "assignments::list_comments") ∷ (post, codes "assignments::add_comment") ∷ [])
    ∷ on (codes "/api/submissions/{id}/grade-history")
        ((get_, codes "assignments::grade_history") ∷ [])
    ∷ []

abbrev attendance_router : List Route
attendance_router =
    on (codes "/api/classrooms/{classroom_id}/attendance/{day}")
      ((get_, codes "attendance::read_day") ∷ (put, codes "attendance::save_record") ∷ [])
    ∷ []

abbrev cards_router : List Route
cards_router =
    on (codes "/api/decks/{id}/cards")
      ((get_, codes "cards::list") ∷ (post, codes "cards::create") ∷ [])
    ∷ on (codes "/api/cards/{id}") ((delete, codes "cards::remove") ∷ [])
    ∷ []

abbrev classrooms_router : List Route
classrooms_router =
    on (codes "/api/classrooms")
      ((get_, codes "classrooms::list") ∷ (post, codes "classrooms::create") ∷ [])
    ∷ on (codes "/api/classrooms/join") ((post, codes "classrooms::join") ∷ [])
    ∷ on (codes "/api/classrooms/{id}") (
        (get_, codes "classrooms::roster")
        ∷ (patch, codes "classrooms::update")
        ∷ (delete, codes "classrooms::archive")
        ∷ [])
    ∷ on (codes "/api/classrooms/{id}/students") ((post, codes "classrooms::enrol") ∷ [])
    ∷ on (codes "/api/classrooms/{id}/students/{student_id}")
        ((delete, codes "classrooms::remove") ∷ [])
    ∷ on (codes "/api/classrooms/{id}/teachers") (
        (get_, codes "classrooms::classroom_teachers")
        ∷ (post, codes "classrooms::add_co_teacher")
        ∷ [])
    ∷ on (codes "/api/classrooms/{id}/teachers/{teacher_id}")
        ((delete, codes "classrooms::remove_co_teacher") ∷ [])
    ∷ []

abbrev dashboard_router : List Route
dashboard_router = on (codes "/api/teacher/dashboard") ((get_, codes "dashboard::stats") ∷ []) ∷ []

abbrev tree_router : List Route
tree_router =
    on (codes "/api/tree") ((get_, codes "tree::get_tree") ∷ [])
    ∷ on (codes "/api/nodes") ((post, codes "tree::create_node") ∷ [])
    ∷ on (codes "/api/nodes/{id}")
        ((patch, codes "tree::update_node") ∷ (delete, codes "tree::delete_node") ∷ [])
    ∷ []

abbrev notes_router : List Route
notes_router =
    on (codes "/api/notes/{id}")
      ((get_, codes "notes::get_note") ∷ (put, codes "notes::save_note") ∷ [])
    ∷ on (codes "/api/search") ((get_, codes "notes::search") ∷ [])
    ∷ []

abbrev papers_router : List Route
papers_router =
    on (codes "/api/papers") ((get_, codes "papers::list_papers") ∷ [])
    ∷ on (codes "/api/papers/search") ((post, codes "papers::search") ∷ [])
    ∷ on (codes "/api/papers/fetch") ((post, codes "papers::fetch_source") ∷ [])
    ∷ on (codes "/api/papers/figures") ((post, codes "papers::figures") ∷ [])
    ∷ on (codes "/api/papers/{id}") (
        (get_, codes "papers::get_paper")
        ∷ (patch, codes "papers::update_paper")
        ∷ (delete, codes "papers::delete_paper")
        ∷ [])
    ∷ []

abbrev quizzes_router : List Route
quizzes_router =
    on (codes "/api/quizzes")
      ((get_, codes "quizzes::list_quizzes") ∷ (post, codes "quizzes::create_quiz") ∷ [])
    ∷ on (codes "/api/quizzes/{id}") (
        (get_, codes "quizzes::get_quiz")
        ∷ (patch, codes "quizzes::update_quiz")
        ∷ (delete, codes "quizzes::archive_quiz")
        ∷ [])
    ∷ on (codes "/api/quizzes/{id}/duplicate") ((post, codes "quizzes::duplicate_quiz") ∷ [])
    ∷ on (codes "/api/quizzes/{id}/publish") ((post, codes "quizzes::publish_quiz") ∷ [])
    ∷ on (codes "/api/quizzes/{id}/deliver") ((post, codes "quizzes::deliver_quiz") ∷ [])
    ∷ on (codes "/api/quiz-deliveries") ((get_, codes "quizzes::list_deliveries") ∷ [])
    ∷ on (codes "/api/quiz-deliveries/{id}/start") ((post, codes "quizzes::start_attempt") ∷ [])
    ∷ on (codes "/api/quiz-deliveries/{id}/attempts") ((get_, codes "quizzes::list_attempts") ∷ [])
    ∷ on (codes "/api/quiz-deliveries/{id}/release") ((post, codes "quizzes::release_results") ∷ [])
    ∷ on (codes "/api/quiz-deliveries/{id}/stats") ((get_, codes "quizzes::statistics") ∷ [])
    ∷ on (codes "/api/quiz-attempts/{id}") ((get_, codes "quizzes::get_attempt") ∷ [])
    ∷ on (codes "/api/quiz-attempts/{id}/responses/{question_id}")
        ((put, codes "quizzes::save_response") ∷ [])
    ∷ on (codes "/api/quiz-attempts/{id}/submit") ((post, codes "quizzes::submit_attempt") ∷ [])
    ∷ on (codes "/api/quiz-attempts/{id}/reopen") ((post, codes "quizzes::reopen_attempt") ∷ [])
    ∷ on (codes "/api/quiz-attempts/{id}/responses/{question_id}/grade")
        ((put, codes "quizzes::grade_response") ∷ [])
    ∷ []

abbrev files_router : List Route
files_router =
    on (codes "/api/files") ((post, codes "files::upload") ∷ [])
    ∷ on (codes "/api/files/{id}") ((get_, codes "files::download") ∷ [])
    ∷ []

abbrev live_sessions_router : List Route
live_sessions_router =
    on (codes "/api/live-sessions") ((post, codes "live_sessions::start") ∷ [])
    ∷ on (codes "/api/live-sessions/active")
        ((get_, codes "live_sessions::active_for_student") ∷ [])
    ∷ on (codes "/api/live-sessions/join") ((post, codes "live_sessions::join") ∷ [])
    ∷ on (codes "/api/live-sessions/{id}/join") ((post, codes "live_sessions::join_by_id") ∷ [])
    ∷ on (codes "/api/live-sessions/{id}") ((get_, codes "live_sessions::details") ∷ [])
    ∷ on (codes "/api/live-sessions/{id}/task") ((post, codes "live_sessions::assign_task") ∷ [])
    ∷ on (codes "/api/live-sessions/{id}/task-ack")
        ((post, codes "live_sessions::acknowledge_task") ∷ [])
    ∷ on (codes "/api/live-sessions/{id}/result")
        ((post, codes "live_sessions::submit_result") ∷ [])
    ∷ on (codes "/api/live-sessions/{id}/end") ((post, codes "live_sessions::end") ∷ [])
    ∷ on (codes "/api/classrooms/{classroom_id}/live-session")
        ((get_, codes "live_sessions::active_for_classroom") ∷ [])
    ∷ on (codes "/api/classrooms/{classroom_id}/live-sessions")
        ((get_, codes "live_sessions::session_history") ∷ [])
    ∷ []

abbrev ai_router : List Route
ai_router = on (codes "/api/ai/chat") ((post, codes "ai::chat") ∷ []) ∷ []

-- `merge` of all; no path fits the routes of two modules, so their order does not matter.
abbrev pub routes : List Route
routes =
    health_router
    ++ (auth_router
        ++ (assignments_router
            ++ (cards_router
                ++ (dashboard_router
                    ++ (tree_router
                        ++ (notes_router
                            ++ (quizzes_router
                                ++ (files_router
                                    ++ (ai_router
                                        ++ (papers_router
                                            ++ (attendance_router
                                                ++ (classrooms_router
                                                    ++ (live_sessions_router)))))))))))))

-- The segments of a path, up to its query.
unfoldable pub segments : Text → List Text
segments [] = [] ∷ []
segments (c ∷ s) =
    let rest = segments s in
    if c == b'?' then [] ∷ [] else if c == b'/' then [] ∷ rest else push_char c rest

-- `{name}` takes any segment that is not empty.
abbrev takes : Text → Text → Bool
takes [] segment = text_eq [] segment
takes (c ∷ name) segment = if c == b'{' then truthy segment else text_eq (c ∷ name) segment

abbrev same_length : List Text → List Text → Bool
same_length [] [] = true
same_length (_ ∷ ps) (_ ∷ ss) = same_length ps ss
same_length [] (_ ∷ _) = false
same_length (_ ∷ _) [] = false

abbrev takes_all : List Text → List Text → Bool
takes_all [] ss = true
takes_all (p ∷ ps) [] = false
takes_all (p ∷ ps) (s ∷ ss) = takes p s && takes_all ps ss

abbrev fits : List Text → List Text → Bool
fits ps ss = same_length ps ss && takes_all ps ss

abbrev method_eq : Method → Method → Bool
method_eq get_ get_ = true
method_eq post post = true
method_eq put put = true
method_eq patch patch = true
method_eq delete delete = true
method_eq _ _ = false

pub data Answer : Type 0 where
  not_found not_allowed : Answer
  handled : Text → Answer

abbrev pick : Method → List (Method × Text) → Answer
pick m [] = not_allowed
pick m ((n, handler) ∷ hs) = if method_eq m n then handled handler else pick m hs

-- The first route that fits; the table lists a fixed path before those in braces that it fits.
unfoldable pub find_route : List Route → Method → List Text → Answer
unfolding segments text_eq
find_route [] m path = not_found
find_route (r ∷ rs) m path =
    if fits (segments r.pattern) path then pick m r.handlers else find_route rs m path

-- What axum documents for the table.
unfoldable pub dispatch : Method → Text → Answer
unfolding find_route segments
dispatch m path = find_route routes m (segments path)

abbrev pub IsRouter : (List Route → Method → Text → Answer) → Type 0
IsRouter serve = (m : Method) (path : Text) → serve routes m path ≡ dispatch m path
