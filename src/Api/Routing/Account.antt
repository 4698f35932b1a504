-- ===== src/Api/Routing/Account.antt =====
-- The routes of the methods of Api/Account.antt.
use the_cinder_project.Base.{Text, codes, text_eq, refl, [], ◌∷◌}
use the_cinder_project.Api.Account.{
  AccountCall, account_request, health, auth_status, login, me, logout, bootstrap_teacher,
  register_teacher, generate_teacher_invite, teacher_accounts, delete_teacher, recover_teacher,
  change_password, students, create_student, reset_student_credentials, update_student,
  delete_student, recover_student,
}
use the_cinder_project.Host.Routes.{dispatch, find_route, segments}
use the_cinder_project.Api.Routing.Ids.{IsId, segment, Meets, via_id}

-- The handler that the Host should call.
abbrev pub account_handler : AccountCall → Text
account_handler (health _) = codes "health::health"
account_handler auth_status = codes "auth::status"
account_handler (login _ _ _ _) = codes "auth::login"
account_handler me = codes "auth::me"
account_handler logout = codes "auth::logout"
account_handler (bootstrap_teacher _ _ _ _) = codes "auth::bootstrap"
account_handler (register_teacher _ _ _ _) = codes "auth::register_teacher"
account_handler generate_teacher_invite = codes "auth::generate_teacher_invite"
account_handler teacher_accounts = codes "auth::list_teachers"
account_handler (delete_teacher _ _) = codes "auth::delete_teacher"
account_handler (recover_teacher _ _ _) = codes "auth::recover_teacher"
account_handler (change_password _ _) = codes "auth::change_password"
account_handler students = codes "auth::list_users"
account_handler (create_student _) = codes "auth::create_student"
account_handler (reset_student_credentials _) = codes "auth::reset_student_credentials"
account_handler (update_student _ _) = codes "auth::update_student"
account_handler (delete_student _) = codes "auth::delete_student"
account_handler (recover_student _ _ _) = codes "auth::recover_student"

-- The ids in a path.
abbrev pub AccountIds : AccountCall → Type 0
AccountIds (health _) = Unit
AccountIds auth_status = Unit
AccountIds (login _ _ _ _) = Unit
AccountIds me = Unit
AccountIds logout = Unit
AccountIds (bootstrap_teacher _ _ _ _) = Unit
AccountIds (register_teacher _ _ _ _) = Unit
AccountIds generate_teacher_invite = Unit
AccountIds teacher_accounts = Unit
AccountIds (delete_teacher id _) = IsId id
AccountIds (recover_teacher _ _ _) = Unit
AccountIds (change_password _ _) = Unit
AccountIds students = Unit
AccountIds (create_student _) = Unit
AccountIds (reset_student_credentials id) = IsId id
AccountIds (update_student id _) = IsId id
AccountIds (delete_student id) = IsId id
AccountIds (recover_student _ _ _) = Unit

pub account_request-Meets :
    (c : AccountCall) → AccountIds c → Meets (account_handler c) (account_request c)
unfolding dispatch account_request find_route segments text_eq
account_request-Meets (health _) h = refl
account_request-Meets auth_status h = refl
account_request-Meets (login u p r d) h = refl
account_request-Meets me h = refl
account_request-Meets logout h = refl
account_request-Meets (bootstrap_teacher u d p b) h = refl
account_request-Meets (register_teacher u d p i) h = refl
account_request-Meets generate_teacher_invite h = refl
account_request-Meets teacher_accounts h = refl
account_request-Meets (delete_teacher id p) h =
    via_id (account_handler (delete_teacher id p)) (account_request (delete_teacher id p))
      (λ x. codes "" ∷ codes "api" ∷ codes "teacher" ∷ codes "accounts" ∷ x ∷ []) id h
      (simp (segment id h).last refl) (λ c s. refl)
account_request-Meets (recover_teacher u r p) h = refl
account_request-Meets (change_password c n) h = refl
account_request-Meets students h = refl
account_request-Meets (create_student input) h = refl
account_request-Meets (reset_student_credentials id) h =
    via_id (account_handler (reset_student_credentials id))
      (account_request (reset_student_credentials id))
      (λ x.
        codes ""
        ∷ codes "api"
        ∷ codes "teacher"
        ∷ codes "users"
        ∷ x
        ∷ codes "reset-credentials"
        ∷ [])
      id h (simp (segment id h).more refl) (λ c s. refl)
account_request-Meets (update_student id input) h =
    via_id (account_handler (update_student id input)) (account_request (update_student id input))
      (λ x. codes "" ∷ codes "api" ∷ codes "teacher" ∷ codes "users" ∷ x ∷ []) id h
      (simp (segment id h).last refl) (λ c s. refl)
account_request-Meets (delete_student id) h =
    via_id (account_handler (delete_student id)) (account_request (delete_student id))
      (λ x. codes "" ∷ codes "api" ∷ codes "teacher" ∷ codes "users" ∷ x ∷ []) id h
      (simp (segment id h).last refl) (λ c s. refl)
account_request-Meets (recover_student u r p) h = refl
