-- ===== src/Api/Account.antt =====
-- Accounts: the methods from `health` to `recoverStudent` of packages/ui/src/api.ts. An `input` that a
-- method hands to `JSON.stringify` is a JSON value.
use the_cinder_project.Base.{ℕ, Option, some, [], ◌∷◌, ◌++◌, Text, codes}
use the_cinder_project.Base.Json.{Json, str}
use the_cinder_project.Model.{Role, student, teacher}
use the_cinder_project.Api.Request.{
  Request, get_, post, patch, delete, plain, with_json, with_fields, within, text_or_null,
}

pub data AccountCall : Type 0 where
  health : ℕ → AccountCall
  auth_status me logout generate_teacher_invite teacher_accounts students : AccountCall
  login : Text → Text → Role → Option Text → AccountCall
  bootstrap_teacher register_teacher : Text → Text → Text → Text → AccountCall
  recover_teacher recover_student : Text → Text → Text → AccountCall
  delete_teacher change_password : Text → Text → AccountCall
  create_student : Json → AccountCall
  update_student : Text → Json → AccountCall
  reset_student_credentials delete_student : Text → AccountCall

abbrev role_name : Role → Text
role_name student = codes "student"
role_name teacher = codes "teacher"

unfoldable pub account_request : AccountCall → Request
account_request (health timeout_ms) = within timeout_ms (plain get_ (codes "/api/health"))
account_request auth_status = within 2000 (plain get_ (codes "/api/auth/status"))
account_request (login username password expected_role device_label) =
    with_fields post (codes "/api/auth/login") (
      (codes "username", some (str username))
      ∷ (codes "password", some (str password))
      ∷ (codes "expected_role", some (str (role_name expected_role)))
      ∷ (codes "device_label", text_or_null device_label)
      ∷ [])
account_request me = within 4000 (plain get_ (codes "/api/me"))
account_request logout = plain post (codes "/api/auth/logout")
account_request (bootstrap_teacher username display_name password bootstrap_pin) =
    with_fields post (codes "/api/auth/bootstrap") (
      (codes "username", some (str username))
      ∷ (codes "display_name", some (str display_name))
      ∷ (codes "password", some (str password))
      ∷ (codes "bootstrap_pin", some (str bootstrap_pin))
      ∷ [])
account_request (register_teacher username display_name password invite_pin) =
    with_fields post (codes "/api/auth/register-teacher") (
      (codes "username", some (str username))
      ∷ (codes "display_name", some (str display_name))
      ∷ (codes "password", some (str password))
      ∷ (codes "invite_pin", some (str invite_pin))
      ∷ [])
account_request generate_teacher_invite = plain post (codes "/api/teacher/invite-pin")
account_request teacher_accounts = plain get_ (codes "/api/teacher/accounts")
account_request (delete_teacher teacher_id current_password) =
    with_fields delete (codes "/api/teacher/accounts/" ++ teacher_id)
      ((codes "current_password", some (str current_password)) ∷ [])
account_request (recover_teacher username recovery_code new_password) =
    with_fields post (codes "/api/auth/recover") (
      (codes "username", some (str username))
      ∷ (codes "recovery_code", some (str recovery_code))
      ∷ (codes "new_password", some (str new_password))
      ∷ [])
account_request (change_password current_password new_password) =
    with_fields post (codes "/api/auth/change-password") (
      (codes "current_password", some (str current_password))
      ∷ (codes "new_password", some (str new_password))
      ∷ [])
account_request students = plain get_ (codes "/api/teacher/users")
account_request (create_student input) = with_json post (codes "/api/teacher/users") input
account_request (reset_student_credentials student_id) =
    plain post (codes "/api/teacher/users/" ++ (student_id ++ codes "/reset-credentials"))
account_request (update_student student_id input) =
    with_json patch (codes "/api/teacher/users/" ++ student_id) input
account_request (delete_student student_id) =
    plain delete (codes "/api/teacher/users/" ++ student_id)
account_request (recover_student username recovery_code new_password) =
    with_fields post (codes "/api/auth/student-recover") (
      (codes "username", some (str username))
      ∷ (codes "recovery_code", some (str recovery_code))
      ∷ (codes "new_password", some (str new_password))
      ∷ [])
