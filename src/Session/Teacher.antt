-- ===== src/Session/Teacher.antt =====
-- The stored session of the teacher's app and what its view waits for:
-- apps/teacher/src/teacherSession.ts, but for the addresses. `JSON.parse` is a parameter.
use the_cinder_project.Base.{
  ℕ, Bool, true, false, not, ◌&&◌, Option, none, some, [], ◌∷◌, Text, codes, text_eq, truthy,
  or_text, ◌==◌, if◌then◌else◌, ◌≡◌, refl, Bool-cases, inl, inr,
}
use the_cinder_project.Base.Json.{Json, null, bool, num, str, arr, obj, end, field, get, read_field}

pub record StoredTeacherSession : Type 0 where
  pub base_url : Text
  pub token : Text
  pub user : Json

abbrev role_is_teacher : Option Json → Bool
role_is_teacher none = false
role_is_teacher (some (str role)) = text_eq role (codes "teacher")
role_is_teacher (some null) = false
role_is_teacher (some (bool _)) = false
role_is_teacher (some (num _)) = false
role_is_teacher (some (arr _)) = false
role_is_teacher (some (obj _)) = false

-- A user that is missing or `null` has no role either: reading it throws, which is `null` as well.
abbrev teacher_of : Option Json → Option Json
unfolding read_field text_eq
teacher_of none = none
teacher_of (some user) = if role_is_teacher (get (codes "role") user) then some user else none

abbrev token_of : Option Json → Option Text
token_of (some (str (c ∷ token))) = some (c ∷ token)
token_of _ = none

abbrev base_url_or : Text → Option Json → Text
base_url_or fallback (some (str base_url)) = or_text base_url fallback
base_url_or fallback _ = fallback

abbrev session_from : Text → Option Text → Option Json → Option StoredTeacherSession
session_from base_url (some token) (some user) =
    some (record { base_url = base_url; token = token; user = user })
session_from base_url none _ = none
session_from base_url (some _) none = none

module _ (json_parse : Text → Option Json) where
  abbrev stored_from : Text → Option Json → Option StoredTeacherSession
  unfolding read_field teacher_of
  stored_from fallback none = none
  stored_from fallback (some value) =
      session_from (base_url_or fallback (get (codes "baseUrl") value))
        (token_of (get (codes "token") value)) (teacher_of (get (codes "user") value))

  unfoldable pub parse_stored_teacher_session : Text → Text → Option StoredTeacherSession
  unfolding stored_from
  parse_stored_teacher_session raw fallback = stored_from fallback (json_parse raw)

pub data TeacherView : Type 0 where
  workspace create_school sign_in : TeacherView

abbrev pub teacher_startup_view : Option Bool → Bool → TeacherView
teacher_startup_view needs_setup true = workspace
teacher_startup_view (some true) false = create_school
teacher_startup_view (some false) false = sign_in
teacher_startup_view none false = sign_in

abbrev pub teacher_reconnect_delay : Bool → Bool → Option ℕ
teacher_reconnect_delay online signed_in = if signed_in && not online then some 20000 else none

abbrev pub is_current_teacher_workspace_generation : ℕ → ℕ → Bool
is_current_teacher_workspace_generation request current = request == current

-- What `login` saves
abbrev pub session_json : Text → Text → Json → Json
session_json base_url token user = obj (
    field (codes "baseUrl") (str base_url)
      (field (codes "token") (str token) (field (codes "user") user end)))

module _ (json_parse : Text → Option Json) where
  -- A session of a teacher that was saved is read back as it was, whatever the address to fall back
  -- on, if its token and address are not empty; a session of any other role is none.
  parse-session_json :
      (raw fallback base_url token : Text) (user : Json)
      → json_parse raw ≡ some (session_json base_url token user)
      → truthy base_url ≡ true
      → truthy token ≡ true
      → parse_stored_teacher_session json_parse raw fallback ≡ (
          if role_is_teacher (get (codes "role") user)
          then some (record { base_url = base_url; token = token; user = user })
          else none)
  unfolding parse_stored_teacher_session teacher_of stored_from read_field text_eq
  parse-session_json raw fallback (b ∷ base_url) (t ∷ token) user e h k =
      elim (Bool-cases (role_is_teacher (get (codes "role") user))) [
        | inl r ↦ simp (e, r) refl
        | inr r ↦ simp (e, r) refl
      ]
  parse-session_json raw fallback [] token user e h k = absurd cc
  parse-session_json raw fallback (b ∷ base_url) [] user e h k = absurd cc
