-- ===== src/Model.antt =====
-- The records of packages/ui/src/types.ts that several components share. Dates are the texts that
-- the Host sends.
use the_cinder_project.Base.{Bool, true, false, ◌&&◌, Option, none, some, Text, text_eq}

pub data Role : Type 0 where
  student teacher : Role

pub record User : Type 0 where
  pub id : Text
  pub username : Text
  pub display_name : Text
  pub role : Role
  pub grade_level : Option Text
  pub section : Option Text
  pub roll_number : Option Text
  pub must_change_password : Bool
  pub created_at : Text

abbrev role_eq : Role → Role → Bool
role_eq student student = true
role_eq teacher teacher = true
role_eq student teacher = false
role_eq teacher student = false

abbrev option_eq : Option Text → Option Text → Bool
option_eq none none = true
option_eq (some s) (some t) = text_eq s t
option_eq none (some _) = false
option_eq (some _) none = false

abbrev bool_eq : Bool → Bool → Bool
bool_eq true true = true
bool_eq false false = true
bool_eq true false = false
bool_eq false true = false

-- `JSON.stringify(a) === JSON.stringify(b)` on two users.
unfoldable pub user_eq : User → User → Bool
unfolding text_eq
user_eq a b =
    text_eq a.id b.id
    && text_eq a.username b.username
    && text_eq a.display_name b.display_name
    && role_eq a.role b.role
    && option_eq a.grade_level b.grade_level
    && option_eq a.section b.section
    && option_eq a.roll_number b.roll_number
    && bool_eq a.must_change_password b.must_change_password
    && text_eq a.created_at b.created_at
