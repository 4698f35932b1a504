-- ===== src/Workspace/Tests.antt =====
-- The workspace at concrete inputs.
use the_cinder_project.Base.{
  ℕ, false, ◌+◌, ◌≤◌, true, ◌≡◌, refl, arith, Option, none, some, List, [], ◌∷◌, ◌++◌, Text, codes,
  text_eq, length, if◌then◌else◌,
}
use the_cinder_project.Workspace.{
  ForgeNote, StudioNote, ForgeData, Moment, NoteInput, empty_data, timer, library,
}
use the_cinder_project.Base.Json.{Json}
use the_cinder_project.Workspace.Decode.{decode_workspace}
use the_cinder_project.Workspace.Encode.{to_json, decode_workspace-to_json}
use the_cinder_project.Workspace.Readable.{IsReadable, decode_workspace-IsReadable}
use the_cinder_project.Base.Dict.{lookup}
use the_cinder_project.Workspace.Store.{
  Hook, document_key_prefix, save_effect, reset_workspace, reset_workspace-lookup,
}
use the_cinder_project.Workspace.Migrate.{
  migrate_notes, count, has_id, has_note, with_id, IsSorted, count-migrate_notes, escape,
}
use the_cinder_project.Workspace.Laws.{
  Change, adding_note, removing_note, choosing_widgets, run, IsValid, holds, run_changes-IsValid,
}

abbrev essay : StudioNote
essay = record {
  id = codes "e";
  title = codes "Essay";
  topic = [];
  body_html = codes "<p>x</p>";
  created_at = codes "1";
  updated_at = codes "12";
  deleted_at = none;
}

abbrev legacy : ForgeNote
legacy = record {
  id = codes "l";
  title = [];
  body = codes "a<b";
  topic = [];
  created_at = codes "123";
}

abbrev clock : Text → Option ℕ
clock date = some (length date)

abbrev desk : ForgeData
desk = record empty_data { studio_notes = essay ∷ [] }

abbrev at : Moment
at = record { now = codes "1234"; note_id = codes "n"; activity_id = codes "a" }

abbrev input : NoteInput
input = record { title = codes "Draft"; topic = []; body_html = [] }

abbrev changes : List (Moment × Change)
changes =
    (at, adding_note input)
    ∷ (at, removing_note (codes "e"))
    ∷ (at, choosing_widgets (library ∷ timer ∷ library ∷ []))
    ∷ []

desk-IsValid : IsValid desk
desk-IsValid = record { distinct_widgets = refl; some_widget = omega arith; recent = omega arith }

escape_test : escape (codes "a<b&c") ≡ codes "a&lt;b&amp;c"
unfolding escape
escape_test = refl

run_changes-IsValid_example :
    IsValid (run changes desk)
    × (holds (codes "e") (run changes desk) ≡ true)
    × ((run changes desk).notes ≡ desk.notes)
unfolding text_eq
run_changes-IsValid_example = run_changes-IsValid changes desk (codes "e") desk-IsValid refl

count-migrate_notes_example :
    (count (with_id (codes "l")) (essay ∷ [])
      ≤ count (with_id (codes "l")) (migrate_notes clock (legacy ∷ []) (essay ∷ [])))
    × (count (with_id (codes "l")) (migrate_notes clock (legacy ∷ []) (essay ∷ []))
        ≡ count (with_id (codes "l")) (essay ∷ [])
          + (if has_id (codes "l") (codes "e" ∷ [])
              then 0
              else if has_note (codes "l") (legacy ∷ [])
              then 1
              else 0))
    × IsSorted clock (migrate_notes clock (legacy ∷ []) (essay ∷ []))
count-migrate_notes_example =
    count-migrate_notes clock (with_id (codes "l")) (codes "l") (legacy ∷ []) (essay ∷ [])
      (refl, tt) (refl, tt)

abbrev parse_desk : Text → Option Json
parse_desk raw = some (to_json desk)

decode_workspace-to_json_example :
    decode_workspace clock (codes "5") parse_desk (some (codes "{}")) ≡ some desk
decode_workspace-to_json_example =
    decode_workspace-to_json clock (codes "5") parse_desk (codes "{}") desk refl refl desk-IsValid
      tt

desk_test : decode_workspace clock (codes "5") parse_desk (some (codes "{}")) ≡ some desk
desk_test =
    decode_workspace-to_json clock (codes "5") parse_desk (codes "{}") desk refl refl desk-IsValid
      tt

decode_workspace-IsReadable_example : IsReadable desk
decode_workspace-IsReadable_example =
    decode_workspace-IsReadable clock (codes "5") refl parse_desk (some (codes "{}")) desk_test

abbrev version_key : Text
version_key = document_key_prefix (codes "u") ++ codes "e"

abbrev used : Hook
used = record {
  disk = (version_key, codes "secret") ∷ [];
  workspace = desk;
  read_error = false;
  save_error = false;
}

abbrev stringify : ForgeData → Text
stringify d = codes "{}"

reset_workspace-lookup_example :
    (lookup version_key (reset_workspace stringify (codes "u") none true used).0.disk ≡ none)
    × (lookup version_key
          (save_effect stringify
            (codes "u")
            true
            (reset_workspace stringify (codes "u") none true used).0).disk
        ≡ lookup version_key (reset_workspace stringify (codes "u") none true used).0.disk)
    × ((reset_workspace stringify (codes "u") none true used).0.workspace ≡ empty_data)
    × ((reset_workspace stringify (codes "u") (some 0) true used).1 ≡ false)
    × ((reset_workspace stringify (codes "u") none false used).1 ≡ false)
    × ((reset_workspace stringify (codes "u") (some 0) true used).0.workspace ≡ desk)
unfolding text_eq
reset_workspace-lookup_example =
    reset_workspace-lookup stringify (codes "u") 0 true version_key used
