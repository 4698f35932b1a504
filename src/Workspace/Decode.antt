-- ===== src/Workspace/Decode.antt =====
-- Reading a stored workspace: `decodeWorkspace` of apps/forge/src/forgeData.ts. `JSON.parse` and the
-- milliseconds of a date are parameters; `none` stands for the error that the source throws.
use the_cinder_project.Base.{
  ℕ, Bool, true, false, not, ◌||◌, Option, none, some, List, [], ◌∷◌, Text, codes, text_eq, truthy,
  ◌==◌, if◌then◌else◌,
}
use the_cinder_project.Base.Number.{nan, infinite, finite, equals}
use the_cinder_project.Base.Json.{Json, null, bool, num, str, arr, obj, items, get, read_field}
use the_cinder_project.Workspace.{
  WidgetId, timer, library, studio, activities, ForgeNote, StudioNote, ReferenceFile, ForgeData,
  all_widgets, empty_data, unique, or_widgets,
}
use the_cinder_project.Workspace.Migrate.{migrate_notes}

abbrev pub and_then {ℓ κ} : {A : Type ℓ} {B : Type κ} → Option A → (A → Option B) → Option B
and_then none f = none
and_then (some a) f = f a

abbrev pub as_text : Option Json → Option Text
as_text (some (str t)) = some t
as_text _ = none

-- The required fields of a record, as strings.
unfoldable pub read_note : Json → Option ForgeNote
unfolding read_field
read_note j = and_then (as_text (get (codes "id") j)) (λ id.
    and_then (as_text (get (codes "title") j)) (λ title.
      and_then (as_text (get (codes "body") j)) (λ body.
        and_then (as_text (get (codes "topic") j)) (λ topic.
          and_then (as_text (get (codes "createdAt") j)) (λ created_at. some (record {
            id = id;
            title = title;
            body = body;
            topic = topic;
            created_at = created_at;
          }))))))

unfoldable pub read_studio_note : Json → Option StudioNote
unfolding read_field
read_studio_note j = and_then (as_text (get (codes "id") j)) (λ id.
    and_then (as_text (get (codes "title") j)) (λ title.
      and_then (as_text (get (codes "bodyHtml") j)) (λ body_html.
        and_then (as_text (get (codes "topic") j)) (λ topic.
          and_then (as_text (get (codes "createdAt") j)) (λ created_at.
            and_then (as_text (get (codes "updatedAt") j)) (λ updated_at. some (record {
              id = id;
              title = title;
              topic = topic;
              body_html = body_html;
              created_at = created_at;
              updated_at = updated_at;
              deleted_at = get (codes "deletedAt") j;
            })))))))

unfoldable pub read_file : Json → Option ReferenceFile
unfolding read_field
read_file j = and_then (as_text (get (codes "id") j)) (λ id.
    and_then (as_text (get (codes "name") j)) (λ name.
      and_then (as_text (get (codes "addedAt") j)) (λ added_at.
        some (record { id = id; name = name; size = get (codes "size") j; added_at = added_at }))))

module _ {ℓ} {A : Type ℓ} (read : Json → Option A) where
  -- `every` record passes, or none is taken.
  unfoldable pub read_all : List Json → Option (List A)
  read_all [] = some []
  read_all (j ∷ js) =
      and_then (read j) (λ a. and_then (read_all js) (λ as_list. some (a ∷ as_list)))

  unfoldable pub read_items : Option Json → Option (List A)
  unfolding read_all items
  read_items none = some []
  read_items (some (arr js)) = read_all (items js)
  read_items (some _) = none

-- A widget of that name, with the old name of the timer.
unfoldable pub widget_of : Json → Option WidgetId
unfolding text_eq
widget_of (str name) =
    if text_eq name (codes "focus") || text_eq name (codes "timer")
    then some timer
    else if text_eq name (codes "library")
    then some library
    else if text_eq name (codes "studio")
    then some studio
    else if text_eq name (codes "activity")
    then some activities
    else none
widget_of _ = none

abbrev add_widget : Option WidgetId → List WidgetId → List WidgetId
add_widget none ws = ws
add_widget (some w) ws = w ∷ ws

unfoldable pub known_widgets : List Json → List WidgetId
unfolding widget_of
known_widgets [] = []
known_widgets (j ∷ js) = add_widget (widget_of j) (known_widgets js)

unfoldable pub read_widgets : Option Json → List WidgetId
unfolding known_widgets unique items
read_widgets (some (arr js)) = or_widgets (unique [] (known_widgets (items js))) all_widgets
read_widgets _ = all_widgets

abbrev pub is_truthy : Option Json → Bool
is_truthy none = false
is_truthy (some null) = false
is_truthy (some (bool b)) = b
is_truthy (some (num nan)) = false
is_truthy (some (num infinite)) = true
is_truthy (some (num (finite _ n _))) = not (n == 0)
is_truthy (some (str t)) = truthy t
is_truthy (some (arr _)) = true
is_truthy (some (obj _)) = true

abbrev pub version_fits : Option Json → Bool
version_fits none = true
version_fits (some (num n)) = equals n 1
version_fits (some _) = false

abbrev name_of : Option Json → Text
name_of (some (str t)) = t
name_of _ = []

unfoldable pub entries_of : Option Json → List Json
unfolding items
entries_of (some (arr js)) = items js
entries_of _ = []

abbrev pub is_pending : List ForgeNote → Option Json → Bool
is_pending [] migrated = false
is_pending (_ ∷ _) migrated = not (is_truthy migrated)

module _ (time_of : Text → Option ℕ) (now : Text) where
  -- The workspace, from the records that passed.
  unfoldable pub build : Json → List ForgeNote → List StudioNote → List ReferenceFile → ForgeData
  unfolding read_widgets entries_of read_field
  build parsed notes stored files =
      let migrated = get (codes "notesMigratedAt") parsed in
      let pending = is_pending notes migrated in
      record {
        profile_name = name_of (get (codes "profileName") parsed);
        notes = notes;
        studio_notes = if pending then migrate_notes time_of notes stored else stored;
        files = files;
        activity = entries_of (get (codes "activity") parsed);
        widgets = read_widgets (get (codes "widgets") parsed);
        notes_migrated_at =
            if is_truthy migrated then migrated else if pending then some (str now) else none;
      }

  unfoldable pub decode_object : Json → Option ForgeData
  unfolding build read_items read_note read_studio_note read_file read_field
  decode_object parsed =
      if version_fits (get (codes "version") parsed)
      then and_then (read_items read_note (get (codes "notes") parsed)) (λ notes.
        and_then (read_items read_studio_note (get (codes "studioNotes") parsed)) (λ stored.
          and_then (read_items read_file (get (codes "files") parsed))
            (λ files. some (build parsed notes stored files))))
      else none

  unfoldable pub decode_parsed : Option Json → Option ForgeData
  unfolding decode_object
  decode_parsed (some (obj fields)) = decode_object (obj fields)
  decode_parsed _ = none

  unfoldable pub decode_workspace : (Text → Option Json) → Option Text → Option ForgeData
  unfolding decode_parsed
  decode_workspace parse none = some empty_data
  decode_workspace parse (some raw) =
      if truthy raw then decode_parsed (parse raw) else some empty_data
