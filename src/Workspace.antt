-- ===== src/Workspace.antt =====
-- The workspace of an account on its device: apps/forge/src/forgeData.ts. Here its data and the
-- changes that `useForgeData` offers; a change takes the time and the fresh ids that the source makes
-- inside it.
pub mod Migrate
pub mod Laws
pub mod Decode
pub mod Encode
pub mod Readable
pub mod Store
mod Tests
use the_cinder_project.Base.{
  ℕ, Bool, true, false, not, ◌&&◌, Option, none, some, List, [], ◌∷◌, ◌++◌, map, Text, codes,
  text_eq, trim, truthy, or_text, take, keep, any, if◌then◌else◌,
}
use the_cinder_project.Base.Json.{Json, str, obj, end, field}

pub data WidgetId : Type 0 where
  timer library studio activities : WidgetId

abbrev pub widget_eq : WidgetId → WidgetId → Bool
widget_eq timer timer = true
widget_eq library library = true
widget_eq studio studio = true
widget_eq activities activities = true
widget_eq _ _ = false

pub record ForgeNote : Type 0 where
  pub id : Text
  pub title : Text
  pub body : Text
  pub topic : Text
  pub created_at : Text

-- What decoding does not look into is kept as it was stored.
pub record ReferenceFile : Type 0 where
  pub id : Text
  pub name : Text
  pub size : Option Json
  pub added_at : Text

pub record StudioNote : Type 0 where
  pub id : Text
  pub title : Text
  pub topic : Text
  pub body_html : Text
  pub created_at : Text
  pub updated_at : Text
  pub deleted_at : Option Json

pub record ForgeData : Type 0 where
  pub profile_name : Text
  pub notes : List ForgeNote
  pub studio_notes : List StudioNote
  pub files : List ReferenceFile
  pub activity : List Json
  pub widgets : List WidgetId
  pub notes_migrated_at : Option Json

abbrev pub all_widgets : List WidgetId
all_widgets = timer ∷ library ∷ studio ∷ activities ∷ []

abbrev pub empty_data : ForgeData
empty_data = record {
  profile_name = [];
  notes = [];
  studio_notes = [];
  files = [];
  activity = [];
  widgets = all_widgets;
  notes_migrated_at = none;
}

-- What a change reads of its surroundings: the time as an ISO string, and fresh ids.
pub record Moment : Type 0 where
  pub now : Text
  pub note_id : Text
  pub activity_id : Text

abbrev pub new_activity : Moment → Text → Text → Json
new_activity at label detail = obj (
    field (codes "id") (str at.activity_id) (
      field (codes "label") (str label)
        (field (codes "detail") (str detail) (field (codes "createdAt") (str at.now) end))))

-- `[entry, ...activity].slice(0, 100)`
abbrev pub record_activity : Json → List Json → List Json
record_activity entry entries = take 100 (entry ∷ entries)

abbrev clean_name : Text → Text
clean_name name = take 80 (trim name)

unfoldable pub set_profile_name : Moment → Text → ForgeData → ForgeData
unfolding text_eq
set_profile_name at name current =
    let clean = clean_name name in
    record current {
      profile_name = clean;
      activity =
          if truthy clean && not (text_eq clean current.profile_name)
          then record_activity
              (new_activity at (codes "Profile updated") (codes "Name saved on this device"))
              current.activity
          else current.activity;
    }

abbrev quoted : Text → Text → Text
quoted verb name = verb ++ ((0x201c ∷ name) ++ (0x201d ∷ []))

unfoldable pub add_reference_file : Moment → Text → Text → Json → ForgeData → ForgeData
add_reference_file at id name size current =
    let file : ReferenceFile = record {
      id = id;
      name = take 160 (trim name);
      size = some size;
      added_at = at.now;
    } in
    record current {
      files = file ∷ current.files;
      activity =
          record_activity
            (new_activity at (quoted (codes "Added ") file.name) (codes "Reference file"))
            current.activity;
    }

unfoldable pub remove_reference_file : Text → ForgeData → ForgeData
unfolding text_eq
remove_reference_file id current = record current {
  files = keep (λ file. not (text_eq file.id id)) current.files;
}

pub record NoteInput : Type 0 where
  pub title : Text
  pub topic : Text
  pub body_html : Text

abbrev pub title_of : Text → Text
title_of title = or_text (trim title) (codes "Untitled note")

unfoldable pub add_studio_note : Moment → NoteInput → ForgeData → ForgeData
add_studio_note at input current =
    let note : StudioNote = record {
      id = at.note_id;
      title = title_of input.title;
      topic = trim input.topic;
      body_html = input.body_html;
      created_at = at.now;
      updated_at = at.now;
      deleted_at = none;
    } in
    record current {
      studio_notes = note ∷ current.studio_notes;
      activity =
          record_activity
            (new_activity at (quoted (codes "Started ") note.title) (codes "Studio note"))
            current.activity;
    }

-- The notes, with a change at those of one id.
unfoldable pub change_note : Text → (StudioNote → StudioNote) → ForgeData → ForgeData
unfolding text_eq
change_note id change current = record current {
  studio_notes =
      map (λ note. if text_eq note.id id then change note else note) current.studio_notes;
}

unfoldable pub update_studio_note : Moment → Text → NoteInput → ForgeData → ForgeData
unfolding change_note
update_studio_note at id input current =
    change_note id
      (λ note. record note {
        title = title_of input.title;
        topic = trim input.topic;
        body_html = input.body_html;
        updated_at = at.now;
      })
      current

unfoldable pub remove_studio_note : Moment → Text → ForgeData → ForgeData
unfolding change_note
remove_studio_note at id current =
    change_note id (λ note. record note { deleted_at = some (str at.now) }) current

unfoldable pub restore_studio_note : Text → ForgeData → ForgeData
unfolding change_note
restore_studio_note id current = change_note id (λ note. record note { deleted_at = none }) current

-- The first of equal widgets stay.
unfoldable pub unique : List WidgetId → List WidgetId → List WidgetId
unique seen [] = []
unique seen (w ∷ ws) =
    if any (widget_eq w) seen then unique (w ∷ seen) ws else w ∷ unique (w ∷ seen) ws

abbrev pub or_widgets : List WidgetId → List WidgetId → List WidgetId
or_widgets [] d = d
or_widgets (w ∷ ws) d = w ∷ ws

unfoldable pub set_widgets : List WidgetId → ForgeData → ForgeData
unfolding unique
set_widgets widgets current = record current {
  widgets = or_widgets (unique [] widgets) (timer ∷ []);
}
