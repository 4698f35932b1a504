-- ===== src/Workspace/Encode.antt =====
-- Saving the workspace, `JSON.stringify(data)` in `useForgeData`, and reading it back. A field that
-- is undefined is left out.
use the_cinder_project.Base.{
  ℕ, Bool, true, false, not, Option, none, some, List, [], ◌∷◌, map, Text, codes, text_eq, truthy,
  any, all, ◌≡◌, refl, ◌∙◌, ap, arith, length, ◌≤◌,
}
use the_cinder_project.Base.Number.{from_nat}
use the_cinder_project.Base.Json.{
  Json, num, str, arr, obj, Items, nil, cons, Fields, end, field, items, read_field,
}
use the_cinder_project.Workspace.{
  WidgetId, timer, library, studio, activities, widget_eq, ForgeNote, StudioNote, ReferenceFile,
  ForgeData, unique, or_widgets, all_widgets,
}
use the_cinder_project.Workspace.Laws.{distinct, IsValid}
use the_cinder_project.Workspace.Decode.{
  read_note, read_studio_note, read_file, read_all, read_items, widget_of, known_widgets,
  read_widgets, is_truthy, entries_of, build, decode_object, decode_parsed, decode_workspace,
  and_then,
}

abbrev optional : Text → Option Json → Fields → Fields
optional k none fs = fs
optional k (some j) fs = field k j fs

abbrev note_json : ForgeNote → Json
note_json n = obj (
    field (codes "id") (str n.id) (
      field (codes "title") (str n.title) (
        field (codes "body") (str n.body) (
          field (codes "topic") (str n.topic) (field (codes "createdAt") (str n.created_at) end)))))

abbrev studio_note_json : StudioNote → Json
studio_note_json n = obj (
    field (codes "id") (str n.id) (
      field (codes "title") (str n.title) (
        field (codes "topic") (str n.topic) (
          field (codes "bodyHtml") (str n.body_html) (
            field (codes "createdAt") (str n.created_at) (
              field (codes "updatedAt") (str n.updated_at)
                (optional (codes "deletedAt") n.deleted_at end)))))))

abbrev file_json : ReferenceFile → Json
file_json f = obj (
    field (codes "id") (str f.id) (
      field (codes "name") (str f.name)
        (optional (codes "size") f.size (field (codes "addedAt") (str f.added_at) end))))

abbrev widget_json : WidgetId → Json
widget_json timer = str (codes "timer")
widget_json library = str (codes "library")
widget_json studio = str (codes "studio")
widget_json activities = str (codes "activity")

unfoldable of_list : List Json → Items
of_list [] = nil
of_list (j ∷ js) = cons j (of_list js)

-- The value that `JSON.stringify` writes.
unfoldable pub to_json : ForgeData → Json
unfolding of_list
to_json d = obj (
    field (codes "version") (num (from_nat 1)) (
      field (codes "profileName") (str d.profile_name) (
        field (codes "notes") (arr (of_list (map note_json d.notes))) (
          field (codes "studioNotes") (arr (of_list (map studio_note_json d.studio_notes))) (
            field (codes "files") (arr (of_list (map file_json d.files))) (
              field (codes "activity") (arr (of_list d.activity)) (
                field (codes "widgets") (arr (of_list (map widget_json d.widgets)))
                  (optional (codes "notesMigratedAt") d.notes_migrated_at end))))))))

items-of_list : (js : List Json) → items (of_list js) ≡ js
unfolding items of_list
items-of_list [] = refl
items-of_list (j ∷ js) = ap (λ r. j ∷ r) (items-of_list js)

module _ {ℓ} {A : Type ℓ} (read : Json → Option A) (write : A → Json) where
  read_all-map :
      ((a : A) → read (write a) ≡ some a) → (xs : List A) → read_all read (map write xs) ≡ some xs
  unfolding read_all
  read_all-map h [] = refl
  read_all-map h (x ∷ xs) = simp (h x, read_all-map h xs) refl

  read_items-of_list :
      ((a : A) → read (write a) ≡ some a)
      → (xs : List A) → read_items read (some (arr (of_list (map write xs)))) ≡ some xs
  unfolding read_items
  read_items-of_list h xs = ap (read_all read) (items-of_list (map write xs)) ∙ read_all-map h xs

read_note-note_json : (n : ForgeNote) → read_note (note_json n) ≡ some n
unfolding read_note read_field text_eq
read_note-note_json n = refl

read_deleted :
    (i t o b c u : Text) (d : Option Json)
    → (n : StudioNote)
    → n ≡ (record {
      id = i;
      title = t;
      topic = o;
      body_html = b;
      created_at = c;
      updated_at = u;
      deleted_at = d;
    })
    → read_studio_note (studio_note_json n) ≡ some n
unfolding read_studio_note read_field text_eq
read_deleted i t o b c u none n e = rw e refl
read_deleted i t o b c u (some j) n e = rw e refl

read_studio_note-json : (n : StudioNote) → read_studio_note (studio_note_json n) ≡ some n
read_studio_note-json n =
    read_deleted n.id n.title n.topic n.body_html n.created_at n.updated_at n.deleted_at n refl

sized :
    (i m a : Text) (s : Option Json) (f : ReferenceFile)
    → f ≡ (record { id = i; name = m; size = s; added_at = a })
    → read_file (file_json f) ≡ some f
unfolding read_file read_field text_eq
sized i m a none f e = rw e refl
sized i m a (some s) f e = rw e refl

read_file-file_json : (f : ReferenceFile) → read_file (file_json f) ≡ some f
read_file-file_json f = sized f.id f.name f.added_at f.size f refl

widget_of-json : (w : WidgetId) → widget_of (widget_json w) ≡ some w
unfolding widget_of text_eq
widget_of-json timer = refl
widget_of-json library = refl
widget_of-json studio = refl
widget_of-json activities = refl

known_widgets-map : (ws : List WidgetId) → known_widgets (map widget_json ws) ≡ ws
unfolding known_widgets
known_widgets-map [] = refl
known_widgets-map (w ∷ ws) = simp (widget_of-json w, known_widgets-map ws) refl

-- None of the widgets was seen.
abbrev apart : List WidgetId → List WidgetId → Bool
apart seen ws = all (λ w. not (any (widget_eq w) seen)) ws

widget_eq-sym : (v w : WidgetId) → widget_eq v w ≡ widget_eq w v
widget_eq-sym timer timer = refl
widget_eq-sym library library = refl
widget_eq-sym studio studio = refl
widget_eq-sym activities activities = refl
widget_eq-sym timer library = refl
widget_eq-sym timer studio = refl
widget_eq-sym timer activities = refl
widget_eq-sym library timer = refl
widget_eq-sym library studio = refl
widget_eq-sym library activities = refl
widget_eq-sym studio timer = refl
widget_eq-sym studio library = refl
widget_eq-sym studio activities = refl
widget_eq-sym activities timer = refl
widget_eq-sym activities library = refl
widget_eq-sym activities studio = refl

apart-cons :
    (w : WidgetId) (seen ws : List WidgetId)
    → any (widget_eq w) ws ≡ false
    → apart seen ws ≡ true
    → apart (w ∷ seen) ws ≡ true
apart-cons w seen [] h k = refl
apart-cons w seen (v ∷ ws) h k = ground (arith, apart-cons w seen ws, widget_eq-sym v w)

unique-distinct :
    (seen ws : List WidgetId) → distinct ws ≡ true → apart seen ws ≡ true → unique seen ws ≡ ws
unfolding unique
unique-distinct seen [] h k = refl
unique-distinct seen (w ∷ ws) h k =
    let ih =
      unique-distinct (w ∷ seen) ws (ground arith)
        (apart-cons w seen ws (ground arith) (ground arith)) in
    ground (arith, ih)

apart-nil : (ws : List WidgetId) → apart [] ws ≡ true
apart-nil [] = refl
apart-nil (w ∷ ws) = apart-nil ws

or_widgets-some : (ws d : List WidgetId) → 1 ≤ length ws → or_widgets ws d ≡ ws
or_widgets-some [] d h = absurd (omega arith)
or_widgets-some (w ∷ ws) d h = refl

read_widgets-of_list :
    (ws : List WidgetId)
    → distinct ws ≡ true
    → 1 ≤ length ws
    → read_widgets (some (arr (of_list (map widget_json ws)))) ≡ ws
unfolding read_widgets
read_widgets-of_list ws h k =
    simp
      (
        items-of_list (map widget_json ws),
        known_widgets-map ws,
        unique-distinct [] ws h (apart-nil ws),
        or_widgets-some ws all_widgets k,
      )
      refl

-- The legacy notes were folded into documents, or there are none.
abbrev pub IsMigrated : List ForgeNote → Option Json → Type 0
IsMigrated [] none = Unit
IsMigrated (_ ∷ _) none = ⊥
IsMigrated notes (some j) = is_truthy (some j) ≡ true

module _ (time_of : Text → Option ℕ) (now : Text) where
  build-fields :
      (p : Text) (ns : List ForgeNote) (ds : List StudioNote) (fs : List ReferenceFile)
      (es : List Json) (ws : List WidgetId) (m : Option Json) (d : ForgeData)
      → d ≡ (record {
        profile_name = p;
        notes = ns;
        studio_notes = ds;
        files = fs;
        activity = es;
        widgets = ws;
        notes_migrated_at = m;
      })
      → distinct ws ≡ true
      → 1 ≤ length ws
      → IsMigrated ns m
      → build time_of now (to_json d) ns ds fs ≡ d
  unfolding build to_json read_field entries_of text_eq
  build-fields p [] ds fs es ws none d e h k g =
      rw e (simp (read_widgets-of_list ws h k, items-of_list es) refl)
  build-fields p (n ∷ ns) ds fs es ws none d e h k g = absurd g
  build-fields p [] ds fs es ws (some j) d e h k g =
      rw e (simp (g, read_widgets-of_list ws h k, items-of_list es) refl)
  build-fields p (n ∷ ns) ds fs es ws (some j) d e h k g =
      rw e (simp (g, read_widgets-of_list ws h k, items-of_list es) refl)

  decode_joined :
      (j : Json) (ns? : Option (List ForgeNote)) (ds? : Option (List StudioNote))
      (fs? : Option (List ReferenceFile)) (d : ForgeData)
      → ns? ≡ some d.notes
      → ds? ≡ some d.studio_notes
      → fs? ≡ some d.files
      → build time_of now j d.notes d.studio_notes d.files ≡ d
      → and_then ns? (λ notes.
        and_then ds?
          (λ stored. and_then fs? (λ files. some (build time_of now j notes stored files))))
        ≡ some d
  decode_joined j ns? ds? fs? d e f g h = rw (e, f, g) (ap some h)

  decode_object-to_json :
      (d : ForgeData)
      → IsValid d
      → IsMigrated d.notes d.notes_migrated_at
      → decode_object time_of now (to_json d) ≡ some d
  unfolding decode_object to_json read_field text_eq
  decode_object-to_json d v g =
      decode_joined (to_json d) _ _ _ d
        (read_items-of_list read_note note_json read_note-note_json d.notes)
        (read_items-of_list read_studio_note studio_note_json read_studio_note-json d.studio_notes)
        (read_items-of_list read_file file_json read_file-file_json d.files)
        (build-fields d.profile_name d.notes d.studio_notes d.files d.activity d.widgets
          d.notes_migrated_at d refl v.distinct_widgets v.some_widget g)

  -- A workspace that was saved is what the next start reads, whatever its documents hold, if it is
  -- valid and its legacy notes were folded, and `JSON.parse` gives back what `JSON.stringify` wrote.
  pub decode_workspace-to_json :
      (parse : Text → Option Json) (raw : Text) (d : ForgeData)
      → truthy raw ≡ true
      → parse raw ≡ some (to_json d)
      → IsValid d
      → IsMigrated d.notes d.notes_migrated_at
      → decode_workspace time_of now parse (some raw) ≡ some d
  unfolding decode_workspace decode_parsed to_json
  decode_workspace-to_json parse raw d h e v g = simp (h, e) (decode_object-to_json d v g)
