-- ===== src/Workspace/Laws.antt =====
-- What the changes of the workspace keep.
use the_cinder_project.Base.{
  ◌≤◌, Bool, true, false, not, ◌&&◌, ◌||◌, Option, none, some, List, [], ◌∷◌, map, Text, text_eq,
  text_eq_iff, trim, find, length, length-take, any, All, take, if◌then◌else◌, ◌≡◌, refl, sym, ◌∙◌,
  ap, ap₂, arith, Bool-cases, inl, inr,
}
use the_cinder_project.Base.Json.{Json, str}
use the_cinder_project.Workspace.{
  WidgetId, timer, library, studio, activities, widget_eq, StudioNote, ForgeData, Moment, NoteInput,
  set_profile_name, add_reference_file, remove_reference_file, add_studio_note, change_note,
  update_studio_note, remove_studio_note, restore_studio_note, unique, or_widgets, set_widgets,
  title_of,
}

pub data Change : Type 0 where
  naming : Text → Change
  adding_file : Text → Text → Json → Change
  removing_file : Text → Change
  adding_note : NoteInput → Change
  updating_note : Text → NoteInput → Change
  removing_note : Text → Change
  restoring_note : Text → Change
  choosing_widgets : List WidgetId → Change

unfoldable pub apply : Moment → Change → ForgeData → ForgeData
apply at (naming name) d = set_profile_name at name d
apply at (adding_file id name size) d = add_reference_file at id name size d
apply at (removing_file id) d = remove_reference_file id d
apply at (adding_note input) d = add_studio_note at input d
apply at (updating_note id input) d = update_studio_note at id input d
apply at (removing_note id) d = remove_studio_note at id d
apply at (restoring_note id) d = restore_studio_note id d
apply at (choosing_widgets widgets) d = set_widgets widgets d

unfoldable pub run : List (Moment × Change) → ForgeData → ForgeData
unfolding apply
run [] d = d
run ((at, c) ∷ cs) d = run cs (apply at c d)

abbrev pub distinct : List WidgetId → Bool
distinct [] = true
distinct (w ∷ ws) = not (any (widget_eq w) ws) && distinct ws

-- Some widget, none twice; and at most a hundred activities.
pub record IsValid (d : ForgeData) : Type 0 where
  pub distinct_widgets : distinct d.widgets ≡ true
  pub some_widget : 1 ≤ length d.widgets
  pub recent : length d.activity ≤ 100

abbrev pub holds : Text → ForgeData → Bool
holds id d = any (λ note. text_eq note.id id) d.studio_notes

widget_eq_refl : (w : WidgetId) → widget_eq w w ≡ true
widget_eq_refl timer = refl
widget_eq_refl library = refl
widget_eq_refl studio = refl
widget_eq_refl activities = refl

widget_eq-same :
    (v w : WidgetId) (seen : List WidgetId)
    → widget_eq v w ≡ true
    → any (widget_eq v) seen ≡ any (widget_eq w) seen
widget_eq-same timer timer seen e = refl
widget_eq-same library library seen e = refl
widget_eq-same studio studio seen e = refl
widget_eq-same activities activities seen e = refl
widget_eq-same timer library seen e = absurd (cc)
widget_eq-same timer studio seen e = absurd (cc)
widget_eq-same timer activities seen e = absurd (cc)
widget_eq-same library timer seen e = absurd (cc)
widget_eq-same library studio seen e = absurd (cc)
widget_eq-same library activities seen e = absurd (cc)
widget_eq-same studio timer seen e = absurd (cc)
widget_eq-same studio library seen e = absurd (cc)
widget_eq-same studio activities seen e = absurd (cc)
widget_eq-same activities timer seen e = absurd (cc)
widget_eq-same activities library seen e = absurd (cc)
widget_eq-same activities studio seen e = absurd (cc)

any-unique :
    (v : WidgetId) (seen ws : List WidgetId)
    → any (widget_eq v) seen ≡ true
    → any (widget_eq v) (unique seen ws) ≡ false
unfolding unique
any-unique v seen [] h = refl
any-unique v seen (w ∷ ws) h =
    let rest = any-unique v (w ∷ seen) ws in ground (arith, rest, widget_eq-same v w seen)

pub distinct-unique : (seen ws : List WidgetId) → distinct (unique seen ws) ≡ true
unfolding unique
distinct-unique seen [] = refl
distinct-unique seen (w ∷ ws) =
    ground (arith, distinct-unique (w ∷ seen) ws, any-unique w (w ∷ seen) ws, widget_eq_refl w)

chosen :
    (ws : List WidgetId)
    → distinct ws ≡ true
    → (distinct (or_widgets ws (timer ∷ [])) ≡ true) × (1 ≤ length (or_widgets ws (timer ∷ [])))
chosen [] h = (refl, omega arith)
chosen (w ∷ ws) h = (h, omega arith)

either-recent :
    (b : Bool) (x : Json) (xs : List Json)
    → length xs ≤ 100
    → length (if b then take 100 (x ∷ xs) else xs) ≤ 100
either-recent true x xs h = omega (arith, length-take 99 xs)
either-recent false x xs h = h

apply-IsValid : (at : Moment) (c : Change) (d : ForgeData) → IsValid d → IsValid (apply at c d)
unfolding apply set_profile_name add_reference_file remove_reference_file add_studio_note
    update_studio_note change_note remove_studio_note restore_studio_note set_widgets
apply-IsValid at (naming name) d v = record {
  distinct_widgets = v.distinct_widgets;
  some_widget = v.some_widget;
  recent = either-recent _ _ d.activity v.recent;
}
apply-IsValid at (adding_file id name size) d v = record {
  distinct_widgets = v.distinct_widgets;
  some_widget = v.some_widget;
  recent = omega (arith, length-take 99 d.activity);
}
apply-IsValid at (removing_file id) d v = record {
  distinct_widgets = v.distinct_widgets;
  some_widget = v.some_widget;
  recent = v.recent;
}
apply-IsValid at (adding_note input) d v = record {
  distinct_widgets = v.distinct_widgets;
  some_widget = v.some_widget;
  recent = omega (arith, length-take 99 d.activity);
}
apply-IsValid at (updating_note id input) d v = record {
  distinct_widgets = v.distinct_widgets;
  some_widget = v.some_widget;
  recent = v.recent;
}
apply-IsValid at (removing_note id) d v = record {
  distinct_widgets = v.distinct_widgets;
  some_widget = v.some_widget;
  recent = v.recent;
}
apply-IsValid at (restoring_note id) d v = record {
  distinct_widgets = v.distinct_widgets;
  some_widget = v.some_widget;
  recent = v.recent;
}
apply-IsValid at (choosing_widgets widgets) d v =
    let c = chosen (unique [] widgets) (distinct-unique [] widgets) in
    record { distinct_widgets = c.0; some_widget = c.1; recent = v.recent }

holds-map :
    (id j : Text) (f : StudioNote → StudioNote) (ns : List StudioNote)
    → ((n : StudioNote) → (f n).id ≡ n.id)
    → any (λ note. text_eq note.id j) (map (λ note. if text_eq note.id id then f note else note) ns)
      ≡ any (λ note. text_eq note.id j) ns
holds-map id j f [] h = refl
holds-map id j f (n ∷ ns) h = elim (Bool-cases (text_eq n.id id)) [
  | inl e ↦ simp (e, h) (ap (λ b. text_eq n.id j || b) (holds-map id j f ns h))
  | inr e ↦ simp e (ap (λ b. text_eq n.id j || b) (holds-map id j f ns h))
]

apply-holds :
    (at : Moment) (c : Change) (d : ForgeData) (j : Text)
    → holds j d ≡ true
    → (holds j (apply at c d) ≡ true) × ((apply at c d).notes ≡ d.notes)
unfolding apply set_profile_name add_reference_file remove_reference_file add_studio_note
    update_studio_note change_note remove_studio_note restore_studio_note set_widgets
apply-holds at (naming name) d j h = (h, refl)
apply-holds at (adding_file id name size) d j h = (h, refl)
apply-holds at (removing_file id) d j h = (h, refl)
apply-holds at (adding_note input) d j h = (ground (arith, h), refl)
apply-holds at (updating_note id input) d j h =
    (holds-map id j _ d.studio_notes (λ n. refl) ∙ h, refl)
apply-holds at (removing_note id) d j h = (holds-map id j _ d.studio_notes (λ n. refl) ∙ h, refl)
apply-holds at (restoring_note id) d j h = (holds-map id j _ d.studio_notes (λ n. refl) ∙ h, refl)
apply-holds at (choosing_widgets widgets) d j h = (h, refl)

-- Any changes, in any order, keep a workspace valid: it shows some widget, none twice, and keeps at
-- most a hundred activities; the ids of its documents stay, since a deletion only marks them, and
-- the legacy notes stay as they were.
pub run_changes-IsValid :
    (cs : List (Moment × Change)) (d : ForgeData) (id : Text)
    → IsValid d
    → holds id d ≡ true
    → IsValid (run cs d) × (holds id (run cs d) ≡ true) × ((run cs d).notes ≡ d.notes)
unfolding run
run_changes-IsValid [] d id v h = (v, h, refl)
run_changes-IsValid ((at, c) ∷ cs) d id v h =
    let (k, e) = apply-holds at c d id h in
    let (w, l, f) = run_changes-IsValid cs (apply at c d) id (apply-IsValid at c d v) k in
    (w, l, f ∙ e)

restored :
    (id : Text) (t : Json) (ns : List StudioNote)
    → All (λ n. text_eq n.id id ≡ true → n.deleted_at ≡ none) ns
    → map
        (λ note. if text_eq note.id id then (record note { deleted_at = none }) else note)
        (map
          (λ note. if text_eq note.id id then (record note { deleted_at = some t }) else note)
          ns)
      ≡ ns
restored id t [] h = refl
restored id t (n ∷ ns) (f, h) = elim (Bool-cases (text_eq n.id id)) [
  | inl e ↦ simp e (ap₂ (λ d r. (record n { deleted_at = d }) ∷ r) (sym (f e)) (restored id t ns h))
  | inr e ↦ simp e (ap (λ r. n ∷ r) (restored id t ns h))
]

-- A document that was deleted and is restored leaves the workspace as it was, if no document of its
-- id was deleted before.
restore-remove :
    (at : Moment) (id : Text) (d : ForgeData)
    → All (λ n. text_eq n.id id ≡ true → n.deleted_at ≡ none) d.studio_notes
    → restore_studio_note id (remove_studio_note at id d) ≡ d
unfolding restore_studio_note remove_studio_note change_note
restore-remove at id d h =
    ap (λ ns. record d { studio_notes = ns }) (restored id (str at.now) d.studio_notes h)

abbrev pub document : Text → ForgeData → Option StudioNote
document id d = find (λ note. text_eq note.id id) d.studio_notes

abbrev pub revised : Moment → NoteInput → Option StudioNote → Option StudioNote
revised at input none = none
revised at input (some note) = some (record note {
  title = title_of input.title;
  topic = trim input.topic;
  body_html = input.body_html;
  updated_at = at.now;
})

text_eq-same : (a b c : Text) → text_eq a b ≡ true → text_eq b c ≡ text_eq a c
text_eq-same a b c e = ap (λ t. text_eq t c) (sym ((text_eq_iff a b).0 e))

find-update :
    (at : Moment) (input : NoteInput) (id j : Text) (d : ForgeData) (ns : List StudioNote)
    → document j (update_studio_note at id input (record d { studio_notes = ns })) ≡ (
        if text_eq j id
        then revised at input (find (λ note. text_eq note.id j) ns)
        else find (λ note. text_eq note.id j) ns)
unfolding update_studio_note change_note
find-update at input id j d [] = ground arith
find-update at input id j d (n ∷ ns) =
    let ih = find-update at input id j d ns in
    elim (Bool-cases (text_eq n.id j)) [
      | inl f ↦ elim (Bool-cases (text_eq n.id id)) [
        | inl e ↦ simp (e, f, text_eq-same n.id j id f) refl
        | inr e ↦ simp (e, f, text_eq-same n.id j id f) refl
      ]
      | inr f ↦ elim (Bool-cases (text_eq n.id id)) [
        | inl e ↦ simp (e, f) ih
        | inr e ↦ simp (e, f) ih
      ]
    ]

-- An update changes the document of its id, if there is one: title, topic and body are those given,
-- trimmed, with a title in place of an empty one, and the time of change is now. A document of
-- another id is as before.
document-update_studio_note :
    (at : Moment) (input : NoteInput) (id j : Text) (d : ForgeData)
    → document j (update_studio_note at id input d)
      ≡ (if text_eq j id then revised at input (document j d) else document j d)
document-update_studio_note at input id j d = find-update at input id j d d.studio_notes
