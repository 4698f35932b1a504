-- ===== src/Workspace/Readable.antt =====
-- What a workspace that was read promises, whatever was stored.
use the_cinder_project.Base.{
  ℕ, Bool, true, false, Option, none, some, List, [], ◌∷◌, Text, codes, truthy, if◌then◌else◌, ◌≡◌,
  refl, arith, Bool-cases, inl, inr, length, ◌≤◌, subst,
}
use the_cinder_project.Base.Json.{Json, null, bool, num, str, arr, obj, get, items}
use the_cinder_project.Workspace.{
  WidgetId, ForgeNote, StudioNote, ReferenceFile, ForgeData, unique, or_widgets, all_widgets,
  empty_data,
}
use the_cinder_project.Workspace.Laws.{distinct, distinct-unique}
use the_cinder_project.Workspace.Decode.{
  and_then, read_items, read_note, read_studio_note, read_file, read_widgets, is_truthy,
  known_widgets, build, decode_object, decode_parsed, decode_workspace, is_pending, version_fits,
}

-- Some widget, none twice, and no legacy note that still has to be folded.
pub record IsReadable (d : ForgeData) : Type 0 where
  pub distinct_widgets : distinct d.widgets ≡ true
  pub some_widget : 1 ≤ length d.widgets
  pub folded : is_pending d.notes d.notes_migrated_at ≡ false

empty-IsReadable : IsReadable empty_data
empty-IsReadable = record { distinct_widgets = refl; some_widget = omega arith; folded = refl }

or_all :
    (ws : List WidgetId)
    → distinct ws ≡ true
    → (distinct (or_widgets ws all_widgets) ≡ true) × (1 ≤ length (or_widgets ws all_widgets))
or_all [] h = (refl, omega arith)
or_all (w ∷ ws) h = (h, omega arith)

read_widgets-distinct :
    (o : Option Json) → (distinct (read_widgets o) ≡ true) × (1 ≤ length (read_widgets o))
unfolding read_widgets
read_widgets-distinct none = (refl, omega arith)
read_widgets-distinct (some null) = (refl, omega arith)
read_widgets-distinct (some (bool b)) = (refl, omega arith)
read_widgets-distinct (some (num n)) = (refl, omega arith)
read_widgets-distinct (some (str t)) = (refl, omega arith)
read_widgets-distinct (some (obj fs)) = (refl, omega arith)
read_widgets-distinct (some (arr js)) =
    or_all (unique [] (known_widgets (items js))) (distinct-unique [] (known_widgets (items js)))

folded_now :
    (ns : List ForgeNote) (m : Option Json) (now : Text)
    → truthy now ≡ true
    → is_pending ns (if is_truthy m then m else if is_pending ns m then some (str now) else none)
      ≡ false
folded_now [] m now h = refl
folded_now (n ∷ ns) m now h = elim (Bool-cases (is_truthy m)) [
  | inl e ↦ simp e refl
  | inr e ↦ simp (e, h) refl
]

some_inj {ℓ} : {A : Type ℓ} {a b : A} → some a ≡ some b → a ≡ b
some_inj e = cc

module _ (time_of : Text → Option ℕ) (now : Text) (h : truthy now ≡ true) where
  build-IsReadable :
      (j : Json) (ns : List ForgeNote) (ds : List StudioNote) (fs : List ReferenceFile)
      → IsReadable (build time_of now j ns ds fs)
  unfolding build
  build-IsReadable j ns ds fs =
      let (w, l) = read_widgets-distinct (get (codes "widgets") j) in
      record {
        distinct_widgets = w;
        some_widget = l;
        folded = folded_now ns (get (codes "notesMigratedAt") j) now h;
      }

  read-IsReadable :
      (j : Json) (fits : Bool) (ns : Option (List ForgeNote)) (ds : Option (List StudioNote))
      (fs : Option (List ReferenceFile)) {d : ForgeData}
      → (if fits
          then and_then ns (λ notes.
            and_then ds
              (λ stored. and_then fs (λ files. some (build time_of now j notes stored files))))
          else none)
        ≡ some d
      → IsReadable d
  read-IsReadable j false ns ds fs e = absurd (cc)
  read-IsReadable j true none ds fs e = absurd (cc)
  read-IsReadable j true (some ns) none fs e = absurd (cc)
  read-IsReadable j true (some ns) (some ds) none e = absurd (cc)
  read-IsReadable j true (some ns) (some ds) (some fs) e =
      subst IsReadable (some_inj e) (build-IsReadable j ns ds fs)

  decode_object-IsReadable :
      (j : Json) {d : ForgeData} → decode_object time_of now j ≡ some d → IsReadable d
  unfolding decode_object
  decode_object-IsReadable j e =
      read-IsReadable j (version_fits (get (codes "version") j))
        (read_items read_note (get (codes "notes") j))
        (read_items read_studio_note (get (codes "studioNotes") j))
        (read_items read_file (get (codes "files") j)) e

  decode_parsed-IsReadable :
      (o : Option Json) {d : ForgeData} → decode_parsed time_of now o ≡ some d → IsReadable d
  unfolding decode_parsed
  decode_parsed-IsReadable none e = absurd (cc)
  decode_parsed-IsReadable (some null) e = absurd (cc)
  decode_parsed-IsReadable (some (bool b)) e = absurd (cc)
  decode_parsed-IsReadable (some (num n)) e = absurd (cc)
  decode_parsed-IsReadable (some (str t)) e = absurd (cc)
  decode_parsed-IsReadable (some (arr js)) e = absurd (cc)
  decode_parsed-IsReadable (some (obj fs)) e = decode_object-IsReadable (obj fs) e

  stored-IsReadable :
      (b : Bool) (o : Option Json) {d : ForgeData}
      → (if b then decode_parsed time_of now o else some empty_data) ≡ some d
      → IsReadable d
  stored-IsReadable true o e = decode_parsed-IsReadable o e
  stored-IsReadable false o e = subst IsReadable (some_inj e) empty-IsReadable

  -- Whatever was stored, and whatever `JSON.parse` makes of it: a workspace that is read shows some
  -- widget, none twice, and has no legacy notes that still have to be folded, where the time of the
  -- reading is not the empty string.
  pub decode_workspace-IsReadable :
      (parse : Text → Option Json) (raw : Option Text) {d : ForgeData}
      → decode_workspace time_of now parse raw ≡ some d
      → IsReadable d
  unfolding decode_workspace
  decode_workspace-IsReadable parse none e = subst IsReadable (some_inj e) empty-IsReadable
  decode_workspace-IsReadable parse (some raw) e = stored-IsReadable (truthy raw) (parse raw) e
