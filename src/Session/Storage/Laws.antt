-- ===== src/Session/Storage/Laws.antt =====
-- What saving, loading and clearing a session promise.
use the_cinder_project.Base.{
  Bool, true, false, ◌||◌, ◌&&◌, none, some, List, [], ◌∷◌, Text, truthy, if◌then◌else◌, ◌≡◌, not,
  refl, arith, any, text_eq, text_eq_refl, Option-cases, inl, inr,
}
use the_cinder_project.Base.Dict.{
  Dict, lookup, insert, remove_all, lookup-insert, lookup-remove_all,
}
use the_cinder_project.Session.Storage.{
  Device, remove_web_values, legacy_value, native_value, load_session_value, save_session_value,
  clear_session_value,
}

-- No key of the list is left in `localStorage`.
abbrev pub NoneLeft : List Text → Device → Type 0
NoneLeft keys d = (k : Text) → any (λ j. text_eq j k) keys ≡ true → lookup k d.web ≡ none

or_true : (b : Bool) → b || true ≡ true
or_true true = refl
or_true false = refl

remove_web_values-NoneLeft :
    (keys : List Text) (d : Device) → NoneLeft keys (remove_web_values keys d)
unfolding remove_web_values
remove_web_values-NoneLeft keys d k h = rw (lookup-remove_all, h)

-- A session that was saved is what the next load gives, installed or not, if neither native call
-- fails, the keys of the list differ from its first one, and the value is not empty.
pub load-save :
    (key : Text) (keys : List Text) (value : Text) (d : Device) (migrated : Bool)
    → truthy value ≡ true
    → any (λ j. text_eq j key) keys ≡ false
    → (load_session_value true migrated (key ∷ keys) (save_session_value true key keys value d).1).0
      ≡ some value
unfolding load_session_value save_session_value legacy_value
load-save key keys value d migrated t h = ground (
  arith,
  lookup-remove_all keys key (insert key value d.web),
  lookup-insert key key value d.web,
  text_eq_refl key,
)

-- In an installed app a successful save leaves no value in `localStorage` under any of the keys; a
-- save that fails reports it and changes nothing, `localStorage` included.
pub save-installed :
    (key : Text) (keys : List Text) (value : Text) (d : Device)
    → d.tauri ≡ true
    → ((save_session_value true key keys value d).0 ≡ true)
      × NoneLeft (key ∷ keys) (save_session_value true key keys value d).1
      × (save_session_value false key keys value d ≡ (false, d))
unfolding save_session_value
save-installed key keys value d e =
    (rw e, rw e (remove_web_values-NoneLeft (key ∷ keys) (record d { native = some value })), rw e)

legacy_value-none :
    (ks : List Text) (web : Dict Text)
    → ((k : Text) → any (λ j. text_eq j k) ks ≡ true → lookup k web ≡ none)
    → legacy_value ks web ≡ none
unfolding legacy_value
legacy_value-none [] web h = refl
legacy_value-none (k ∷ ks) web h =
    let rest = legacy_value-none ks web (λ j e. h j (rw e (or_true _))) in
    ground (arith, h k (rw text_eq_refl refl), rest)

legacy_value-truthy :
    (ks : List Text) (web : Dict Text) (v : Text) → legacy_value ks web ≡ some v → truthy v ≡ true
unfolding legacy_value
legacy_value-truthy [] web v e = absurd (cc)
legacy_value-truthy (k ∷ ks) web v e = ground (arith, legacy_value-truthy ks web v)

-- After a clear, a load gives nothing, except in an installed app whose native store could not be
-- cleared: there it still gives the native value, if it is not empty and can be read.
load-clear :
    (keys : List Text) (d : Device) (cleared read saved : Bool)
    → (load_session_value read saved keys (clear_session_value cleared keys d)).0
      ≡ (if d.tauri && not cleared then native_value read d else none)
unfolding load_session_value clear_session_value remove_web_values
load-clear keys d cleared read saved =
    ground
      (arith, legacy_value-none keys (remove_all keys d.web) (remove_web_values-NoneLeft keys d))

-- Loading again gives what the first load gave, whether or not the migration of a legacy value
-- could be saved, if the native store can be read both times.
load-load :
    (keys : List Text) (d : Device) (saved again : Bool)
    → (load_session_value true again keys (load_session_value true saved keys d).1).0
      ≡ (load_session_value true saved keys d).0
unfolding load_session_value remove_web_values
load-load keys d saved again = elim (Option-cases (legacy_value keys d.web)) [
  | inl e ↦
      ground
        (arith, legacy_value-none keys (remove_all keys d.web) (remove_web_values-NoneLeft keys d))
  | inr (v, e) ↦ ground (arith, legacy_value-truthy keys d.web v e)
]
