-- ===== src/Session/Storage/Tests.antt =====
-- The stored session at concrete values.
use the_cinder_project.Base.{
  true, false, none, some, List, [], ◌∷◌, Text, codes, ◌≡◌, refl, text_eq,
}
use the_cinder_project.Base.Dict.{lookup}
use the_cinder_project.Session.Storage.{
  Device, legacy_value, load_session_value, save_session_value,
}
use the_cinder_project.Session.Storage.Laws.{NoneLeft, load-save, save-installed}

abbrev key : Text
key = codes "cinder.matchbox.session"

abbrev old_keys : List Text
old_keys = codes "cinder.student.session" ∷ []

abbrev value : Text
value = codes "{}"

-- An installed app that still has a value of an older version.
abbrev upgraded : Device
upgraded = record {
  tauri = true;
  native = none;
  web = (codes "cinder.student.session", value) ∷ [];
}

load_upgraded :
    (load_session_value true true (key ∷ old_keys) upgraded)
    ≡ (some value, record { tauri = true; native = some value; web = [] })
unfolding load_session_value legacy_value lookup text_eq
load_upgraded = refl

load-save_example :
    (load_session_value true false
      (key ∷ old_keys)
      (save_session_value true key old_keys value upgraded).1).0
    ≡ some value
unfolding text_eq
load-save_example = load-save key old_keys value upgraded false refl refl

save-installed_example :
    ((save_session_value true key old_keys value upgraded).0 ≡ true)
    × NoneLeft (key ∷ old_keys) (save_session_value true key old_keys value upgraded).1
    × (save_session_value false key old_keys value upgraded ≡ (false, upgraded))
save-installed_example = save-installed key old_keys value upgraded refl
