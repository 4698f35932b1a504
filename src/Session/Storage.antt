-- ===== src/Session/Storage.antt =====
-- packages/ui/src/session.ts: the saved session. An installed app keeps it in a native encrypted
-- store, through `invoke`; a browser, and older versions of the app, in `localStorage`. A call of
-- the native side may throw: each function takes a flag for each such call, true if it succeeds.
pub mod Laws
mod Tests
use the_cinder_project.Base.{
  Bool, true, false, ◌&&◌, Option, none, some, List, [], ◌∷◌, Text, truthy, if◌then◌else◌,
}
use the_cinder_project.Base.Dict.{Dict, lookup, insert, remove_all}

pub record Device : Type 0 where
  -- `isTauriRuntime()`
  pub tauri : Bool
  pub native : Option Text
  pub web : Dict Text

pub remove_web_values : List Text → Device → Device
unfolding remove_all
remove_web_values keys d = record d { web = remove_all keys d.web }

-- `keys.map(getItem).find(Boolean)`
pub legacy_value : List Text → Dict Text → Option Text
legacy_value [] web = none
legacy_value (k ∷ ks) web = elim (lookup k web) [
  | none ↦ legacy_value ks web
  | some v ↦ if truthy v then some v else legacy_value ks web
]

abbrev non_empty : Option Text → Option Text
non_empty none = none
non_empty (some v) = if truthy v then some v else none

-- The native value, if the app is installed, the read succeeds and the value is not empty.
pub native_value : Bool → Device → Option Text
native_value read d = if d.tauri then (if read then non_empty d.native else none) else none

-- The second half of `loadSessionValue`: the migration of a legacy value.
migrate : Bool → List Text → Device → Option Text × Device
unfolding remove_web_values
migrate saved keys d = elim (legacy_value keys d.web) [
  | none ↦ (none, d)
  | some legacy ↦
      if d.tauri
      then (if saved
          then (some legacy, remove_web_values keys (record d { native = some legacy }))
          else (some legacy, d))
      else (some legacy, d)
]

pub load_session_value : Bool → Bool → List Text → Device → Option Text × Device
unfolding native_value migrate remove_web_values
load_session_value read saved keys d = elim (native_value read d) [
  | some native ↦ (some native, remove_web_values keys d)
  | none ↦ migrate saved keys d
]

-- The list of keys is `key ∷ keys`; the source indexes its first entry.
pub save_session_value : Bool → Text → List Text → Text → Device → Bool × Device
unfolding remove_web_values
save_session_value saved key keys value d =
    if d.tauri
    then (if saved
        then (true, remove_web_values (key ∷ keys) (record d { native = some value }))
        else (false, d))
    else (true, record d { web = remove_all keys (insert key value d.web) })

pub clear_session_value : Bool → List Text → Device → Device
unfolding remove_web_values
clear_session_value cleared keys d =
    let erased : Device = if d.tauri && cleared then (record d { native = none }) else d in
    remove_web_values keys erased
