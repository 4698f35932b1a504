-- ===== src/Base/Json.antt =====
-- Values of unknown shape: what `JSON.parse` returns, with property reads.
use mathlib.Core.Bool.{Bool}
use mathlib.Core.Option.{Option, none, some}
use mathlib.Core.List.{List, [], ◌∷◌}
use the_cinder_project.Base.Tests.{if◌then◌else◌}
use the_cinder_project.Base.Strings.{Text, text_eq}
use the_cinder_project.Base.Number.{Number}

mutual
  pub data Json : Type 0 where
    null : Json
    bool : Bool → Json
    num : Number → Json
    str : Text → Json
    arr : Items → Json
    obj : Fields → Json

  pub data Items : Type 0 where
    nil : Items
    cons : Json → Items → Items

  pub data Fields : Type 0 where
    end : Fields
    field : Text → Json → Fields → Fields

unfoldable pub items : Items → List Json
items nil = []
items (cons j js) = j ∷ items js

unfoldable pub read_field : Text → Fields → Option Json
unfolding text_eq
read_field k end = none
read_field k (field name v fs) = if text_eq name k then some v else read_field k fs

-- `value.key`, `none` for undefined
abbrev pub get : Text → Json → Option Json
get k (obj fs) = read_field k fs
get k null = none
get k (bool _) = none
get k (num _) = none
get k (str _) = none
get k (arr _) = none
