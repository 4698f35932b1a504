-- ===== src/Gradebook/CellMap.antt =====
-- The map of the gradebook that goes into the prompt: `formatAssignmentHeader` and
-- `buildGradebookCellMap` of apps/teacher/src/gradebookIntent.ts.
use the_cinder_project.Base.{
  ℕ, ◌+◌, Bool, true, false, Option, none, some, List, [], ◌∷◌, ◌++◌, Text, codes,
}
use the_cinder_project.Base.Decimal.{decimal}
use the_cinder_project.Base.Number.{Number}
use the_cinder_project.Model.{User}
use the_cinder_project.Gradebook.{column_name}
use the_cinder_project.Gradebook.Sheet.{
  Assignment, Sheet, Unicode, find_gradebook_assignment_column,
}

pub record AssignmentColumn : Type 0 where
  pub assignment_id : Text
  pub header_cell : Text
  pub title : Text
  pub max_points : Number

pub record StudentRow : Type 0 where
  pub student_id : Text
  pub row : ℕ
  pub name : Text
  pub username : Option Text

pub record CellMap : Type 0 where
  pub coordinate_format : Text
  pub assignment_columns : List AssignmentColumn
  pub student_rows : List StudentRow

abbrev pub row_of : Bool → ℕ → User → StudentRow
row_of true index s = record {
  student_id = s.id;
  row = index + 2;
  name = s.display_name;
  username = some s.username;
}
row_of false index s = record {
  student_id = s.id;
  row = index + 2;
  name = codes "Student " ++ decimal (index + 1);
  username = none;
}

unfoldable pub rows_from : Bool → ℕ → List User → List StudentRow
unfolding decimal
rows_from include_names index [] = []
rows_from include_names index (s ∷ ss) =
    row_of include_names index s ∷ rows_from include_names (index + 1) ss

module _ (u : Unicode) where
  unfoldable pub format_assignment_header : Assignment → Text
  format_assignment_header a =
      b'"' ∷ (a.title ++ (b'"' ∷ (codes "  -/" ++ u.show_number a.max_points)))

  unfoldable pub column_of : List Assignment → List Sheet → Assignment → AssignmentColumn
  unfolding column_name find_gradebook_assignment_column
  column_of assignments sheets a = record {
    assignment_id = a.id;
    header_cell =
        column_name (find_gradebook_assignment_column u a assignments sheets) ++ codes "1";
    title = a.title;
    max_points = a.max_points;
  }

  unfoldable pub columns_of : List Assignment → List Sheet → List Assignment → List AssignmentColumn
  unfolding column_of
  columns_of assignments sheets [] = []
  columns_of assignments sheets (a ∷ more) =
      column_of assignments sheets a ∷ columns_of assignments sheets more

  unfoldable pub build_gradebook_cell_map :
      List User → List Assignment → List Sheet → Bool → CellMap
  unfolding columns_of rows_from
  build_gradebook_cell_map roster assignments sheets include_names = record {
    coordinate_format = codes "A1 (column letters first; 1F is normalized to F1)";
    assignment_columns = columns_of assignments sheets assignments;
    student_rows = rows_from include_names 0 roster;
  }
