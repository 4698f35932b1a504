-- ===== src/Paper.antt =====
-- Question papers of the teacher app: apps/teacher/src/paperLogic.ts. Here their data.
pub mod Clean
pub mod Normalize
pub mod Parse
pub mod Recover
pub mod Bounds
pub mod Bounded
pub mod Response
pub mod Print
pub mod Secret
pub mod Pages
pub mod Export
mod Tests
use the_cinder_project.Base.{ℕ, Option, none, List, [], Text, codes}

pub data ExamBoard : Type 0 where
  cie igcse cbse icse : ExamBoard

pub data DifficultyLevel : Type 0 where
  level_1 level_2 level_3 level_4 level_5 : DifficultyLevel

pub record PaperDiagram : Type 0 where
  pub image_data_url : Text
  pub caption : Text
  pub alt : Text

pub record PaperMarkingPoint : Type 0 where
  pub text : Text
  pub marks : ℕ

pub record PaperScheme : Type 0 where
  pub marking_points : List PaperMarkingPoint
  pub accepted_alternatives : List Text
  pub guidance : Text

abbrev pub empty_scheme : PaperScheme
empty_scheme = record { marking_points = []; accepted_alternatives = []; guidance = [] }

pub record PaperSubpart : Type 0 where
  pub label : Text
  pub prompt : Text
  pub marks : ℕ
  pub answer : Text
  pub working_lines : ℕ
  pub scheme : PaperScheme

pub record PaperQuestion : Type 0 where
  pub id : Text
  pub prompt : Text
  pub marks : ℕ
  pub answer : Text
  pub working_lines : ℕ
  pub subparts : List PaperSubpart
  pub diagram : Option PaperDiagram
  pub source : Text
  pub scheme : PaperScheme

pub record GeneratedPaper : Type 0 where
  pub instructions : List Text
  pub questions : List PaperQuestion

abbrev pub board_name : ExamBoard → Text
board_name cie = codes "Cambridge International AS & A Level (CIE)"
board_name igcse = codes "Cambridge IGCSE"
board_name cbse = codes "CBSE"
board_name icse = codes "CISCE / ICSE"

abbrev pub difficulty_name : DifficultyLevel → Text
difficulty_name level_1 = codes "Foundation"
difficulty_name level_2 = codes "Developing"
difficulty_name level_3 = codes "Exam standard"
difficulty_name level_4 = codes "Advanced"
difficulty_name level_5 = codes "Stretch"
