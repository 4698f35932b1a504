-- ===== src/Paper/Secret.antt =====
-- What a student's copy of a paper shows.
use the_cinder_project.Base.{ℕ, ◌+◌, List, [], ◌∷◌, ◌++◌, map, Text, ◌≡◌, refl, ap}
use the_cinder_project.Paper.{PaperScheme, PaperSubpart, PaperQuestion, GeneratedPaper}
use the_cinder_project.Paper.Print.{
  PaperMetadata, question_paper_text, question_lines, parts_lines, part_lines, own_lines,
}

-- The same paper with other answers, marking schemes and notes on sources.
module _ (answer_of : Text → Text) (scheme_of : Text → PaperScheme) where
  abbrev pub other_part : PaperSubpart → PaperSubpart
  other_part p = record p { answer = answer_of p.prompt; scheme = scheme_of p.prompt }

  abbrev pub other_question : PaperQuestion → PaperQuestion
  other_question q = record q {
    answer = answer_of q.prompt;
    source = answer_of q.id;
    scheme = scheme_of q.prompt;
    subparts = map other_part q.subparts;
  }

  abbrev pub other_answers : GeneratedPaper → GeneratedPaper
  other_answers paper = record paper { questions = map other_question paper.questions }

  parts_lines-other : (ps : List PaperSubpart) → parts_lines (map other_part ps) ≡ parts_lines ps
  unfolding parts_lines
  parts_lines-other [] = refl
  parts_lines-other (p ∷ ps) = ap (λ r. part_lines p ++ r) (parts_lines-other ps)

  own_lines-other :
      (ps : List PaperSubpart) (n : ℕ) → own_lines (map other_part ps) n ≡ own_lines ps n
  own_lines-other [] n = refl
  own_lines-other (p ∷ ps) n = refl

  question_lines-other :
      (index : ℕ) (qs : List PaperQuestion)
      → question_lines index (map other_question qs) ≡ question_lines index qs
  unfolding question_lines
  question_lines-other index [] = refl
  question_lines-other index (q ∷ qs) =
      simp
        (
          parts_lines-other q.subparts,
          own_lines-other q.subparts q.working_lines,
          question_lines-other (index + 1) qs,
        )
        refl

  -- The text of the question paper is the same whatever the answers, the marking schemes and the notes
  -- on sources are, of the questions and of their subparts, so a student can learn nothing of them
  -- from it.
  pub question_paper_text-other_answers :
      (m : PaperMetadata) (paper : GeneratedPaper)
      → question_paper_text m (other_answers paper) ≡ question_paper_text m paper
  unfolding question_paper_text
  question_paper_text-other_answers m paper = simp (question_lines-other 0 paper.questions) refl
