-- ===== src/Api/Routing/Content.antt =====
-- The routes of the methods of Api/Content.antt.
use the_cinder_project.Base.{Text, codes, text_eq, refl, [], ◌∷◌}
use the_cinder_project.Api.Content.{
  ContentCall, content_request, dashboard, tree, create_node, update_node, delete_node,
  material_blob, note, save_note, search_papers, fetch_paper_source, find_paper_figures,
  question_papers, save_question_paper, delete_question_paper, chat, cards, create_card,
  delete_card,
}
use the_cinder_project.Host.Routes.{dispatch, find_route, segments}
use the_cinder_project.Api.Routing.Ids.{IsId, segment, Meets, via, via_id}

-- The handler that the Host should call.
abbrev pub content_handler : ContentCall → Text
content_handler dashboard = codes "dashboard::stats"
content_handler tree = codes "tree::get_tree"
content_handler (create_node _) = codes "tree::create_node"
content_handler (update_node _ _) = codes "tree::update_node"
content_handler (delete_node _) = codes "tree::delete_node"
content_handler (material_blob _) = codes "files::download"
content_handler (note _) = codes "notes::get_note"
content_handler (save_note _ _ _ _) = codes "notes::save_note"
content_handler (search_papers _) = codes "papers::search"
content_handler (fetch_paper_source _) = codes "papers::fetch_source"
content_handler (find_paper_figures _) = codes "papers::figures"
content_handler question_papers = codes "papers::list_papers"
content_handler (save_question_paper _ _) = codes "papers::update_paper"
content_handler (delete_question_paper _) = codes "papers::delete_paper"
content_handler (chat _ _ _) = codes "ai::chat"
content_handler (cards _) = codes "cards::list"
content_handler (create_card _ _ _) = codes "cards::create"
content_handler (delete_card _) = codes "cards::remove"

-- The ids in a path.
abbrev pub ContentIds : ContentCall → Type 0
ContentIds dashboard = Unit
ContentIds tree = Unit
ContentIds (create_node _) = Unit
ContentIds (update_node id _) = IsId id
ContentIds (delete_node id) = IsId id
ContentIds (material_blob id) = IsId id
ContentIds (note id) = IsId id
ContentIds (save_note id _ _ _) = IsId id
ContentIds (search_papers _) = Unit
ContentIds (fetch_paper_source _) = Unit
ContentIds (find_paper_figures _) = Unit
ContentIds question_papers = Unit
ContentIds (save_question_paper id _) = IsId id
ContentIds (delete_question_paper id) = IsId id
ContentIds (chat _ _ _) = Unit
ContentIds (cards id) = IsId id
ContentIds (create_card id _ _) = IsId id
ContentIds (delete_card id) = IsId id

pub content_request-Meets :
    (c : ContentCall) → ContentIds c → Meets (content_handler c) (content_request c)
unfolding dispatch content_request find_route segments text_eq
content_request-Meets dashboard h = refl
content_request-Meets tree h = refl
content_request-Meets (create_node input) h = refl
content_request-Meets (update_node id input) h =
    via_id (content_handler (update_node id input)) (content_request (update_node id input))
      (λ x. codes "" ∷ codes "api" ∷ codes "nodes" ∷ x ∷ []) id h (simp (segment id h).last refl)
      (λ c s. refl)
content_request-Meets (delete_node id) h =
    via_id (content_handler (delete_node id)) (content_request (delete_node id))
      (λ x. codes "" ∷ codes "api" ∷ codes "nodes" ∷ x ∷ []) id h (simp (segment id h).last refl)
      (λ c s. refl)
content_request-Meets (material_blob id) h =
    via_id (content_handler (material_blob id)) (content_request (material_blob id))
      (λ x. codes "" ∷ codes "api" ∷ codes "files" ∷ x ∷ []) id h (simp (segment id h).last refl)
      (λ c s. refl)
content_request-Meets (note id) h =
    via_id (content_handler (note id)) (content_request (note id))
      (λ x. codes "" ∷ codes "api" ∷ codes "notes" ∷ x ∷ []) id h (simp (segment id h).last refl)
      (λ c s. refl)
content_request-Meets (save_note id d p b) h =
    via_id (content_handler (save_note id d p b)) (content_request (save_note id d p b))
      (λ x. codes "" ∷ codes "api" ∷ codes "notes" ∷ x ∷ []) id h (simp (segment id h).last refl)
      (λ c s. refl)
content_request-Meets (search_papers query) h = refl
content_request-Meets (fetch_paper_source url) h = refl
content_request-Meets (find_paper_figures pages) h = refl
content_request-Meets question_papers h = refl
content_request-Meets (save_question_paper id input) h =
    via (content_handler (save_question_paper id input))
      (content_request (save_question_paper id input))
      (codes "" ∷ codes "api" ∷ codes "papers" ∷ id ∷ []) (simp (segment id h).last refl)
      (simp
        (
          (segment id h).some_char,
          (segment id h).ne_search,
          (segment id h).ne_fetch,
          (segment id h).ne_figures,
        )
        refl)
content_request-Meets (delete_question_paper id) h =
    via (content_handler (delete_question_paper id)) (content_request (delete_question_paper id))
      (codes "" ∷ codes "api" ∷ codes "papers" ∷ id ∷ []) (simp (segment id h).last refl)
      (simp
        (
          (segment id h).some_char,
          (segment id h).ne_search,
          (segment id h).ne_fetch,
          (segment id h).ne_figures,
        )
        refl)
content_request-Meets (chat m c n) h = refl
content_request-Meets (cards id) h =
    via_id (content_handler (cards id)) (content_request (cards id))
      (λ x. codes "" ∷ codes "api" ∷ codes "decks" ∷ x ∷ codes "cards" ∷ []) id h
      (simp (segment id h).more refl) (λ c s. refl)
content_request-Meets (create_card id f b) h =
    via_id (content_handler (create_card id f b)) (content_request (create_card id f b))
      (λ x. codes "" ∷ codes "api" ∷ codes "decks" ∷ x ∷ codes "cards" ∷ []) id h
      (simp (segment id h).more refl) (λ c s. refl)
content_request-Meets (delete_card id) h =
    via_id (content_handler (delete_card id)) (content_request (delete_card id))
      (λ x. codes "" ∷ codes "api" ∷ codes "cards" ∷ x ∷ []) id h (simp (segment id h).last refl)
      (λ c s. refl)
