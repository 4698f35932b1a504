-- ===== src/Api/Content.antt =====
-- The study tree, materials, notes, papers and cards, and the lists with a query: the methods from
-- `dashboard` to `deleteCard`, and `quizzes`, `quizDeliveries`, `assignments` and `uploadMaterial`,
-- of packages/ui/src/api.ts.
use the_cinder_project.Base.{
  ℕ, Option, none, some, [], ◌∷◌, ◌++◌, Text, codes, truthy, if◌then◌else◌,
}
use the_cinder_project.Base.Number.{from_nat}
use the_cinder_project.Base.Json.{Json, str, num, null}
use the_cinder_project.Classroom.Scope.{encode_uri_component}
use the_cinder_project.Api.Request.{
  Request, get_, post, put, patch, delete, form, plain, with_json, with_fields, within, nullable,
  optional_text,
}

pub data ContentCall : Type 0 where
  dashboard tree question_papers : ContentCall
  create_node : Json → ContentCall
  update_node save_question_paper : Text → Json → ContentCall
  delete_node material_blob note delete_question_paper cards delete_card : Text → ContentCall
  save_note : Text → Json → Text → Option Text → ContentCall
  search_papers fetch_paper_source : Text → ContentCall
  find_paper_figures : Json → ContentCall
  chat : Json → Option Text → Option ℕ → ContentCall
  create_card : Text → Text → Text → ContentCall

abbrev optional_number : Option ℕ → Option Json
optional_number none = none
optional_number (some n) = some (num (from_nat n))

unfoldable pub content_request : ContentCall → Request
content_request dashboard = plain get_ (codes "/api/teacher/dashboard")
content_request tree = plain get_ (codes "/api/tree")
content_request (create_node input) = with_json post (codes "/api/nodes") input
content_request (update_node id input) = with_json patch (codes "/api/nodes/" ++ id) input
content_request (delete_node id) = plain delete (codes "/api/nodes/" ++ id)
content_request (material_blob id) = within 60000 (plain get_ (codes "/api/files/" ++ id))
content_request (note id) = plain get_ (codes "/api/notes/" ++ id)
content_request (save_note id doc_json plaintext base_updated_at) =
    with_fields put (codes "/api/notes/" ++ id) (
      (codes "doc_json", some doc_json)
      ∷ (codes "plaintext", some (str plaintext))
      ∷ (codes "base_updated_at", nullable base_updated_at)
      ∷ [])
content_request (search_papers query) =
    within 120000
      (with_fields post (codes "/api/papers/search") ((codes "query", some (str query)) ∷ []))
content_request (fetch_paper_source url) =
    within 120000
      (with_fields post (codes "/api/papers/fetch") ((codes "url", some (str url)) ∷ []))
content_request (find_paper_figures pages) =
    within 190000
      (with_fields post (codes "/api/papers/figures") ((codes "pages", some pages) ∷ []))
content_request question_papers = plain get_ (codes "/api/papers")
content_request (save_question_paper id input) = with_json patch (codes "/api/papers/" ++ id) input
content_request (delete_question_paper id) = plain delete (codes "/api/papers/" ++ id)
content_request (chat messages context max_output_tokens) = within 190000 (
    with_fields post (codes "/api/ai/chat") (
      (codes "messages", some messages)
      ∷ (codes "context", optional_text context)
      ∷ (codes "max_output_tokens", optional_number max_output_tokens)
      ∷ []))
content_request (cards deck_id) = plain get_ (codes "/api/decks/" ++ (deck_id ++ codes "/cards"))
content_request (create_card deck_id front back) =
    with_fields post (codes "/api/decks/" ++ (deck_id ++ codes "/cards")) (
      (codes "front", some (str front))
      ∷ (codes "back", some (str back))
      ∷ (codes "source_node_id", some null)
      ∷ (codes "source_excerpt", some null)
      ∷ [])
content_request (delete_card card_id) = plain delete (codes "/api/cards/" ++ card_id)

pub data QueryCall : Type 0 where
  quizzes quiz_deliveries assignments : Option Text → QueryCall
  upload_material : Text → QueryCall

abbrev pub with_id : Text → Option Text → Option Text
with_id path none = none
with_id path (some id) = some (path ++ (codes "?classroom_id=" ++ id))

-- `encodeURIComponent` throws at half a surrogate pair, and then there is no request.
abbrev pub query : Text → Option Text → Option Text
query path none = some path
query path (some id) = if truthy id then with_id path (encode_uri_component id) else some path

abbrev pub get_at : Option Text → Option Request
get_at none = none
get_at (some path) = some (plain get_ path)

abbrev pub upload_at : Option Text → Option Request
upload_at none = none
upload_at (some id) = some (record {
  method = post;
  path = codes "/api/files?shared=true&classroom_id=" ++ id;
  body = form;
  timeout_ms = 60000;
})

unfoldable pub query_request : QueryCall → Option Request
unfolding encode_uri_component
query_request (quizzes classroom_id) = get_at (query (codes "/api/quizzes") classroom_id)
query_request (quiz_deliveries classroom_id) =
    get_at (query (codes "/api/quiz-deliveries") classroom_id)
query_request (assignments classroom_id) = get_at (query (codes "/api/assignments") classroom_id)
query_request (upload_material classroom_id) = upload_at (encode_uri_component classroom_id)
