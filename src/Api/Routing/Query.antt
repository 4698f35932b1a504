-- ===== src/Api/Routing/Query.antt =====
-- The routes of the lists with a query.
use the_cinder_project.Base.{
  Bool, true, false, Option, none, some, ◌++◌, Text, codes, text_eq, truthy, if◌then◌else◌, refl,
}
use the_cinder_project.Api.Request.{Request, get_, plain}
use the_cinder_project.Api.Content.{
  QueryCall, quizzes, quiz_deliveries, assignments, upload_material, query_request, query, get_at,
  upload_at,
}
use the_cinder_project.Classroom.Scope.{encode_uri_component}
use the_cinder_project.Host.Routes.{dispatch, find_route, segments}
use the_cinder_project.Api.Routing.Ids.{Meets}

abbrev pub query_handler : QueryCall → Text
query_handler (quizzes _) = codes "quizzes::list_quizzes"
query_handler (quiz_deliveries _) = codes "quizzes::list_deliveries"
query_handler (assignments _) = codes "assignments::list_assignments"
query_handler (upload_material _) = codes "files::upload"

-- What holds of the request, if there is one.
abbrev pub Each : (Request → Type 0) → Option Request → Type 0
Each P none = Unit
Each P (some r) = P r

module _ (P : Request → Type 0) (path : Text) where
  encoded-Each :
      (o : Option Text)
      → P (plain get_ path)
      → ((id : Text) → P (plain get_ (path ++ (codes "?classroom_id=" ++ id))))
      → (b : Bool)
      → Each P (
          get_at (
            if b
            then (elim o [ none ↦ none | some id ↦ some (path ++ (codes "?classroom_id=" ++ id)) ])
            else some path))
  encoded-Each o h k false = h
  encoded-Each none h k true = tt
  encoded-Each (some id) h k true = k id

  pub query-Each :
      (classroom_id : Option Text)
      → P (plain get_ path)
      → ((id : Text) → P (plain get_ (path ++ (codes "?classroom_id=" ++ id))))
      → Each P (get_at (query path classroom_id))
  query-Each none h k = h
  query-Each (some id) h k = encoded-Each (encode_uri_component id) h k (truthy id)

module _ (P : Request → Type 0) where
  pub upload-Each :
      (o : Option Text) → ((id : Text) → Each P (upload_at (some id))) → Each P (upload_at o)
  upload-Each none h = tt
  upload-Each (some id) h = h id

pub query_request-Meets : (c : QueryCall) → Each (Meets (query_handler c)) (query_request c)
unfolding query_request dispatch find_route segments text_eq
query_request-Meets (quizzes id) =
    query-Each (Meets (codes "quizzes::list_quizzes")) (codes "/api/quizzes") id refl (λ i. refl)
query_request-Meets (quiz_deliveries id) =
    query-Each (Meets (codes "quizzes::list_deliveries")) (codes "/api/quiz-deliveries") id refl
      (λ i. refl)
query_request-Meets (assignments id) =
    query-Each (Meets (codes "assignments::list_assignments")) (codes "/api/assignments") id refl
      (λ i. refl)
query_request-Meets (upload_material id) =
    upload-Each (Meets (codes "files::upload")) (encode_uri_component id) (λ i. refl)
