-- ===== src/Api/Routing/Proper.antt =====
-- What every request of the client looks like on the wire.
use the_cinder_project.Base.{
  Bool, true, false, not, ◌&&◌, Option, none, some, [], ◌∷◌, ◌++◌, Text, codes, text_eq, truthy,
  starts_with, if◌then◌else◌, ◌==◌, ◌≡◌, refl, sym, ◌∙◌, ap, subst, All, ◌≤◌, ℕ, Bool-cases, inl,
  inr, arith,
}
use the_cinder_project.Base.Dict.{lookup}
use the_cinder_project.Api.Request.{
  Request, get_, Body, empty, form, json, new_client, wire, authorization, content_type,
  drop_slashes,
}
use the_cinder_project.Api.Account.{AccountCall, account_request}
use the_cinder_project.Api.Account
use the_cinder_project.Api.Classrooms
use the_cinder_project.Api.Work
use the_cinder_project.Api.Content
use the_cinder_project.Api.Classrooms.{ClassroomCall, classroom_request}
use the_cinder_project.Api.Work.{WorkCall, work_request}
use the_cinder_project.Api.Content.{
  ContentCall, content_request, QueryCall, query_request, quizzes, quiz_deliveries, assignments,
  upload_material,
}
use the_cinder_project.Classroom.Scope.{encode_uri_component}
use the_cinder_project.Api.Calls.{
  Call, of_account, of_classroom, of_work, of_content, of_query, request_of,
}
use the_cinder_project.Api.Routing.Query.{Each, query-Each, upload-Each}

-- A path of the API; a GET has no body; and some time at least to answer.
abbrev pub IsProper : ℕ → Request → Type 0
IsProper least r =
    (starts_with r.path (codes "/api/") ≡ true)
    × (r.method ≡ get_ → r.body ≡ empty)
    × (least ≤ r.timeout_ms)

-- `health` takes the time from its caller.
abbrev pub account_time : AccountCall → ℕ
account_time (Account.health timeout_ms) = timeout_ms
account_time c = 2000

abbrev pub least_time : Call → ℕ
least_time (of_account c) = account_time c
least_time (of_classroom c) = 2000
least_time (of_work c) = 2000
least_time (of_content c) = 2000
least_time (of_query c) = 2000

account-IsProper : (c : AccountCall) → IsProper (account_time c) (account_request c)
unfolding account_request
account-IsProper (Account.health _) = (refl, λ e. refl, omega arith)
account-IsProper c = (refl, λ e. cc, omega arith)

classroom-IsProper : (c : ClassroomCall) → IsProper 2000 (classroom_request c)
unfolding classroom_request
classroom-IsProper Classrooms.classrooms = (refl, λ e. refl, omega arith)
classroom-IsProper c = (refl, λ e. cc, omega arith)

work-IsProper : (c : WorkCall) → IsProper 2000 (work_request c)
unfolding work_request
work-IsProper (Work.create_quiz input) = (refl, λ e. cc, omega arith)
work-IsProper c = (refl, λ e. cc, omega arith)

content-IsProper : (c : ContentCall) → IsProper 2000 (content_request c)
unfolding content_request
content-IsProper Content.dashboard = (refl, λ e. refl, omega arith)
content-IsProper c = (refl, λ e. cc, omega arith)

query-IsProper : (c : QueryCall) → Each (IsProper 2000) (query_request c)
unfolding query_request
query-IsProper (quizzes id) =
    query-Each (IsProper 2000) (codes "/api/quizzes") id (refl, λ e. refl, omega arith)
      (λ i. (refl, λ e. refl, omega arith))
query-IsProper (quiz_deliveries id) =
    query-Each (IsProper 2000) (codes "/api/quiz-deliveries") id (refl, λ e. refl, omega arith)
      (λ i. (refl, λ e. refl, omega arith))
query-IsProper (assignments id) =
    query-Each (IsProper 2000) (codes "/api/assignments") id (refl, λ e. refl, omega arith)
      (λ i. (refl, λ e. refl, omega arith))
query-IsProper (upload_material id) =
    upload-Each (IsProper 2000) (encode_uri_component id) (λ i. (refl, λ e. cc, omega arith))

proper_lem : (c : Call) → Each (IsProper (least_time c)) (request_of c)
unfolding request_of
proper_lem (of_account c) = account-IsProper c
proper_lem (of_classroom c) = classroom-IsProper c
proper_lem (of_work c) = work-IsProper c
proper_lem (of_content c) = content-IsProper c
proper_lem (of_query c) = query-IsProper c

-- The `Authorization` header of a token.
abbrev pub bearer : Option Text → Option Text
bearer none = none
bearer (some token) = if truthy token then some (codes "Bearer " ++ token) else none

abbrev pub json_type : Body → Option Text
json_type empty = none
json_type form = none
json_type (json _) = some (codes "application/json")

abbrev pub ends_with_slash : Text → Bool
ends_with_slash [] = false
ends_with_slash (c ∷ []) = c == b'/'
ends_with_slash (c ∷ d ∷ s) = ends_with_slash (d ∷ s)

-- An address, and the slashes at its end.
abbrev pub Slashes : Text → Text → Text → Type 0
Slashes address base slashes =
    (address ≡ base ++ slashes) × All (λ c. c ≡ b'/') slashes × (ends_with_slash base ≡ false)

-- What goes over the wire: the request of an address and token.
abbrev pub OnWire : Text → Option Text → ℕ → Request → Type 0
OnWire address token least r =
    let w = wire (new_client address token) r in
    ((base : Text) × (slashes : Text) × Slashes address base slashes × (w.url ≡ base ++ r.path))
    × (starts_with r.path (codes "/api/") ≡ true)
    × (lookup (codes "Authorization") w.headers ≡ bearer token)
    × (lookup (codes "Content-Type") w.headers ≡ json_type w.sent)
    × (w.verb ≡ get_ → w.sent ≡ empty)
    × (least ≤ r.timeout_ms)

wire-headers :
    (address : Text) (token : Option Text) (r : Request)
    → (lookup (codes "Authorization") (wire (new_client address token) r).headers ≡ bearer token)
      × (lookup (codes "Content-Type") (wire (new_client address token) r).headers
          ≡ json_type r.body)
unfolding wire lookup text_eq new_client
wire-headers address token r = go token r.body
  where
    go :
        (t : Option Text) (b : Body)
        → (lookup (codes "Authorization") (authorization t ++ content_type b) ≡ bearer t)
          × (lookup (codes "Content-Type") (authorization t ++ content_type b) ≡ json_type b)
    go none empty = (refl, refl)
    go none form = (refl, refl)
    go none (json j) = (refl, refl)
    go (some []) empty = (refl, refl)
    go (some []) form = (refl, refl)
    go (some []) (json j) = (refl, refl)
    go (some (c ∷ s)) empty = (refl, refl)
    go (some (c ∷ s)) form = (refl, refl)
    go (some (c ∷ s)) (json j) = (refl, refl)

kept_end :
    (c : ℕ) (rest : Text)
    → ends_with_slash rest ≡ false
    → ends_with_slash (if c == b'/' && not (truthy rest) then [] else c ∷ rest) ≡ false
kept_end c [] h = ground arith
kept_end c (d ∷ t) h = ground arith

drop_slashes-end : (s : Text) → ends_with_slash (drop_slashes s) ≡ false
drop_slashes-end [] = refl
drop_slashes-end (c ∷ s) = kept_end c (drop_slashes s) (drop_slashes-end s)

-- What is dropped are slashes.
drop_slashes-rest :
    (s : Text) → (rest : Text) × (s ≡ drop_slashes s ++ rest) × All (λ c. c ≡ b'/') rest
drop_slashes-rest [] = ([], refl, tt)
drop_slashes-rest (c ∷ s) =
    let (rest, same, slashes) = drop_slashes-rest s in
    elim (Bool-cases (c == b'/' && not (truthy (drop_slashes s)))) [
      | inl e ↦
          let empty_left : drop_slashes s ≡ [] = untruthy (drop_slashes s) (ground arith) in
          let all : s ≡ rest = same ∙ ap (λ t. t ++ rest) empty_left in
          simp e (c ∷ s, refl, (ground arith, subst (λ t. All (λ c. c ≡ b'/') t) (sym all) slashes))
      | inr e ↦ simp e (rest, ap (λ t. c ∷ t) same, slashes)
    ]
  where
    untruthy : (t : Text) → truthy t ≡ false → t ≡ []
    untruthy [] h = refl
    untruthy (d ∷ t) h = absurd cc

proper-OnWire :
    (address : Text) (token : Option Text) (least : ℕ) (o : Option Request)
    → Each (IsProper least) o
    → Each (OnWire address token least) o
unfolding wire new_client
proper-OnWire address token least none h = tt
proper-OnWire address token least (some r) h =
    let (a, b) = wire-headers address token r in
    let (rest, same, slashes) = drop_slashes-rest address in
    (
      (drop_slashes address, rest, (same, slashes, drop_slashes-end address), refl),
      h.0,
      a,
      b,
      h.1,
      h.2,
    )

-- Every request of the client goes to the address it was made with, less the slashes at its end,
-- and a path of the API; carries the token, if there is one that is not empty, and names JSON as
-- its content exactly if it sends JSON; a GET has no body; and at least two seconds are allowed, or
-- what the caller of `health` gives.
pub request_of-OnWire :
    (address : Text) (token : Option Text) (c : Call)
    → Each (OnWire address token (least_time c)) (request_of c)
request_of-OnWire address token c =
    proper-OnWire address token (least_time c) (request_of c) (proper_lem c)
