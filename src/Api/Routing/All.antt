-- ===== src/Api/Routing/All.antt =====
-- The routes of all methods.
use the_cinder_project.Base.{Text, List, Option, none, some, ◌≡◌, ◌∙◌}
use the_cinder_project.Api.Request.{Request, Method}
use the_cinder_project.Host.Routes.{Route, Answer, handled, routes, IsRouter}
use the_cinder_project.Api.Calls.{
  Call, of_account, of_classroom, of_work, of_content, of_query, request_of,
}
use the_cinder_project.Api.Routing.Ids.{Meets}
use the_cinder_project.Api.Routing.Account.{account_handler, AccountIds, account_request-Meets}
use the_cinder_project.Api.Routing.Classrooms.{
  classroom_handler, ClassroomIds, classroom_request-Meets,
}
use the_cinder_project.Api.Routing.Work.{work_handler, WorkIds, work_request-Meets}
use the_cinder_project.Api.Routing.Content.{content_handler, ContentIds, content_request-Meets}
use the_cinder_project.Api.Routing.Query.{query_handler, Each, query_request-Meets}

abbrev pub handler_of : Call → Text
handler_of (of_account c) = account_handler c
handler_of (of_classroom c) = classroom_handler c
handler_of (of_work c) = work_handler c
handler_of (of_content c) = content_handler c
handler_of (of_query c) = query_handler c

-- The ids in the path of a method are ids that the Host makes.
abbrev pub HasIds : Call → Type 0
HasIds (of_account c) = AccountIds c
HasIds (of_classroom c) = ClassroomIds c
HasIds (of_work c) = WorkIds c
HasIds (of_content c) = ContentIds c
HasIds (of_query c) = Unit

request_of-Meets : (c : Call) → HasIds c → Each (Meets (handler_of c)) (request_of c)
unfolding request_of
request_of-Meets (of_account c) h = account_request-Meets c h
request_of-Meets (of_classroom c) h = classroom_request-Meets c h
request_of-Meets (of_work c) h = work_request-Meets c h
request_of-Meets (of_content c) h = content_request-Meets c h
request_of-Meets (of_query c) h = query_request-Meets c

-- The request is answered by the handler.
abbrev pub Reaches : (List Route → Method → Text → Answer) → Text → Request → Type 0
Reaches serve handler r = serve routes r.method r.path ≡ handled handler

Each-Reaches :
    (serve : List Route → Method → Text → Answer)
    → IsRouter serve
    → (handler : Text) (o : Option Request) → Each (Meets handler) o
    → Each (Reaches serve handler) o
Each-Reaches serve documented handler none e = tt
Each-Reaches serve documented handler (some r) e = documented r.method r.path ∙ e

-- Every method of the client sends a request that the Host answers by the handler which the method
-- is for, so neither a wrong path nor a wrong HTTP method can come up, where the ids in the path
-- are made of hexadecimal digits and dashes and the router does what it documents; a method whose
-- argument cannot be encoded sends none.
pub request_of-Reaches :
    (serve : List Route → Method → Text → Answer)
    → IsRouter serve
    → (c : Call) → HasIds c
    → Each (Reaches serve (handler_of c)) (request_of c)
request_of-Reaches serve documented c h =
    Each-Reaches serve documented (handler_of c) (request_of c) (request_of-Meets c h)
