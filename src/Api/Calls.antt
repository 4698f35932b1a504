-- ===== src/Api/Calls.antt =====
-- All methods of the client together.
use the_cinder_project.Base.{Option, some}
use the_cinder_project.Api.Request.{Request}
use the_cinder_project.Api.Account.{AccountCall, account_request}
use the_cinder_project.Api.Classrooms.{ClassroomCall, classroom_request}
use the_cinder_project.Api.Work.{WorkCall, work_request}
use the_cinder_project.Api.Content.{ContentCall, content_request, QueryCall, query_request}

pub data Call : Type 0 where
  of_account : AccountCall → Call
  of_classroom : ClassroomCall → Call
  of_work : WorkCall → Call
  of_content : ContentCall → Call
  of_query : QueryCall → Call

-- The request of a method; `none` where its arguments make it throw.
unfoldable pub request_of : Call → Option Request
unfolding account_request classroom_request work_request content_request query_request
request_of (of_account c) = some (account_request c)
request_of (of_classroom c) = some (classroom_request c)
request_of (of_work c) = some (work_request c)
request_of (of_content c) = some (content_request c)
request_of (of_query c) = query_request c
