-- ===== src/Api/Request.antt =====
-- The client's requests: `ApiError`, `CinderApi.request`, `health` and `materialBlob` of
-- packages/ui/src/api.ts, with packages/ui/src/health.ts. What `hostFetch` comes back with is an
-- argument.
use the_cinder_project.Base.{
  ℕ, Bool, true, false, not, ◌&&◌, Option, none, some, List, [], ◌∷◌, ◌++◌, Text, codes, trim,
  truthy, leb, ◌==◌, if◌then◌else◌,
}
use the_cinder_project.Base.Decimal.{decimal}
use the_cinder_project.Base.Json.{Json, null, bool, str, obj, Fields, end, field, get, read_field}

pub data Method : Type 0 where
  get_ post put patch delete : Method

pub data Body : Type 0 where
  empty form : Body
  json : Json → Body

pub record Request : Type 0 where
  pub method : Method
  pub path : Text
  pub body : Body
  pub timeout_ms : ℕ

pub record Client : Type 0 where
  pub base_url : Text
  pub token : Option Text

abbrev pub drop_slashes : Text → Text
drop_slashes [] = []
drop_slashes (c ∷ s) =
    let rest = drop_slashes s in if c == b'/' && not (truthy rest) then [] else c ∷ rest

-- `replace(/\/+$/, "")`, and the constructor.
unfoldable pub new_client : Text → Option Text → Client
new_client base_url token = record { base_url = drop_slashes base_url; token = token }

abbrev pub set_token : Option Text → Client → Client
set_token token c = record c { token = token }

-- `JSON.stringify` of an object; a field that is undefined is left out.
abbrev pub object : List (Text × Option Json) → Fields
object [] = end
object ((k, some v) ∷ fs) = field k v (object fs)
object ((k, none) ∷ fs) = object fs

pub record Wire : Type 0 where
  pub url : Text
  pub verb : Method
  pub headers : List (Text × Text)
  pub sent : Body

abbrev pub authorization : Option Text → List (Text × Text)
authorization none = []
authorization (some token) =
    if truthy token then (codes "Authorization", codes "Bearer " ++ token) ∷ [] else []

abbrev pub content_type : Body → List (Text × Text)
content_type empty = []
content_type form = []
content_type (json _) = (codes "Content-Type", codes "application/json") ∷ []

-- What `request` hands to `hostFetch`. No method of the client gives headers of its own.
unfoldable pub wire : Client → Request → Wire
wire c r = record {
  url = c.base_url ++ r.path;
  verb = r.method;
  headers = authorization c.token ++ content_type r.body;
  sent = r.body;
}

pub record ApiError : Type 0 where
  pub code : Json
  pub message : Json
  pub status : ℕ

-- What `hostFetch` comes back with: an error that the native side named, another error, where the
-- flag says whether the client's own timer had fired, or a response with its body, if that is JSON.
pub data Fetched : Type 0 where
  named : Text → Text → Fetched
  rejected : Bool → Fetched
  answered : ℕ → Option Json → Fetched

-- How a request ends; `broken` is an exception that is no `ApiError`.
pub data Outcome : Type 0 where
  done : Option Json → Outcome
  failed : ApiError → Outcome
  broken : Outcome

abbrev pub ok_status : ℕ → Bool
ok_status status = leb 200 status && leb status 299

-- `value ?? fallback`
abbrev unless_nullish : Option Json → Json → Json
unless_nullish none d = d
unless_nullish (some null) d = d
unless_nullish (some v) d = v

abbrev read_in : Text → Option Json → Option Json
read_in k none = none
read_in k (some body) = get k body

abbrev no_answer : Text → Text → Outcome
no_answer code message = failed (record { code = str code; message = str message; status = 0 })

unfoldable pub unanswered : Bool → Text → Outcome
unanswered aborted late =
    if aborted
    then no_answer (codes "timeout") late
    else no_answer (codes "offline") (codes "The teacher computer is currently unreachable.")

unfoldable pub refused : ℕ → Option Json → Outcome
unfolding read_field decimal
refused status body = failed (record {
  code = unless_nullish (read_in (codes "error") body) (str (codes "request_failed"));
  message =
      unless_nullish (read_in (codes "message") body)
        (str (codes "Request failed (" ++ (decimal status ++ codes ")")));
  status = status;
})

abbrev pub parsed : Option Json → Outcome
parsed none = broken
parsed (some v) = done (some v)

unfoldable pub receive : Fetched → Outcome
unfolding unanswered refused
receive (named code message) = no_answer code message
receive (rejected aborted) =
    unanswered aborted (codes "The teacher computer did not respond in time.")
receive (answered status body) =
    if not (ok_status status)
    then refused status body
    else if status == 204
    then done none
    else parsed body

-- `materialBlob`; the body of a response is its bytes.
unfoldable pub receive_blob : Fetched → Outcome
unfolding unanswered
receive_blob (named code message) = no_answer code message
receive_blob (rejected aborted) = unanswered aborted (codes "The material download timed out.")
receive_blob (answered status body) =
    if ok_status status
    then done body
    else failed (record {
      code = str (codes "request_failed");
      message = str (codes "The material could not be opened.");
      status = status;
    })

abbrev is_true : Option Json → Bool
is_true (some (bool b)) = b
is_true _ = false

abbrev names_version : Option Json → Bool
names_version (some (str version)) = truthy (trim version)
names_version _ = false

unfoldable pub is_cinder_health_response : Json → Bool
unfolding read_field
is_cinder_health_response (obj fields) =
    is_true (read_field (codes "ok") fields) && names_version (read_field (codes "version") fields)
is_cinder_health_response _ = false

abbrev identified : Option Json → Bool
identified none = false
identified (some v) = is_cinder_health_response v

-- `health`, after its request.
unfoldable pub checked_health : Outcome → Outcome
unfolding is_cinder_health_response
checked_health (done v) =
    if identified v
    then done v
    else failed (record {
      code = str (codes "invalid_host");
      message = str (codes "The server did not identify as Cinder Host.");
      status = 200;
    })
checked_health (failed e) = failed e
checked_health broken = broken

unfoldable pub probe_host : Fetched → Bool
unfolding checked_health receive
probe_host f = elim (checked_health (receive f)) [
  | done _ ↦ true
  | failed _ ↦ false
  | broken ↦ false
]

-- Requests of the usual ten seconds.
abbrev pub plain : Method → Text → Request
plain method path = record { method = method; path = path; body = empty; timeout_ms = 10000 }

abbrev pub with_json : Method → Text → Json → Request
with_json method path body = record {
  method = method;
  path = path;
  body = json body;
  timeout_ms = 10000;
}

abbrev pub with_fields : Method → Text → List (Text × Option Json) → Request
with_fields method path fields = with_json method path (obj (object fields))

abbrev pub within : ℕ → Request → Request
within ms r = record r { timeout_ms = ms }

-- `value || null` and `value ?? null` of a text
abbrev pub text_or_null : Option Text → Option Json
text_or_null none = some null
text_or_null (some t) = if truthy t then some (str t) else some null

abbrev pub nullable : Option Text → Option Json
nullable none = some null
nullable (some t) = some (str t)

abbrev pub optional_text : Option Text → Option Json
optional_text none = none
optional_text (some t) = some (str t)
