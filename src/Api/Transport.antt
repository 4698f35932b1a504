-- ===== src/Api/Transport.antt =====
-- packages/ui/src/hostTransport.ts: the frames that go to the native side and back, and `hostFetch`
-- in the installed apps. The native side, and JSON in UTF-8 in both directions, are parameters; what
-- `new Request` serialises is an argument. `new Response` throws as the platform documents.
use the_cinder_project.Base.{
  ℕ, suc, ◌+◌, ◌*◌, ◌/◌, ◌%◌, ◌^◌, ◌<◌, Bool, true, false, ◌&&◌, Option, none, some, List, [], ◌∷◌,
  ◌++◌, Text, codes, starts_with, trim, length, take, drop, find, any, leb, ◌==◌, if◌then◌else◌,
  ◌≤◌, ◌≢◌, ◌⊎◌, ◌≡◌, refl, sym, subst, ◌∙◌, ap, ap₂, arith,
}

abbrev pub Bytes : Type 0
Bytes = List ℕ

-- `setUint32`: four bytes, the highest first.
abbrev pub set_uint32 : ℕ → Bytes
set_uint32 n = n / 2 ^ 24 % 256 ∷ (n / 2 ^ 16 % 256 ∷ (n / 2 ^ 8 % 256 ∷ (n % 256 ∷ [])))

-- `getUint32(0)`, which throws where there are not four bytes.
abbrev pub get_uint32 : Bytes → Option ℕ
get_uint32 [] = none
get_uint32 (_ ∷ []) = none
get_uint32 (_ ∷ (_ ∷ [])) = none
get_uint32 (_ ∷ (_ ∷ (_ ∷ []))) = none
get_uint32 (a ∷ (b ∷ (c ∷ (d ∷ _)))) = some (((a * 256 + b) * 256 + c) * 256 + d)

unfoldable pub frame : Bytes → Bytes → Bytes
frame encoded body = set_uint32 (length encoded) ++ (encoded ++ body)

pub record RequestHead : Type 0 where
  pub url : Text
  pub method : Text
  pub headers : List (Text × Text)
  pub timeout_ms : ℕ

pub record ReplyHead : Type 0 where
  pub status : ℕ
  pub headers : List (Text × Text)

module _ (parse : Bytes → Option ReplyHead) where
  abbrev pub with_body : Bytes → Option ReplyHead → Option (ReplyHead × Bytes)
  with_body body none = none
  with_body body (some head) = some (head, body)

  abbrev pub unframed : Bytes → ℕ → Option (ReplyHead × Bytes)
  unframed raw head_length =
      with_body (drop (4 + head_length) raw) (parse (take head_length (drop 4 raw)))

  abbrev pub headed : Bytes → Option ℕ → Option (ReplyHead × Bytes)
  headed raw none = none
  headed raw (some head_length) = unframed raw head_length

  unfoldable pub unframe : Bytes → Option (ReplyHead × Bytes)
  unframe raw = headed raw (get_uint32 raw)

  get-frame :
      (encoded body : Bytes)
      → length encoded < 2 ^ 32
      → get_uint32 (frame encoded body) ≡ some (length encoded)
  unfolding frame
  get-frame encoded body h = ap some (omega arith)

  take-append : (xs ys : Bytes) → take (length xs) (xs ++ ys) ≡ xs
  take-append [] ys = refl
  take-append (x ∷ xs) ys = ap (λ zs. x ∷ zs) (take-append xs ys)

  drop-append : (xs ys : Bytes) → drop (length xs) (xs ++ ys) ≡ ys
  drop-append [] ys = refl
  drop-append (x ∷ xs) ys = drop-append xs ys

  drop-frame : (encoded body : Bytes) → drop (4 + length encoded) (frame encoded body) ≡ body
  unfolding frame
  drop-frame encoded body =
      let past : 4 + length encoded ≡ suc (suc (suc (suc (length encoded)))) = omega arith in
      ap (λ n. drop n (frame encoded body)) past ∙ drop-append encoded body

  unframed-frame :
      (encoded body : Bytes) (head : ReplyHead)
      → parse encoded ≡ some head
      → unframed (frame encoded body) (length encoded) ≡ some (head, body)
  unfolding frame
  unframed-frame encoded body head e =
      ap₂ with_body (drop-frame encoded body) (ap parse (take-append encoded body) ∙ e)

  -- A frame is read back, if its head is shorter than 2^32 bytes.
  unframe-frame :
      (encoded body : Bytes) (head : ReplyHead)
      → length encoded < 2 ^ 32
      → parse encoded ≡ some head
      → unframe (frame encoded body) ≡ some (head, body)
  unfolding unframe
  unframe-frame encoded body head h e =
      ap (headed (frame encoded body)) (get-frame encoded body h)
      ∙ unframed-frame encoded body head e

pub record Sent : Type 0 where
  pub method : Text
  pub headers : List (Text × Text)
  pub body : Bytes

-- What `invoke`, raced against the signal, comes to; an abort is a failure too.
pub data Native : Type 0 where
  replied : Bytes → Native
  failed : Text → Native

abbrev pub aborted : Native
aborted = failed (codes "AbortError: Aborted")

pub data Reached : Type 0 where
  response : ℕ → List (Text × Text) → Option Bytes → Reached
  transport_error : Text → Text → Reached
  rethrown : Text → Reached
  not_a_frame bad_status : Reached

abbrev pub named_failures : List Text
named_failures = codes "host_identity_changed" ∷ (codes "host_outdated" ∷ (codes "invalid" ∷ []))

unfoldable pub failure : Text → Reached
unfolding trim
failure text = elim (find (λ known. starts_with text (known ++ codes ":")) named_failures) [
  | none ↦ rethrown text
  | some code ↦ transport_error code (trim (drop (length code + 1) text))
]

abbrev pub is_null_body : ℕ → Bool
is_null_body status = any (λ s. s == status) (101 ∷ (204 ∷ (205 ∷ (304 ∷ []))))

-- `new Response`, which throws on a status that is none of a response.
abbrev pub new_response : ReplyHead → Bytes → Reached
new_response head body =
    if leb 200 head.status && leb head.status 599
    then response head.status head.headers (if is_null_body head.status then none else some body)
    else bad_status

module _ (stringify : RequestHead → Bytes) (parse : Bytes → Option ReplyHead)
    (native : Bytes → Native) where
  abbrev pub request_head : Text → ℕ → Sent → RequestHead
  request_head url timeout_ms sent = record {
    url = url;
    method = sent.method;
    headers = sent.headers;
    timeout_ms = timeout_ms + 2000;
  }

  abbrev pub read_reply : Option (ReplyHead × Bytes) → Reached
  read_reply none = not_a_frame
  read_reply (some (head, body)) = new_response head body

  unfoldable pub answered_by : Native → Reached
  unfolding unframe failure
  answered_by (failed text) = failure text
  answered_by (replied raw) = read_reply (unframe parse raw)

  unfoldable pub host_fetch : Bool → Reached → Text → ℕ → Sent → Reached
  unfolding frame answered_by
  host_fetch false web url timeout_ms sent = web
  host_fetch true web url timeout_ms sent =
      answered_by (native (frame (stringify (request_head url timeout_ms sent)) sent.body))

  -- The response with the status, headers and body of a reply: no body for 204, 205 and 304, and
  -- an error for what is no status of a response.
  abbrev pub Answers : ReplyHead → Bytes → Reached → Type 0
  Answers head body r =
      ((200 ≤ head.status
          → head.status ≤ 599
          → (head.status ≡ 204) ⊎ (head.status ≡ 205) ⊎ (head.status ≡ 304)
          → r ≡ response head.status head.headers none)
        × (200 ≤ head.status
            → head.status ≤ 599
            → head.status ≢ 204
            → head.status ≢ 205
            → head.status ≢ 304
            → r ≡ response head.status head.headers (some body)))
      × ((head.status < 200) ⊎ (599 < head.status) → r ≡ bad_status)

  new_response-Answers :
      (head : ReplyHead) (body : Bytes) → Answers head body (new_response head body)
  new_response-Answers head body =
      (((λ a b c. ground arith), (λ a b c d e. ground arith)), (λ a. ground arith))

  -- Where the native side answers frames by frames and the text of its heads is shorter than 2^32
  -- bytes, `hostFetch` comes to the response that the native side made of the request: of its address,
  -- method, headers and body, with two seconds more than the page allows. A status from 200 to 599 is
  -- passed on with the headers and the body, and without a body for 204, 205 and 304; any other status
  -- is an error.
  pub host_fetch-frame :
      (write : ReplyHead → Bytes) (serve : RequestHead → Bytes → ReplyHead × Bytes)
      → ((head : RequestHead) (body : Bytes)
          → parse (write (serve head body).0) ≡ some (serve head body).0)
      → ((head : RequestHead) (body : Bytes) → length (write (serve head body).0) < 2 ^ 32)
      → ((head : RequestHead) (body : Bytes)
          → native (frame (stringify head) body)
            ≡ replied (frame (write (serve head body).0) (serve head body).1))
      → (web : Reached) (url : Text) (timeout_ms : ℕ) (sent : Sent)
      → Answers
          (serve
            (record {
              url = url;
              method = sent.method;
              headers = sent.headers;
              timeout_ms = timeout_ms + 2000;
            })
            sent.body).0
          (serve
            (record {
              url = url;
              method = sent.method;
              headers = sent.headers;
              timeout_ms = timeout_ms + 2000;
            })
            sent.body).1
          (host_fetch true web url timeout_ms sent)
  unfolding host_fetch answered_by
  host_fetch-frame write serve reads short answers web url timeout_ms sent =
      let made : RequestHead = request_head url timeout_ms sent in
      let reply = serve made sent.body in
      let comes : host_fetch true web url timeout_ms sent ≡ new_response reply.0 reply.1 =
        ap answered_by (answers made sent.body)
        ∙ ap read_reply (
            unframe-frame parse (write reply.0) reply.1 reply.0 (short made sent.body)
              (reads made sent.body)) in
      subst (Answers reply.0 reply.1) (sym comes) (new_response-Answers reply.0 reply.1)
