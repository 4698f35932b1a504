-- ===== src/Classroom/Outbox.antt =====
-- The outbox of packages/ui/src/cache.ts, and how StudentClassrooms.tsx fills and sends it: `submit`
-- and `withdraw` of an assignment, and `flushCurrentStudent`. The browser's database does not fail
-- here. An object store lists its entries by ascending keys.
pub mod Laws
use the_cinder_project.Base.{
  ◌*◌, ℕ, ◌<◌, Bool, true, false, ◌&&◌, ◌||◌, Option, none, some, is_some, List, [], ◌∷◌, ◌++◌, map,
  Text, codes, text_eq, truthy, ltb, leb, ◌==◌, if◌then◌else◌,
}
use the_cinder_project.Base.Dict.{Dict, remove}
use the_cinder_project.Classroom.Scope.{belongs_to_classroom_scope, submission_outbox_key}

pub record SubmissionPayload : Type 0 where
  pub assignment_id : Text
  pub doc : Text
  pub text : Text
  pub note : Text

-- `kind` with the payload of that kind.
pub data Entry : Type 0 where
  note : Text → Entry
  submission : SubmissionPayload → Entry

-- The order of string keys, by code units.
abbrev text_lt : Text → Text → Bool
text_lt [] [] = false
text_lt [] (_ ∷ _) = true
text_lt (_ ∷ _) [] = false
text_lt (a ∷ s) (b ∷ t) = ltb a b || (a == b && text_lt s t)

-- `store.put(value, key)`
unfoldable pub put : Text → Entry → Dict Entry → Dict Entry
put k v [] = (k, v) ∷ []
put k v ((j, w) ∷ m) =
    if text_eq j k
    then (k, v) ∷ m
    else if text_lt k j
    then (k, v) ∷ (j, w) ∷ m
    else (j, w) ∷ put k v m

-- How `submitWork` ends: sent, an `ApiError` with its status (0 where the Host was not reached), or
-- another exception.
pub data Answer : Type 0 where
  sent : Answer
  api_error : ℕ → Answer
  broken : Answer

unfoldable pub is_offline : ℕ → Bool
is_offline status = status == 0

unfoldable pub should_retry_outbox_failure : ℕ → Bool → Bool
should_retry_outbox_failure status offline =
    offline || status == 408 || status == 425 || status == 429 || leb 500 status

-- The outbox, what the Host has accepted, newest last, and whether the message about a rejected
-- submission is shown.
pub record State : Type 0 where
  pub outbox : Dict Entry
  pub accepted : List SubmissionPayload
  pub rejected : Bool

-- The ids of `readQueued`.
queued_ids : Text → Dict Entry → List Text
queued_ids scope [] = []
queued_ids scope ((key, note _) ∷ m) = queued_ids scope m
queued_ids scope ((key, submission p) ∷ m) =
    if belongs_to_classroom_scope key scope
    then p.assignment_id ∷ queued_ids scope m
    else queued_ids scope m

abbrev pub delivered : Text → SubmissionPayload → State → State
delivered key p s = record s { outbox = remove key s.outbox; accepted = s.accepted ++ (p ∷ []) }

abbrev pub dropped : Text → State → State
dropped key s = record s { outbox = remove key s.outbox; rejected = true }

module _ (scope : Text) (answer : Text → Answer) where
  -- The loop of `flushCurrentStudent`; `answer` gives the Host's answer for each key.
  unfoldable pub flush_entries : Dict Entry → State → State
  unfolding remove
  flush_entries [] s = s
  flush_entries ((key, note _) ∷ rest) s = flush_entries rest s
  flush_entries ((key, submission p) ∷ rest) s =
      let skip = flush_entries rest s in
      let after_sent = flush_entries rest (delivered key p s) in
      let after_drop = flush_entries rest (dropped key s) in
      if belongs_to_classroom_scope key scope
      then (elim (answer key) [
        | sent ↦ after_sent
        | broken ↦ s
        | api_error status ↦
            if should_retry_outbox_failure status (is_offline status)
            then (if is_offline status then s else skip)
            else after_drop
      ])
      else skip

  -- The entries are those of the outbox when the loop begins.
  unfoldable pub flush_current_student : State → State
  unfolding flush_entries
  flush_current_student s = flush_entries s.outbox s

-- What the converters made of the chosen note: nothing, if they threw; the size of the text and of
-- the document in bytes.
pub record Prepared : Type 0 where
  pub payload : SubmissionPayload
  pub text_bytes : ℕ
  pub doc_bytes : ℕ

pub data Message : Type 0 where
  submitted went_offline saved_on_device failed : Message

abbrev pub fits : Prepared → Bool
fits p =
    truthy p.payload.text && leb p.text_bytes (1024 * 1024) && leb p.doc_bytes (2 * 1024 * 1024)

abbrev queue_submission : Text → SubmissionPayload → State → State
queue_submission key p s = record s { outbox = put key (submission p) s.outbox }

-- The submission of what fits, under its key.
send : Bool → Answer → Text → SubmissionPayload → State → State × Message
send false answer key p s = (queue_submission key p s, saved_on_device)
send true sent key p s = (delivered key p s, submitted)
send true broken key p s = (record s { outbox = remove key s.outbox }, failed)
send true (api_error status) key p s =
    let cleared : State = record s { outbox = remove key s.outbox } in
    if is_offline status then (queue_submission key p cleared, went_offline) else (cleared, failed)

-- `submit`, when it is neither syncing nor graded and a note is chosen.
pub submit : Bool → Answer → Text → Option Prepared → State → State × Message
unfolding send
submit online answer scope none s = (s, failed)
submit online answer scope (some p) s =
    if fits p
    then send online answer (submission_outbox_key scope p.payload.assignment_id) p.payload s
    else (s, failed)

-- `withdraw` of work that waits in the outbox.
cancel : Text → Text → State → State
cancel scope assignment_id s = record s {
  outbox = remove (submission_outbox_key scope assignment_id) s.outbox;
}
