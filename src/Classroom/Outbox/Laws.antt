-- ===== src/Classroom/Outbox/Laws.antt =====
-- What the outbox promises.
use the_cinder_project.Base.{
  Bool, true, false, ◌&&◌, ◌⊎◌, Option, none, some, List, [], ◌∷◌, ◌++◌, Text, text_eq, text_eq_iff,
  if◌then◌else◌, ◌≡◌, refl, ◌∙◌, sym, arith, Bool-cases, inl, inr, append_assoc, append-nil, subst,
}
use the_cinder_project.Base.Dict.{Dict, remove, lookup, lookup-remove}
use the_cinder_project.Classroom.Scope.{belongs_to_classroom_scope, submission_outbox_key}
use the_cinder_project.Classroom.Outbox.{
  SubmissionPayload, Entry, note, submission, put, Answer, sent, api_error, broken, is_offline,
  should_retry_outbox_failure, State, delivered, dropped, flush_entries, flush_current_student,
  Prepared, failed, fits, send, submit,
}

lookup-put :
    (k j : Text) (v : Entry) (m : Dict Entry)
    → lookup j (put k v m) ≡ (if text_eq k j then some v else lookup j m)
unfolding lookup put
lookup-put k j v [] = refl
lookup-put k j v ((i, w) ∷ m) =
    ground (arith, text_eq_iff k j, text_eq_iff i k, text_eq_iff i j, lookup-put k j v m)

-- The Host took the submission under the key, or turned it down for good.
abbrev pub IsSettled : Answer → Type 0
IsSettled sent = Unit
IsSettled broken = ⊥
IsSettled (api_error status) = should_retry_outbox_failure status (is_offline status) ≡ false

module _ (scope : Text) (answer : Text → Answer) where
  -- What becomes of the entry under a key.
  abbrev pub Kept : Text → Dict Entry → Dict Entry → Type 0
  Kept key before after =
      (lookup key after ≡ lookup key before)
      ⊎ ((belongs_to_classroom_scope key scope ≡ true) × IsSettled (answer key))

  Kept-trans : (key : Text) (a b c : Dict Entry) → Kept key a b → Kept key b c → Kept key a c
  Kept-trans key a b c (inl e) (inl f) = inl (f ∙ e)
  Kept-trans key a b c (inr h) _ = inr h
  Kept-trans key a b c (inl e) (inr h) = inr h

  Kept-remove :
      (k key : Text) (m : Dict Entry)
      → belongs_to_classroom_scope k scope ≡ true
      → IsSettled (answer k)
      → Kept key m (remove k m)
  Kept-remove k key m b h = elim (Bool-cases (text_eq k key)) [
    | inl e ↦
        let same = (text_eq_iff k key).0 e in
        inr (
          subst (λ t. (belongs_to_classroom_scope t scope ≡ true) × IsSettled (answer t)) same
            (b, h))
    | inr e ↦ inl (rw (lookup-remove, e))
  ]

  -- The four ways to go on after an answer.
  abbrev next : Answer → State → State → State → State → State
  next a after_sent skip after_drop stop = elim a [
    | sent ↦ after_sent
    | broken ↦ stop
    | api_error status ↦
        if should_retry_outbox_failure status (is_offline status)
        then (if is_offline status then stop else skip)
        else after_drop
  ]

  Kept-retry :
      (key : Text) (before : Dict Entry) (r o : Bool) (y z w : State)
      → Kept key before y.outbox
      → (r ≡ false → Kept key before z.outbox)
      → Kept key before w.outbox
      → Kept key before (if r then (if o then w else y) else z).outbox
  Kept-retry key before true true y z w g h k = k
  Kept-retry key before true false y z w g h k = g
  Kept-retry key before false o y z w g h k = h refl

  Kept-next :
      (key : Text) (before : Dict Entry) (a : Answer) (x y z w : State)
      → (IsSettled a → Kept key before x.outbox)
      → Kept key before y.outbox
      → (IsSettled a → Kept key before z.outbox)
      → Kept key before w.outbox
      → Kept key before (next a x y z w).outbox
  Kept-next key before sent x y z w f g h k = f tt
  Kept-next key before broken x y z w f g h k = k
  Kept-next key before (api_error status) x y z w f g h k =
      Kept-retry key before (should_retry_outbox_failure status (is_offline status))
        (is_offline status) y z w g h k

  flush_entries-Kept :
      (key : Text) (es : Dict Entry) (s : State)
      → Kept key s.outbox (flush_entries scope answer es s).outbox
  unfolding flush_entries
  flush_entries-Kept key [] s = inl refl
  flush_entries-Kept key ((k, note _) ∷ es) s = flush_entries-Kept key es s
  flush_entries-Kept key ((k, submission p) ∷ es) s =
      let skipped = flush_entries-Kept key es s in
      let after_sent = flush_entries-Kept key es (delivered k p s) in
      let after_drop = flush_entries-Kept key es (dropped k s) in
      elim (Bool-cases (belongs_to_classroom_scope k scope)) [
        | inr b ↦ simp b skipped
        | inl b ↦
            let removed = Kept-remove k key s.outbox b in
            simp b (
              Kept-next key s.outbox (answer k) (flush_entries scope answer es (delivered k p s))
                (flush_entries scope answer es s) (flush_entries scope answer es (dropped k s)) s
                (λ h. Kept-trans key s.outbox _ _ (removed h) after_sent) skipped
                (λ h. Kept-trans key s.outbox _ _ (removed h) after_drop) (inl refl))
      ]

  -- Sending the outbox takes an entry off it only if its key is in the scope of the account and the
  -- Host took the submission or turned it down for good, which are the answers that are not to be
  -- retried; every other entry stays as it was.
  pub lookup-flush_current_student :
      (key : Text) (s : State) → Kept key s.outbox (flush_current_student scope answer s).outbox
  unfolding flush_current_student
  lookup-flush_current_student key s = flush_entries-Kept key s.outbox s

-- The submissions of a scope among some entries, in their order.
abbrev pub waiting : Text → Dict Entry → List SubmissionPayload
waiting scope [] = []
waiting scope ((key, note _) ∷ m) = waiting scope m
waiting scope ((key, submission p) ∷ m) =
    if belongs_to_classroom_scope key scope then p ∷ waiting scope m else waiting scope m

flush_entries-sent :
    (scope : Text) (es : Dict Entry) (s : State)
    → (flush_entries scope (λ _. sent) es s).accepted ≡ s.accepted ++ waiting scope es
unfolding flush_entries
flush_entries-sent scope [] s = sym (append-nil s.accepted)
flush_entries-sent scope ((k, note _) ∷ es) s = flush_entries-sent scope es s
flush_entries-sent scope ((k, submission p) ∷ es) s =
    let skipped = flush_entries-sent scope es s in
    let after_sent = flush_entries-sent scope es (delivered k p s) in
    elim (Bool-cases (belongs_to_classroom_scope k scope)) [
      | inr b ↦ simp b skipped
      | inl b ↦ simp b (after_sent ∙ append_assoc s.accepted (p ∷ []) (waiting scope es))
    ]

-- Where the Host takes everything, sending the outbox hands over all submissions of the scope that
-- wait, in the order of their keys, after those it had, and none of another scope.
pub accepted-flush_current_student :
    (scope : Text) (s : State)
    → (flush_current_student scope (λ _. sent) s).accepted ≡ s.accepted ++ waiting scope s.outbox
unfolding flush_current_student
accepted-flush_current_student scope s = flush_entries-sent scope s.outbox s

-- What is under the key of the assignment after `submit`: the new work, if it was not sent for want
-- of the Host; nothing, if the Host answered.
abbrev pub left_by : Bool → Answer → SubmissionPayload → Option Entry
left_by false answer p = some (submission p)
left_by true sent p = none
left_by true broken p = none
left_by true (api_error status) p = if is_offline status then some (submission p) else none

lookup-send :
    (online : Bool) (answer : Answer) (key j : Text) (p : SubmissionPayload) (s : State)
    → lookup j (send online answer key p s).0.outbox
      ≡ (if text_eq key j then left_by online answer p else lookup j s.outbox)
unfolding send
lookup-send false answer key j p s = lookup-put key j (submission p) s.outbox
lookup-send true sent key j p s = lookup-remove key j s.outbox
lookup-send true broken key j p s = lookup-remove key j s.outbox
lookup-send true (api_error status) key j p s = elim (Bool-cases (is_offline status)) [
  | inl e ↦
      ground
        (arith, lookup-put key j (submission p) (remove key s.outbox), lookup-remove key j s.outbox)
  | inr e ↦ simp e (lookup-remove key j s.outbox)
]

-- After `submit` of work that fits, the outbox holds, under the key of its assignment, that work if
-- the app is offline or the Host could not be reached, and nothing otherwise; every other entry is
-- as before. Work that does not fit changes no entry; work that could not be prepared changes
-- nothing and fails.
pub lookup-submit :
    (online : Bool) (answer : Answer) (scope j : Text) (p : Prepared) (s : State)
    → (lookup j (submit online answer scope (some p) s).0.outbox ≡ (
        if fits p && text_eq (submission_outbox_key scope p.payload.assignment_id) j
        then left_by online answer p.payload
        else lookup j s.outbox))
      × (submit online answer scope none s ≡ (s, failed))
unfolding submit
lookup-submit online answer scope j p s = elim (Bool-cases (fits p)) [
  | inl e ↦ (simp e (lookup-send online answer _ j p.payload s), refl)
  | inr e ↦ (simp e refl, refl)
]
