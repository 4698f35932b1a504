-- ===== src/Workspace/Store.antt =====
-- The workspace on the device: the effect that saves it and `resetWorkspace` in `useForgeData`, and
-- `relativeTime`, of apps/forge/src/forgeData.ts. `JSON.stringify` is a parameter; whether a call of
-- localStorage throws is an argument.
use the_cinder_project.Base.{
  ℕ, ◌-◌, ◌/◌, Bool, true, false, Option, none, some, List, [], ◌∷◌, ◌++◌, Text, codes, text_eq,
  text_eq_iff, keep, take, any, starts_with, ltb, ◌==◌, if◌then◌else◌, ◌≡◌, refl, ◌∙◌, ap, arith,
  Bool-cases, inl, inr,
}
use the_cinder_project.Base.Dict.{
  Dict, lookup, insert, remove_all, lookup-remove_all, lookup-insert,
}
use the_cinder_project.Workspace.{ForgeData, empty_data}

abbrev pub document_key_prefix : Text → Text
document_key_prefix account = codes "cinder.matchbox." ++ (account ++ codes ".document.")

abbrev pub workspace_storage_key : Text → Text
workspace_storage_key account = codes "cinder.matchbox." ++ (account ++ codes ".workspace.v1")

-- What `useForgeData` keeps: localStorage, the data, and whether there is an error of reading or of
-- saving to show.
pub record Hook : Type 0 where
  pub disk : Dict Text
  pub workspace : ForgeData
  pub read_error : Bool
  pub save_error : Bool

abbrev pub keys_of : Dict Text → List Text
keys_of [] = []
keys_of ((key, value) ∷ disk) = key ∷ keys_of disk

module _ (stringify : ForgeData → Text) (account : Text) where
  -- The effect that saves the data.
  unfoldable pub save_effect : Bool → Hook → Hook
  unfolding insert
  save_effect writable h =
      if h.read_error
      then (record h { save_error = true })
      else if writable
      then (record h {
        disk = insert (workspace_storage_key account) (stringify h.workspace) h.disk;
        save_error = false;
      })
      else (record h { save_error = true })

  abbrev stale_keys : Dict Text → List Text
  stale_keys disk = keep (λ key. starts_with key (document_key_prefix account)) (keys_of disk)

  -- `removals` is the number of keys that are removed before a call throws.
  unfoldable pub reset_workspace : Option ℕ → Bool → Hook → Hook × Bool
  unfolding remove_all insert
  reset_workspace (some removals) writable h = (
    record h { disk = remove_all (take removals (stale_keys h.disk)) h.disk; save_error = true },
    false,
  )
  reset_workspace none false h =
      (record h { disk = remove_all (stale_keys h.disk) h.disk; save_error = true }, false)
  reset_workspace none true h = (
    record h {
      disk =
          insert (workspace_storage_key account) (stringify empty_data)
            (remove_all (stale_keys h.disk) h.disk);
      workspace = empty_data;
      read_error = false;
    },
    true,
  )

pub data Elapsed : Type 0 where
  just_now yesterday : Elapsed
  minutes_ago hours_ago days_ago : ℕ → Elapsed

relative_time : ℕ → ℕ → Elapsed
relative_time now then_ms =
    let minutes = (now - then_ms) / 60000 in
    let hours = minutes / 60 in
    let days = hours / 24 in
    if ltb minutes 1
    then just_now
    else if ltb minutes 60
    then minutes_ago minutes
    else if ltb hours 24
    then hours_ago hours
    else if days == 1
    then yesterday
    else days_ago days

lookup-insert_twice :
    (key k value : Text) (disk : Dict Text)
    → lookup k (insert key value (insert key value disk)) ≡ lookup k (insert key value disk)
lookup-insert_twice key k value disk =
    ground
      (arith, lookup-insert key k value (insert key value disk), lookup-insert key k value disk)

absent-keep :
    (k : Text) (p : Text → Bool) (keys : List Text)
    → p k ≡ false
    → any (λ j. text_eq j k) (keep p keys) ≡ false
absent-keep k p [] f = refl
absent-keep k p (j ∷ keys) f =
    let ih = absent-keep k p keys f in
    elim (Bool-cases (text_eq j k)) [
      | inl e ↦ let same : p j ≡ p k = ap p ((text_eq_iff j k).0 e) in simp (same, f) ih
      | inr e ↦ elim (Bool-cases (p j)) [ inl g ↦ simp (g, e) ih | inr g ↦ simp g ih ]
    ]

any-keep :
    (k : Text) (p : Text → Bool) (disk : Dict Text)
    → (if any (λ j. text_eq j k) (keep p (keys_of disk)) then none else lookup k disk)
      ≡ (if p k then none else lookup k disk)
unfolding lookup
any-keep k p [] = ground arith
any-keep k p ((j, v) ∷ disk) =
    let ih = any-keep k p disk in
    elim (Bool-cases (text_eq j k)) [
      | inl e ↦
          let same : p j ≡ p k = ap p ((text_eq_iff j k).0 e) in
          elim (Bool-cases (p k)) [
            | inl f ↦ simp (same, f, e) refl
            | inr f ↦ simp (same, f, e) (simp (absent-keep k p (keys_of disk) f) refl)
          ]
      | inr e ↦ elim (Bool-cases (p j)) [ inl f ↦ simp (f, e) ih | inr f ↦ simp (f, e) ih ]
    ]

module _ (stringify : ForgeData → Text) (account : Text) where
  lookup-stale :
      (k : Text) (disk : Dict Text)
      → lookup k (remove_all (stale_keys stringify account disk) disk)
        ≡ (if starts_with k (document_key_prefix account) then none else lookup k disk)
  lookup-stale k disk =
      lookup-remove_all (stale_keys stringify account disk) k disk
      ∙ any-keep k (λ key. starts_with key (document_key_prefix account)) disk

  -- Clearing everything, where no call throws, leaves the empty workspace in memory and under the
  -- key of the account, nothing under a key of its documents, and every other key as it was; the
  -- save that follows, if it succeeds, changes no key. Where the last write throws, the answer is
  -- false; where a removal throws, it is false and the workspace in memory stays.
  pub reset_workspace-lookup :
      (removals : ℕ) (writable : Bool) (k : Text) (h : Hook)
      → (lookup k (reset_workspace stringify account none true h).0.disk ≡ (
          if text_eq (workspace_storage_key account) k
          then some (stringify empty_data)
          else if starts_with k (document_key_prefix account)
          then none
          else lookup k h.disk))
        × (lookup k
              (save_effect stringify account true
                (reset_workspace stringify account none true h).0).disk
            ≡ lookup k (reset_workspace stringify account none true h).0.disk)
        × ((reset_workspace stringify account none true h).0.workspace ≡ empty_data)
        × ((reset_workspace stringify account (some removals) writable h).1 ≡ false)
        × ((reset_workspace stringify account none false h).1 ≡ false)
        × ((reset_workspace stringify account (some removals) writable h).0.workspace ≡ h.workspace)
  unfolding reset_workspace save_effect
  reset_workspace-lookup removals writable k h =
      let key = workspace_storage_key account in
      let cleared = remove_all (stale_keys stringify account h.disk) h.disk in
      let put = lookup-insert key k (stringify empty_data) cleared in
      (
        put
            ∙ ap (λ o. if text_eq key k then some (stringify empty_data) else o)
                (lookup-stale k h.disk),
        lookup-insert_twice key k (stringify empty_data) cleared,
        refl,
        refl,
        refl,
        refl,
      )
