-- ===== src/QueueStore/Acknowledgement.antt =====
-- Which rows an acknowledgement takes away.
use axeno_relay.Prelude.{
  ℕ, ◌≡◌, refl, ap, ◌∙◌, Bool, Option, none, List, [], ◌∷◌, arith, any, if◌then◌else◌, Option-cases,
  Result-cases, inl, inr, Text, text_eq, ok, DbCall, anyhow, past_call, >>=-eq-ok, db_call, ◌>>◌,
  begin_write, open_table, read_row, remove_row, commit,
}
use axeno_relay.QueueStore.{QueueApi, QueueStore, key_for}
use axeno_relay.QueueStore.Removal.{Acked, ack_row, ack_rows, ack_txn, account_ack, ack}
use axeno_relay.QueueStore.Removing.{remove_all}

module _ (api : QueueApi) where
  open api use {Uuid}
  open api.db use {Table as Envelopes, get as get_row, remove as remove_at, get-remove}

  -- Whether the key is that of one of the envelopes.
  abbrev pub is_named : Text → List Uuid → Text → Bool
  is_named mailbox ids key = any (λ id. text_eq (key_for api mailbox id) key) ids

  get-remove_named :
      (mailbox : Text) (ids : List Uuid) (db : Envelopes) (key : Text)
      → get_row (remove_all api mailbox ids db) key
        ≡ (if is_named mailbox ids key then none else get_row db key)
  unfolding remove_all
  get-remove_named mailbox [] db key = refl
  get-remove_named mailbox (id ∷ ids) db key =
      let rest = get-remove_named mailbox ids (remove_at db (key_for api mailbox id)) key in
      let here = get-remove db (key_for api mailbox id) key in ground (arith, rest, here)

  ack_row-db : (acc : Acked api) (key : Text) → (ack_row api acc key).db ≡ remove_at acc.db key
  unfolding ack_row
  ack_row-db acc key = elim (Option-cases (get_row acc.db key)) [
    | inl e ↦ rw (e, ack_row) refl
    | inr (b, e) ↦ rw (e, ack_row) refl
  ]

  ack_rows-db :
      (fault : Option DbCall) (mailbox : Text) (ids : List Uuid) (acc acked : Acked api)
      → ack_rows api fault mailbox ids acc ≡ ok acked
      → acked.db ≡ remove_all api mailbox ids acc.db
  unfolding ack_rows remove_all
  ack_rows-db fault mailbox [] acc acked h = ground (arith, h)
  ack_rows-db fault mailbox (id ∷ ids) acc acked h =
      let (u, both, h1) =
        >>=-eq-ok (db_call fault anyhow read_row >> db_call fault anyhow remove_row) _ h in
      ack_rows-db fault mailbox ids (ack_row api acc (key_for api mailbox id)) acked h1
      ∙ ap (remove_all api mailbox ids) (ack_row-db acc (key_for api mailbox id))

  ack_txn-db :
      (fault : Option DbCall) (mailbox : Text) (ids : List Uuid) (db : Envelopes)
      (acked : Acked api)
      → ack_txn api fault mailbox ids db ≡ ok acked
      → acked.db ≡ remove_all api mailbox ids db
  unfolding ack_txn
  ack_txn-db fault mailbox ids db acked h =
      let h1 = past_call fault anyhow open_table _ (past_call fault anyhow begin_write _ h) in
      let (a, rows, h2) = >>=-eq-ok (ack_rows api fault mailbox ids _) _ h1 in
      let h3 = past_call fault anyhow commit _ h2 in
      let same : a ≡ acked = ground (arith, h3) in
      rw (← same) (ack_rows-db fault mailbox ids _ a rows)

  acked-row :
      (fault : Option DbCall) (mailbox : Text) (ids : List Uuid) (s : QueueStore api) (count : ℕ)
      → (ack api fault mailbox ids s).0 ≡ ok count
      → (ack api fault mailbox ids s).1.db ≡ remove_all api mailbox ids s.db
  unfolding ack account_ack remove_all
  acked-row fault mailbox [] s count = λ h. refl
  acked-row fault mailbox (id ∷ ids) s count =
      elim (Result-cases (ack_txn api fault mailbox (id ∷ ids) s.db)) [
        | inl (e, failed) ↦ rw (failed, ack) (λ h. absurd cc)
        | inr (acked, done) ↦
            rw (done, ack) (λ h. ack_txn-db fault mailbox (id ∷ ids) s.db acked done)
      ]

  -- A successful acknowledgement removes the rows of exactly the named envelopes of the mailbox.
  pub ack-rows :
      (fault : Option DbCall) (mailbox : Text) (ids : List Uuid) (s : QueueStore api) (count : ℕ)
      → (ack api fault mailbox ids s).0 ≡ ok count
      → (key : Text)
      → get_row (ack api fault mailbox ids s).1.db key
        ≡ (if is_named mailbox ids key then none else get_row s.db key)
  ack-rows fault mailbox ids s count done key =
      ap (λ d. get_row d key) (acked-row fault mailbox ids s count done)
      ∙ get-remove_named mailbox ids s.db key
