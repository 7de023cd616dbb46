-- ===== src/QueueStore/Planning.antt =====
-- What `enqueue` decides before it touches the counters: the envelopes that go, and the rows that it
-- commits.
use axeno_relay.QueueStore.Removing.{remove_all, remove_ids-eq_ok}
use axeno_relay.Prelude.{
  begin_write, open_table, insert_row, commit, past_call, >>=-eq-ok, anyhow, ap, ◌∙◌, some, ℕ, ◌+◌,
  ◌<◌, ◌≤◌, ◌≡◌, refl, sym, false, Option, List, [], arith, Bool-cases, inl, inr, length, Text,
  IsFreeOf, u64_mod, ok, DbCall, sum_by, sum_by-one, sum_by-le, wrap_add-eq_of_lt, Bytes, take,
}
use axeno_relay.Table.{total}
use axeno_relay.Protocol.{StoredEnvelope}
use axeno_relay.QueueStore.{
  remove_ids, write_envelope, enqueue_plan, key_for, or_anyhow, QueueApi, QueueStore, StoredValue,
  mailbox_rows, read_mailbox, choose_evicted, needs_eviction, evict_loop, sum_bytes, index_of,
}
use axeno_relay.QueueStore.Invariant.{IsConsistent, weigh, weigh_in, one, cipher_bytes, is_in}
use axeno_relay.QueueStore.Sorting.{Entry}
use axeno_relay.QueueStore.Reading.{sum_by-mailbox_rows}
use axeno_relay.QueueStore.Eviction.{Evicts, entry_bytes, evict_loop-Evicts, sum_bytes_lem}

module _ (api : QueueApi) where
  open api use {Uuid, to_vec}
  open api.db use {Table as Envelopes, insert as insert_at}

  -- No counter is at the end of its 64 bits.
  pub record Fits (s : QueueStore api) (incoming : ℕ) : Type 0 where
    pub bytes : total api.db (weigh api cipher_bytes) s.db + incoming < u64_mod
    pub rows : total api.db (weigh api one) s.db + 1 < u64_mod
    pub seqs : s.next_seq + 1 < u64_mod

  weigh_in-le-weigh :
      (mailbox : Text) (f : StoredValue → ℕ) (e : Text × Bytes)
      → weigh_in api mailbox f e ≤ weigh api f e
  unfolding weigh_in weigh
  weigh_in-le-weigh mailbox f (k, b) = elim (Bool-cases (is_in api mailbox (k, b))) [
    | inl e ↦ rw e (omega arith)
    | inr e ↦ rw e (omega arith)
  ]

  pub total-weigh_in-le :
      (mailbox : Text) (f : StoredValue → ℕ) (db : Envelopes)
      → total api.db (weigh_in api mailbox f) db ≤ total api.db (weigh api f) db
  unfolding total
  total-weigh_in-le mailbox f db = sum_by-le _ _ _ (weigh_in-le-weigh mailbox f)

  module _ (s : QueueStore api) (v : IsConsistent api s) (mailbox : Text)
      (free : IsFreeOf b':' mailbox) where
    abbrev queued : List (Entry api)
    queued = mailbox_rows api s.db mailbox

    -- The index has the number and the bytes of the envelopes that a read returns.
    pub length-queued : length queued ≡ total api.db (weigh_in api mailbox one) s.db
    length-queued =
        sym (sum_by-one queued) ∙ sum_by-mailbox_rows api mailbox free s.next_seq s.db one v.rows

    pub entry_bytes-queued :
        entry_bytes api queued ≡ total api.db (weigh_in api mailbox cipher_bytes) s.db
    entry_bytes-queued = sum_by-mailbox_rows api mailbox free s.next_seq s.db cipher_bytes v.rows

    module _ (incoming : ℕ) (fits : Fits s incoming) where
      in_index_fits :
          (total api.db (weigh_in api mailbox cipher_bytes) s.db + incoming < u64_mod)
          × (total api.db (weigh_in api mailbox one) s.db + 1 < u64_mod)
      in_index_fits =
          let b = total-weigh_in-le mailbox cipher_bytes s.db in
          let c = total-weigh_in-le mailbox one s.db in
          (omega (arith, fits.bytes), omega (arith, fits.rows))

      none_evicted :
          needs_eviction api s mailbox incoming ≡ false → Evicts api incoming 0 queued ([], 0)
      none_evicted e =
          let (b, c) = in_index_fits in
          let counts = v.counts mailbox in
          let bytes = v.bytes mailbox in
          let wc = wrap_add-eq_of_lt (index_of api s.index mailbox).0 1 (omega arith) in
          let wb = wrap_add-eq_of_lt (index_of api s.index mailbox).1 incoming (omega arith) in
          let lc = length-queued in
          let lb = entry_bytes-queued in
          record {
            n = 0;
            within = omega arith;
            ids = unfold take in refl;
            freed = unfold take sum_by in omega arith;
            room = inr (record {
              count = ground (arith, counts, wc, lc);
              bytes = ground (arith, bytes, wb, lb);
            });
            needed = λ k h. absurd (omega arith);
          }

      -- The choice by the index is the eviction that the rows call for.
      pub choose_evicted-Evicts :
          (fault : Option DbCall) {r : List Uuid × ℕ}
          → choose_evicted api fault s mailbox incoming ≡ ok r
          → Evicts api incoming 0 queued r
      unfolding choose_evicted read_mailbox
      choose_evicted-Evicts fault {r} h =
          elim (Bool-cases (needs_eviction api s mailbox incoming)) [
            | inr e ↦ let same : r ≡ ([], 0) = ground arith in rw same (none_evicted e)
            | inl e ↦
                let (b, c) = in_index_fits in
                let lc = length-queued in
                let lb = entry_bytes-queued in
                let sb = sum_bytes_lem api queued (omega arith) in
                let same : evict_loop api incoming (length queued) (sum_bytes api queued) 0 queued
                    ≡ r =
                  ground arith in
                rw (← same) (
                  evict_loop-Evicts api incoming (length queued) (sum_bytes api queued) 0 queued
                    refl sb (omega arith) (omega arith) (omega arith))
          ]

  -- What a plan that succeeds consists of.
  pub record Planned (s : QueueStore api) (mailbox : Text) (env : StoredEnvelope Uuid) (now : ℕ)
      (ids : List Uuid) (freed : ℕ) (db : Envelopes) : Type 0 where
    pub bytes : Bytes
    pub encoded :
        to_vec (record { t = env.envelope_type; c = env.ciphertext; q = now; s = s.next_seq })
        ≡ some bytes
    pub chosen : Evicts api (length env.ciphertext) 0 (mailbox_rows api s.db mailbox) (ids, freed)
    pub rows : db ≡ insert_at (remove_all api mailbox ids s.db) (key_for api mailbox env.id) bytes

  write_envelope-eq_ok :
      (fault : Option DbCall) (mailbox : Text) (ids : List Uuid) (id : Uuid) (bytes : Bytes)
      (db : Envelopes) {db' : Envelopes}
      → write_envelope api fault mailbox ids id bytes db ≡ ok db'
      → db' ≡ insert_at (remove_all api mailbox ids db) (key_for api mailbox id) bytes
  unfolding write_envelope
  write_envelope-eq_ok fault mailbox ids id bytes db {db'} h =
      let h1 = past_call fault anyhow begin_write _ h in
      let h2 = past_call fault anyhow open_table _ h1 in
      let (db1, removed, h3) = >>=-eq-ok (remove_ids api fault mailbox ids db) _ h2 in
      let h4 = past_call fault anyhow insert_row _ h3 in
      let h5 = past_call fault anyhow commit _ h4 in
      let e = remove_ids-eq_ok api fault mailbox ids db removed in rw (← e) (ground arith)

  pub enqueue_plan-Planned :
      (fault : Option DbCall) (now : ℕ) (mailbox : Text) (env : StoredEnvelope Uuid)
      (s : QueueStore api) (v : IsConsistent api s) (free : IsFreeOf b':' mailbox)
      → Fits s (length env.ciphertext)
      → {ids : List Uuid} {freed : ℕ} {db : Envelopes}
      → enqueue_plan api fault now mailbox env s ≡ ok (ids, freed, db)
      → Planned s mailbox env now ids freed db
  unfolding enqueue_plan
  enqueue_plan-Planned fault now mailbox env s v free fits {ids} {freed} {db} h =
      let (bytes, encoded, h1) = >>=-eq-ok (or_anyhow api (to_vec _)) _ h in
      let (r, chosen, h2) =
        >>=-eq-ok (choose_evicted api fault s mailbox (length env.ciphertext)) _ h1 in
      let (db', written, h3) =
        >>=-eq-ok (write_envelope api fault mailbox r.0 env.id bytes s.db) _ h2 in
      let same_ids : r.0 ≡ ids = ground arith in
      let same_freed : r.1 ≡ freed = ground arith in
      let same_db : db' ≡ db = ground arith in
      record {
        bytes = bytes;
        encoded = ground arith;
        chosen =
            rw (← same_ids, ← same_freed)
              (choose_evicted-Evicts s v mailbox free (length env.ciphertext) fits fault chosen);
        rows =
            sym same_db
            ∙ write_envelope-eq_ok fault mailbox r.0 env.id bytes s.db written
            ∙ ap (λ i. insert_at (remove_all api mailbox i s.db) (key_for api mailbox env.id) bytes)
                same_ids;
      }
