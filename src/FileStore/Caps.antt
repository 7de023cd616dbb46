-- ===== src/FileStore/Caps.antt =====
-- The operator's caps on the number of transfers and on their bytes hold after every upload.
use axeno_relay.Prelude.{
  ℕ, ◌-◌, ◌<◌, ◌≡◌, ap, Bool, true, false, not, ◌||◌, Option, none, some, arith, ltb, leb, ◌==◌,
  length, Bool-cases, Option-cases, Result-cases, inl, inr, Bytes, Text, Result, ok, err, DbCall,
  wrap_add, saturating_add, saturating_sub_lem, wrap_add-eq_of_lt, >>=-eq-ok, past_call, insert_row,
  commit, ok_or,
}
use axeno_relay.Table.{TableApi}
use axeno_relay.FileStore.{
  FileApi, FileStore, FileMeta, FileReject, full, StoredChunk, reserve_slot, try_reserve_bytes,
  release_bytes, plan_chunk, reserve_growth, release_shrink, commit_chunk, mirror, write_chunk,
}
use axeno_relay.FileStore.Lifetime.{
  claim, settle_creation, create_transfer, check_shape, store_chunk,
}
use axeno_relay.FileStore.Failure.{IsCapped, IsUnchanged, write_chunk-err, create_transfer-err}

module _ (api : FileApi) where
  IsCapped-of_unchanged :
      (s s' : FileStore api) → IsCapped api s → IsUnchanged api s s' → IsCapped api s'
  IsCapped-of_unchanged s s' v u =
      let max_bytes = ap (λ c. c.max_total_file_bytes) u.config in
      let max_count = ap (λ c. c.max_transfers) u.config in
      record {
        reserved = omega (arith, v.reserved, u.reserved);
        total = omega (arith, v.total);
        count = omega (arith, v.count, u.count);
        transfers = omega (arith, v.transfers);
      }

  reserve_growth-IsCapped :
      (prev data_len : ℕ) (s reserved : FileStore api)
      → IsCapped api s
      → reserve_growth api prev data_len s ≡ some reserved
      → IsCapped api reserved
  unfolding reserve_growth try_reserve_bytes
  reserve_growth-IsCapped prev data_len s reserved v = elim (Bool-cases (ltb prev data_len)) [
    | inr e ↦ rw e (λ h. let same : s ≡ reserved = ground (arith, h) in rw (← same) v)
    | inl e ↦
        rw e
          (elim (Bool-cases (
            ltb s.config.max_total_file_bytes
              (saturating_add s.reserved_bytes (data_len - prev)))) [
                | inl over ↦ rw over (λ h. absurd cc)
                | inr within ↦ rw within (λ h.
                    let same : record s {
                      reserved_bytes = saturating_add s.reserved_bytes (data_len - prev);
                    }
                        ≡ reserved =
                      ground (arith, h) in
                    rw (← same) (record {
                      reserved = ground arith;
                      total = v.total;
                      count = v.count;
                      transfers = v.transfers;
                    }))
              ])
  ]

  commit_chunk-IsCapped :
      (fault : Option DbCall) (transfer_id : Text) (chunk_index : ℕ) (chunk : Bytes)
      (meta : FileMeta) (s written : FileStore api)
      → IsCapped api s
      → commit_chunk api fault transfer_id chunk_index chunk meta s ≡ ok written
      → IsCapped api written
  unfolding commit_chunk
  commit_chunk-IsCapped fault transfer_id chunk_index chunk meta s written v h =
      let h1 = past_call fault full insert_row _ h in
      let (b, encoded, h2) = >>=-eq-ok (ok_or (api.to_vec meta) full) _ h1 in
      let h3 = past_call fault full commit _ h2 in
      let same_bytes : s.reserved_bytes ≡ written.reserved_bytes = ground (arith, h3) in
      let same_count : s.transfer_count ≡ written.transfer_count = ground (arith, h3) in
      let same_config : s.config ≡ written.config = ground (arith, h3) in
      let max_bytes = ap (λ c. c.max_total_file_bytes) same_config in
      let max_count = ap (λ c. c.max_transfers) same_config in
      record {
        reserved = omega (arith, v.reserved);
        total = omega (arith, v.total);
        count = omega (arith, v.count);
        transfers = omega (arith, v.transfers);
      }

  release_shrink-IsCapped :
      (prev data_len : ℕ) (s : FileStore api)
      → IsCapped api s
      → IsCapped api (release_shrink api prev data_len s)
  unfolding release_shrink release_bytes
  release_shrink-IsCapped prev data_len s v = elim (Bool-cases (ltb data_len prev)) [
    | inr e ↦ rw e v
    | inl e ↦
        let less = saturating_sub_lem s.reserved_bytes (prev - data_len) in
        rw e (record {
          reserved = omega (arith, v.reserved);
          total = v.total;
          count = v.count;
          transfers = v.transfers;
        })
  ]

  mirror-IsCapped :
      (transfer_id : Text) (total_chunks total_bytes : ℕ) (meta : FileMeta) (s : FileStore api)
      → IsCapped api s
      → IsCapped api (mirror api transfer_id total_chunks total_bytes meta s)
  unfolding mirror
  mirror-IsCapped transfer_id total_chunks total_bytes meta s v = record {
    reserved = v.reserved;
    total = v.total;
    count = v.count;
    transfers = v.transfers;
  }

  written-IsCapped :
      (fault : Option DbCall) (now : ℕ) (transfer_id : Text)
      (chunk_index total_chunks total_bytes : ℕ) (chunk : Bytes) (creating : Bool)
      (s : FileStore api) (r : StoredChunk)
      → IsCapped api s
      → (write_chunk api fault now transfer_id chunk_index total_chunks total_bytes chunk creating
          s).0
        ≡ ok r
      → IsCapped api
          (write_chunk api fault now transfer_id chunk_index total_chunks total_bytes chunk creating
            s).1
  unfolding write_chunk
  written-IsCapped fault now transfer_id chunk_index total_chunks total_bytes chunk creating s r v =
      elim (Result-cases (
        plan_chunk api fault now transfer_id chunk_index total_chunks total_bytes (length chunk)
          creating s)) [
            | inl (x, refused) ↦ rw (refused, write_chunk) (λ h. absurd cc)
            | inr ((meta, prev), planned) ↦
                rw (planned, write_chunk)
                  (elim (Option-cases (reserve_growth api prev (length chunk) s)) [
                    | inl over ↦ rw over (λ h. absurd cc)
                    | inr (reserved, grown) ↦
                        rw grown
                          (elim (Result-cases
                            (commit_chunk api fault transfer_id chunk_index chunk meta reserved)) [
                              | inl (x, aborted) ↦ rw aborted (λ h. absurd cc)
                              | inr (written, committed) ↦ rw committed (λ h.
                                  mirror-IsCapped transfer_id total_chunks total_bytes meta _ (
                                    release_shrink-IsCapped prev (length chunk) written (
                                      commit_chunk-IsCapped fault transfer_id chunk_index chunk meta
                                        reserved written
                                        (reserve_growth-IsCapped prev (length chunk) s reserved v
                                          grown)
                                        committed)))
                            ])
                  ])
          ]

  write_chunk-IsCapped :
      (fault : Option DbCall) (now : ℕ) (transfer_id : Text)
      (chunk_index total_chunks total_bytes : ℕ) (chunk : Bytes) (creating : Bool)
      (s : FileStore api)
      → IsCapped api s
      → IsCapped api
          (write_chunk api fault now transfer_id chunk_index total_chunks total_bytes chunk creating
            s).1
  write_chunk-IsCapped fault now transfer_id chunk_index total_chunks total_bytes chunk creating s
        v =
      elim (Result-cases
        (write_chunk api fault now transfer_id chunk_index total_chunks total_bytes chunk creating
          s).0) [
            | inl (e, failed) ↦
                rw
                  (write_chunk-err api fault now transfer_id chunk_index total_chunks total_bytes
                    chunk creating s v.total failed)
                  v
            | inr (r, done) ↦
                written-IsCapped fault now transfer_id chunk_index total_chunks total_bytes chunk
                  creating s r v done
          ]

  slotted-IsCapped :
      (s slotted : FileStore api)
      → IsCapped api s
      → reserve_slot api s ≡ some slotted
      → IsCapped api slotted
  unfolding reserve_slot
  slotted-IsCapped s slotted v = elim (Bool-cases (leb s.config.max_transfers s.transfer_count)) [
    | inl over ↦ rw over (λ h. absurd cc)
    | inr within ↦ rw within (λ h.
        let same : record s { transfer_count = wrap_add s.transfer_count 1 } ≡ slotted =
          ground (arith, h) in
        let top = v.transfers in
        let room : s.transfer_count < s.config.max_transfers = ground arith in
        let up = wrap_add-eq_of_lt s.transfer_count 1 (omega arith) in
        rw (← same) (record {
          reserved = v.reserved;
          total = v.total;
          count = omega arith;
          transfers = v.transfers;
        }))
  ]

  claim-IsCapped :
      (now : ℕ) (transfer_id : Text) (total_chunks total_bytes : ℕ) (s : FileStore api)
      → IsCapped api s
      → IsCapped api (claim api now transfer_id total_chunks total_bytes s)
  claim-IsCapped now transfer_id total_chunks total_bytes s v = record {
    reserved = v.reserved;
    total = v.total;
    count = v.count;
    transfers = v.transfers;
  }

  settled-IsCapped :
      (transfer_id : Text) (w : Result FileReject StoredChunk × FileStore api) {r : StoredChunk}
      → IsCapped api w.1
      → (settle_creation api transfer_id w).0 ≡ ok r
      → IsCapped api (settle_creation api transfer_id w).1
  settled-IsCapped transfer_id (ok stored, s) v h = v
  settled-IsCapped transfer_id (err e, s) v h = absurd cc

  created-IsCapped :
      (fault : Option DbCall) (claim_now write_now : ℕ) (transfer_id : Text)
      (total_chunks total_bytes : ℕ) (chunk : Bytes) (s : FileStore api) (r : StoredChunk)
      → IsCapped api s
      → (create_transfer api fault claim_now write_now transfer_id total_chunks total_bytes chunk
          s).0
        ≡ ok r
      → IsCapped api
          (create_transfer api fault claim_now write_now transfer_id total_chunks total_bytes chunk
            s).1
  unfolding create_transfer
  created-IsCapped fault claim_now write_now transfer_id total_chunks total_bytes chunk s r v =
      let claimed_store = claim api claim_now transfer_id total_chunks total_bytes s in
      elim (Option-cases (reserve_slot api claimed_store)) [
        | inl over ↦ rw (over, create_transfer) (λ h. absurd cc)
        | inr (slotted, slot) ↦
            rw (slot, create_transfer)
              (settled-IsCapped transfer_id _ (
                write_chunk-IsCapped fault write_now transfer_id 0 total_chunks total_bytes chunk
                  true slotted
                  (slotted-IsCapped claimed_store slotted
                    (claim-IsCapped claim_now transfer_id total_chunks total_bytes s v) slot)))
      ]

  create_transfer-IsCapped :
      (fault : Option DbCall) (claim_now write_now : ℕ) (transfer_id : Text)
      (total_chunks total_bytes : ℕ) (chunk : Bytes) (s : FileStore api)
      → IsCapped api s
      → TableApi.get api.meta s.meta transfer_id ≡ none
      → IsCapped api
          (create_transfer api fault claim_now write_now transfer_id total_chunks total_bytes chunk
            s).1
  create_transfer-IsCapped fault claim_now write_now transfer_id total_chunks total_bytes chunk s v
        free =
      elim (Result-cases
        (create_transfer api fault claim_now write_now transfer_id total_chunks total_bytes chunk
          s).0) [
            | inl (e, failed) ↦ IsCapped-of_unchanged s _ v (
                create_transfer-err api fault claim_now write_now transfer_id total_chunks
                  total_bytes chunk s v free failed)
            | inr (r, done) ↦
                created-IsCapped fault claim_now write_now transfer_id total_chunks total_bytes
                  chunk s r v done
          ]

  -- Where the two counters are within the operator's caps, and the caps below the end of 64 bits, an
  -- upload keeps them so, whether it succeeds, is rejected, or fails at any database call.
  pub store_chunk-IsCapped :
      (fault : Option DbCall) (claim_now write_now : ℕ) (transfer_id : Text)
      (chunk_index total_chunks total_bytes : ℕ) (chunk : Bytes) (s : FileStore api)
      → IsCapped api s
      → IsCapped api
          (store_chunk api fault claim_now write_now transfer_id chunk_index total_chunks
            total_bytes chunk s).1
  unfolding store_chunk
  store_chunk-IsCapped fault claim_now write_now transfer_id chunk_index total_chunks total_bytes
        chunk s v =
      elim (Option-cases (check_shape api chunk_index total_chunks total_bytes chunk s.config)) [
        | inr (r, bad) ↦ rw (bad, store_chunk) v
        | inl good ↦
            rw (good, store_chunk)
              (elim (Option-cases (TableApi.get api.meta s.meta transfer_id)) [
                | inr (m, known) ↦
                    rw known
                      (elim (Bool-cases (
                        not (m.total_chunks == total_chunks)
                        || not (m.total_bytes == total_bytes))) [
                          | inl other ↦ rw other v
                          | inr agreed ↦ rw agreed (
                              write_chunk-IsCapped fault write_now transfer_id chunk_index
                                total_chunks total_bytes chunk false s v)
                        ])
                | inl free ↦ rw free (elim (Bool-cases (not (chunk_index == 0))) [
                  | inl later ↦ rw later v
                  | inr first ↦ rw first (
                      create_transfer-IsCapped fault claim_now write_now transfer_id total_chunks
                        total_bytes chunk s v free)
                ])
              ])
      ]
