-- ===== src/FileStore/Accounting.antt =====
-- The two counters of the file store are in step with what it holds.
use axeno_relay.Prelude.{
  ℕ, ◌+◌, ◌-◌, ◌≤◌, ◌<◌, ◌≡◌, refl, sym, ap, ◌∙◌, Bool, true, false, not, ◌||◌, Option, none, some,
  arith, ltb, leb, ◌==◌, length, Bool-cases, Option-cases, Result-cases, inl, inr, Bytes, Text,
  text_eq_refl, Result, ok, err, DbCall, u64_mod, wrap_add, saturating_add, saturating_sub,
  wrap_add-eq_of_lt, >>=-eq-ok, past_call, insert_row, begin_write, open_table, read_row, commit,
  ok_or,
}
use axeno_relay.Table.{TableApi, total, total-insert, share, sum_by-SameEntries}
use axeno_relay.FileStore.{
  FileApi, FileStore, current_meta, new_meta, FileMeta, FileReject, full, StoredChunk, chunk_key,
  chunk_length, prev_len, reserve_slot, try_reserve_bytes, release_bytes, plan_chunk,
  reserve_growth, release_shrink, commit_chunk, mirror, write_chunk,
}
use axeno_relay.FileStore.Lifetime.{
  claim, settle_creation, create_transfer, check_shape, store_chunk,
}
use axeno_relay.FileStore.Failure.{IsCapped, IsUnchanged, write_chunk-err, create_transfer-err}
use axeno_relay.FileStore.Caps.{store_chunk-IsCapped}

-- The bytes of a stored chunk, and one for each cached transfer.
abbrev pub chunk_bytes : Text × Bytes → ℕ
chunk_bytes (key, chunk) = length chunk

abbrev pub each : Text × FileMeta → ℕ
each e = 1

module _ (api : FileApi) where
  -- The reserved bytes are those of the stored chunks, and the count is that of the transfers.
  pub record IsAccounted (s : FileStore api) : Type 0 where
    pub bytes : s.reserved_bytes ≡ total api.file_chunks chunk_bytes s.file_chunks
    pub transfers : s.transfer_count ≡ total api.meta each s.meta

  total-same :
      (t t' : TableApi.Table api.meta)
      → ((id : Text) → TableApi.get api.meta t' id ≡ TableApi.get api.meta t id)
      → total api.meta each t' ≡ total api.meta each t
  unfolding total
  total-same t t' same =
      sum_by-SameEntries each (TableApi.entries api.meta t') (TableApi.entries api.meta t)
        (TableApi.entries-Distinct api.meta t') (TableApi.entries-Distinct api.meta t)
        (λ id.
          TableApi.lookup-entries api.meta t' id
          ∙ same id
          ∙ sym (TableApi.lookup-entries api.meta t id))

  pub IsAccounted-of_unchanged :
      (s s' : FileStore api) → IsAccounted s → IsUnchanged api s s' → IsAccounted s'
  IsAccounted-of_unchanged s s' a u = record {
    bytes = u.reserved ∙ a.bytes ∙ ap (total api.file_chunks chunk_bytes) (sym u.file_chunks);
    transfers = u.count ∙ a.transfers ∙ sym (total-same s.meta s'.meta u.cached);
  }

  share-chunk : (k : Text) (o : Option Bytes) → share chunk_bytes k o ≡ chunk_length api o
  share-chunk k none = refl
  share-chunk k (some b) = refl

  -- A chunk that replaces one of `prev` bytes.
  total-chunk :
      (s : FileStore api) (transfer_id : Text) (chunk_index : ℕ) (chunk : Bytes)
      → total api.file_chunks chunk_bytes (
            TableApi.insert api.file_chunks s.file_chunks (chunk_key transfer_id chunk_index) chunk)
          + prev_len api transfer_id chunk_index s
        ≡ total api.file_chunks chunk_bytes s.file_chunks + length chunk
  unfolding prev_len
  total-chunk s transfer_id chunk_index chunk =
      let key = chunk_key transfer_id chunk_index in
      let moved = total-insert api.file_chunks chunk_bytes s.file_chunks key chunk in
      let old = share-chunk key (TableApi.get api.file_chunks s.file_chunks key) in omega arith

  -- The counters around the write of a chunk, from the reservation to the release.
  record IsReserved (s : FileStore api) (prev data_len : ℕ) (reserved : FileStore api)
      : Type 0 where
    bytes : reserved.reserved_bytes ≡ s.reserved_bytes + (data_len - prev)
    chunks : reserved.file_chunks ≡ s.file_chunks
    cache : reserved.meta ≡ s.meta
    count : reserved.transfer_count ≡ s.transfer_count

  reserve_growth-IsReserved :
      (prev data_len : ℕ) (s reserved : FileStore api)
      → IsCapped api s
      → reserve_growth api prev data_len s ≡ some reserved
      → IsReserved s prev data_len reserved
  unfolding reserve_growth try_reserve_bytes saturating_add
  reserve_growth-IsReserved prev data_len s reserved v = elim (Bool-cases (ltb prev data_len)) [
    | inr e ↦ rw e (λ h.
        let same : s ≡ reserved = ground (arith, h) in
        let no_growth : data_len ≤ prev = ground (arith, e) in
        rw (← same) (record { bytes = omega arith; chunks = refl; cache = refl; count = refl }))
    | inl e ↦
        rw e
          (elim (Bool-cases (
            ltb s.config.max_total_file_bytes
              (saturating_add s.reserved_bytes (data_len - prev)))) [
                | inl over ↦ rw over (λ h. absurd cc)
                | inr within ↦ rw within (λ h.
                    let same : record s {
                      reserved_bytes = saturating_add s.reserved_bytes (data_len - prev);
                    }
                        ≡ reserved =
                      ground (arith, h) in
                    let room : saturating_add s.reserved_bytes (data_len - prev)
                        ≤ s.config.max_total_file_bytes =
                      ground (arith, within) in
                    let top = v.total in
                    rw (← same)
                      (record { bytes = omega arith; chunks = refl; cache = refl; count = refl }))
              ])
  ]

  plan_chunk-prev_len :
      (fault : Option DbCall) (now : ℕ) (transfer_id : Text)
      (chunk_index total_chunks total_bytes data_len : ℕ) (creating : Bool) (s : FileStore api)
      (meta : FileMeta) (prev : ℕ)
      → plan_chunk api fault now transfer_id chunk_index total_chunks total_bytes data_len creating
          s
        ≡ ok (meta, prev)
      → prev ≡ prev_len api transfer_id chunk_index s
  unfolding plan_chunk
  plan_chunk-prev_len fault now transfer_id chunk_index total_chunks total_bytes data_len creating s
        meta prev h =
      let h1 = past_call fault full open_table _ (past_call fault full begin_write _ h) in
      let (m, current, h2) =
        >>=-eq-ok (current_meta api fault now transfer_id total_chunks total_bytes creating s) _
          h1 in
      let h3 = past_call fault full read_row _ h2 in ground (arith, h3)

  -- A transfer that is listed stays the one that it is.
  total-listed :
      (t : TableApi.Table api.meta) (id : Text) (m m' : FileMeta)
      → TableApi.get api.meta t id ≡ some m
      → total api.meta each (TableApi.insert api.meta t id m') ≡ total api.meta each t
  total-listed t id m m' listed =
      let moved = total-insert api.meta each t id m' in
      let old = ap (share each id) listed in omega arith

  mirror-transfers :
      (transfer_id : Text) (total_chunks total_bytes : ℕ) (meta m : FileMeta) (s : FileStore api)
      → TableApi.get api.meta s.meta transfer_id ≡ some m
      → total api.meta each (mirror api transfer_id total_chunks total_bytes meta s).meta
        ≡ total api.meta each s.meta
  unfolding mirror
  mirror-transfers transfer_id total_chunks total_bytes meta m s listed =
      total-listed s.meta transfer_id m _ listed

  record IsCommitted (reserved : FileStore api) (transfer_id : Text) (chunk_index : ℕ)
      (chunk : Bytes) (written : FileStore api) : Type 0 where
    bytes : written.reserved_bytes ≡ reserved.reserved_bytes
    chunks :
        written.file_chunks
        ≡ TableApi.insert api.file_chunks reserved.file_chunks
            (chunk_key transfer_id chunk_index)
            chunk
    cache : written.meta ≡ reserved.meta
    count : written.transfer_count ≡ reserved.transfer_count

  commit_chunk-IsCommitted :
      (fault : Option DbCall) (transfer_id : Text) (chunk_index : ℕ) (chunk : Bytes)
      (meta : FileMeta) (s written : FileStore api)
      → commit_chunk api fault transfer_id chunk_index chunk meta s ≡ ok written
      → IsCommitted s transfer_id chunk_index chunk written
  unfolding commit_chunk
  commit_chunk-IsCommitted fault transfer_id chunk_index chunk meta s written h =
      let h1 = past_call fault full insert_row _ h in
      let (b, encoded, h2) = >>=-eq-ok (ok_or (api.to_vec meta) full) _ h1 in
      let h3 = past_call fault full commit _ h2 in
      record {
        bytes = ground (arith, h3);
        chunks = ground (arith, h3);
        cache = ground (arith, h3);
        count = ground (arith, h3);
      }

  released-bytes :
      (prev data_len : ℕ) (s : FileStore api)
      → (release_shrink api prev data_len s).reserved_bytes ≡ s.reserved_bytes - (prev - data_len)
  unfolding release_shrink release_bytes saturating_sub
  released-bytes prev data_len s = elim (Bool-cases (ltb data_len prev)) [
    | inl e ↦ rw e refl
    | inr e ↦ let no_shrink : prev ≤ data_len = ground (arith, e) in rw e (omega arith)
  ]

  released-rest :
      (prev data_len : ℕ) (s : FileStore api)
      → ((release_shrink api prev data_len s).file_chunks ≡ s.file_chunks)
        × ((release_shrink api prev data_len s).meta ≡ s.meta)
        × ((release_shrink api prev data_len s).transfer_count ≡ s.transfer_count)
  unfolding release_shrink release_bytes
  released-rest prev data_len s = elim (Bool-cases (ltb data_len prev)) [
    | inl e ↦ rw e (refl, refl, refl)
    | inr e ↦ rw e (refl, refl, refl)
  ]

  -- The store after a committed write: what was reserved is what the new chunk adds.
  mirrored-IsAccounted :
      (transfer_id : Text) (chunk_index total_chunks total_bytes : ℕ) (chunk : Bytes)
      (meta m : FileMeta) (prev : ℕ) (s reserved written : FileStore api)
      → IsAccounted s
      → prev ≡ prev_len api transfer_id chunk_index s
      → TableApi.get api.meta s.meta transfer_id ≡ some m
      → IsReserved s prev (length chunk) reserved
      → IsCommitted reserved transfer_id chunk_index chunk written
      → IsAccounted (
          mirror api transfer_id total_chunks total_bytes meta
            (release_shrink api prev (length chunk) written))
  unfolding mirror
  mirrored-IsAccounted transfer_id chunk_index total_chunks total_bytes chunk meta m prev s reserved
        written a same listed r c =
      let released = release_shrink api prev (length chunk) written in
      let (same_chunks, same_cache, same_count) = released-rest prev (length chunk) written in
      let cache : released.meta ≡ s.meta = same_cache ∙ c.cache ∙ r.cache in
      let listed' : TableApi.get api.meta released.meta transfer_id ≡ some m =
        ap (λ t. TableApi.get api.meta t transfer_id) cache ∙ listed in
      let rows : total api.file_chunks chunk_bytes released.file_chunks
          ≡ total api.file_chunks chunk_bytes (
              TableApi.insert api.file_chunks s.file_chunks (chunk_key transfer_id chunk_index)
                chunk) =
        ap (total api.file_chunks chunk_bytes) (
          same_chunks
          ∙ c.chunks
          ∙ ap (λ t. TableApi.insert api.file_chunks t (chunk_key transfer_id chunk_index) chunk)
              r.chunks) in
      let moved = total-chunk s transfer_id chunk_index chunk in
      let freed = released-bytes prev (length chunk) written in
      let reserved_bytes = r.bytes in
      let written_bytes = c.bytes in
      let before = a.bytes in
      record {
        bytes = omega arith;
        transfers =
            same_count
            ∙ c.count
            ∙ r.count
            ∙ a.transfers
            ∙ sym (ap (total api.meta each) cache)
            ∙ sym (mirror-transfers transfer_id total_chunks total_bytes meta m released listed');
      }

  -- The transfer is cached, by an earlier chunk or by the claim of a creation.
  written-IsAccounted :
      (fault : Option DbCall) (now : ℕ) (transfer_id : Text)
      (chunk_index total_chunks total_bytes : ℕ) (chunk : Bytes) (creating : Bool)
      (s : FileStore api) (m : FileMeta) (r : StoredChunk)
      → IsCapped api s
      → IsAccounted s
      → TableApi.get api.meta s.meta transfer_id ≡ some m
      → (write_chunk api fault now transfer_id chunk_index total_chunks total_bytes chunk creating
          s).0
        ≡ ok r
      → IsAccounted
          (write_chunk api fault now transfer_id chunk_index total_chunks total_bytes chunk creating
            s).1
  unfolding write_chunk
  written-IsAccounted fault now transfer_id chunk_index total_chunks total_bytes chunk creating s m
        r v a listed =
      elim (Result-cases (
        plan_chunk api fault now transfer_id chunk_index total_chunks total_bytes (length chunk)
          creating s)) [
            | inl (x, refused) ↦ rw (refused, write_chunk) (λ h. absurd cc)
            | inr ((meta, prev), planned) ↦
                let same =
                  plan_chunk-prev_len fault now transfer_id chunk_index total_chunks total_bytes
                    (length chunk) creating s meta prev planned in
                rw (planned, write_chunk)
                  (elim (Option-cases (reserve_growth api prev (length chunk) s)) [
                    | inl over ↦ rw over (λ h. absurd cc)
                    | inr (reserved, grown) ↦
                        rw grown
                          (elim (Result-cases
                            (commit_chunk api fault transfer_id chunk_index chunk meta reserved)) [
                              | inl (x, aborted) ↦ rw aborted (λ h. absurd cc)
                              | inr (written, committed) ↦ rw committed (λ h.
                                  mirrored-IsAccounted transfer_id chunk_index total_chunks
                                    total_bytes chunk meta m prev s reserved written a same listed
                                    (reserve_growth-IsReserved _ (length chunk) s reserved v grown)
                                    (commit_chunk-IsCommitted fault transfer_id chunk_index chunk
                                      meta reserved written committed))
                            ])
                  ])
          ]

  settled-ok :
      (transfer_id : Text) (w : Result FileReject StoredChunk × FileStore api) (r : StoredChunk)
      → (settle_creation api transfer_id w).0 ≡ ok r
      → (w.0 ≡ ok r) × ((settle_creation api transfer_id w).1 ≡ w.1)
  settled-ok transfer_id (ok stored, s) r h = (h, refl)
  settled-ok transfer_id (err e, s) r h = absurd cc

  -- The claim and the slot of a new transfer go together.
  slotted-IsAccounted :
      (now : ℕ) (transfer_id : Text) (total_chunks total_bytes : ℕ) (s slotted : FileStore api)
      → IsCapped api s
      → IsAccounted s
      → TableApi.get api.meta s.meta transfer_id ≡ none
      → reserve_slot api (claim api now transfer_id total_chunks total_bytes s) ≡ some slotted
      → IsAccounted slotted
        × IsCapped api slotted
        × (TableApi.get api.meta slotted.meta transfer_id
            ≡ some (new_meta total_chunks total_bytes now))
  unfolding reserve_slot
  slotted-IsAccounted now transfer_id total_chunks total_bytes s slotted v a free =
      elim (Bool-cases (leb s.config.max_transfers s.transfer_count)) [
        | inl over ↦ rw over (λ h. absurd cc)
        | inr within ↦ rw within (λ h.
            let claimed_store = claim api now transfer_id total_chunks total_bytes s in
            let same : record claimed_store { transfer_count = wrap_add s.transfer_count 1 }
                ≡ slotted =
              ground (arith, h) in
            let top = v.transfers in
            let room : s.transfer_count < s.config.max_transfers = ground (arith, within) in
            let up = wrap_add-eq_of_lt s.transfer_count 1 (omega arith) in
            let fresh = new_meta total_chunks total_bytes now in
            let added = total-insert api.meta each s.meta transfer_id fresh in
            let nothing = ap (share each transfer_id) free in
            let before = a.transfers in
            let here = TableApi.get-insert api.meta s.meta transfer_id transfer_id fresh in
            rw (← same) (
              record { bytes = a.bytes; transfers = omega arith },
              record {
                reserved = v.reserved;
                total = v.total;
                count = omega arith;
                transfers = v.transfers;
              },
              here ∙ rw (text_eq_refl transfer_id) refl,
            ))
      ]

  created-IsAccounted :
      (fault : Option DbCall) (claim_now write_now : ℕ) (transfer_id : Text)
      (total_chunks total_bytes : ℕ) (chunk : Bytes) (s : FileStore api) (r : StoredChunk)
      → IsCapped api s
      → IsAccounted s
      → TableApi.get api.meta s.meta transfer_id ≡ none
      → (create_transfer api fault claim_now write_now transfer_id total_chunks total_bytes chunk
          s).0
        ≡ ok r
      → IsAccounted
          (create_transfer api fault claim_now write_now transfer_id total_chunks total_bytes chunk
            s).1
  unfolding create_transfer
  created-IsAccounted fault claim_now write_now transfer_id total_chunks total_bytes chunk s r v a
        free =
      let claimed_store = claim api claim_now transfer_id total_chunks total_bytes s in
      elim (Option-cases (reserve_slot api claimed_store)) [
        | inl over ↦ rw (over, create_transfer) (λ h. absurd cc)
        | inr (slotted, slot) ↦
            let (accounted, capped, listed) =
              slotted-IsAccounted claim_now transfer_id total_chunks total_bytes s slotted v a free
                slot in
            let w =
              write_chunk api fault write_now transfer_id 0 total_chunks total_bytes chunk true
                slotted in
            rw (slot, create_transfer)
              (λ h.
                let (done, same) = settled-ok transfer_id w r h in
                rw same (
                  written-IsAccounted fault write_now transfer_id 0 total_chunks total_bytes chunk
                    true slotted _ r capped accounted listed done))
      ]

  written_or_not-IsAccounted :
      (fault : Option DbCall) (now : ℕ) (transfer_id : Text)
      (chunk_index total_chunks total_bytes : ℕ) (chunk : Bytes) (s : FileStore api) (m : FileMeta)
      → IsCapped api s
      → IsAccounted s
      → TableApi.get api.meta s.meta transfer_id ≡ some m
      → IsAccounted
          (write_chunk api fault now transfer_id chunk_index total_chunks total_bytes chunk false
            s).1
  written_or_not-IsAccounted fault now transfer_id chunk_index total_chunks total_bytes chunk s m v
        a listed =
      elim (Result-cases
        (write_chunk api fault now transfer_id chunk_index total_chunks total_bytes chunk false
          s).0) [
            | inl (e, failed) ↦
                rw
                  (write_chunk-err api fault now transfer_id chunk_index total_chunks total_bytes
                    chunk false s v.total failed)
                  a
            | inr (r, done) ↦
                written-IsAccounted fault now transfer_id chunk_index total_chunks total_bytes chunk
                  false s m r v a listed done
          ]

  create_transfer-IsAccounted :
      (fault : Option DbCall) (claim_now write_now : ℕ) (transfer_id : Text)
      (total_chunks total_bytes : ℕ) (chunk : Bytes) (s : FileStore api)
      → IsCapped api s
      → IsAccounted s
      → TableApi.get api.meta s.meta transfer_id ≡ none
      → IsAccounted
          (create_transfer api fault claim_now write_now transfer_id total_chunks total_bytes chunk
            s).1
  create_transfer-IsAccounted fault claim_now write_now transfer_id total_chunks total_bytes chunk s
        v a free =
      elim (Result-cases
        (create_transfer api fault claim_now write_now transfer_id total_chunks total_bytes chunk
          s).0) [
            | inl (e, failed) ↦ IsAccounted-of_unchanged s _ a (
                create_transfer-err api fault claim_now write_now transfer_id total_chunks
                  total_bytes chunk s v free failed)
            | inr (r, done) ↦
                created-IsAccounted fault claim_now write_now transfer_id total_chunks total_bytes
                  chunk s r v a free done
          ]

  store_chunk-IsAccounted :
      (fault : Option DbCall) (claim_now write_now : ℕ) (transfer_id : Text)
      (chunk_index total_chunks total_bytes : ℕ) (chunk : Bytes) (s : FileStore api)
      → IsCapped api s
      → IsAccounted s
      → IsAccounted
          (store_chunk api fault claim_now write_now transfer_id chunk_index total_chunks
            total_bytes chunk s).1
  unfolding store_chunk
  store_chunk-IsAccounted fault claim_now write_now transfer_id chunk_index total_chunks total_bytes
        chunk s v a =
      elim (Option-cases (check_shape api chunk_index total_chunks total_bytes chunk s.config)) [
        | inr (r, bad) ↦ rw (bad, store_chunk) a
        | inl good ↦
            rw (good, store_chunk)
              (elim (Option-cases (TableApi.get api.meta s.meta transfer_id)) [
                | inr (m, known) ↦
                    rw known
                      (elim (Bool-cases (
                        not (m.total_chunks == total_chunks)
                        || not (m.total_bytes == total_bytes))) [
                          | inl other ↦ rw other a
                          | inr agreed ↦ rw agreed (
                              written_or_not-IsAccounted fault write_now transfer_id chunk_index
                                total_chunks total_bytes chunk s m v a known)
                        ])
                | inl free ↦ rw free (elim (Bool-cases (not (chunk_index == 0))) [
                  | inl later ↦ rw later a
                  | inr first ↦ rw first (
                      create_transfer-IsAccounted fault claim_now write_now transfer_id total_chunks
                        total_bytes chunk s v a free)
                ])
              ])
      ]

  -- What the store holds is within the operator's caps.
  pub record HoldsWithin (s : FileStore api) : Type 0 where
    pub accounted : IsAccounted s
    pub bytes : total api.file_chunks chunk_bytes s.file_chunks ≤ s.config.max_total_file_bytes
    pub transfers : total api.meta each s.meta ≤ s.config.max_transfers

  -- Where the stored chunks and the listed transfers are within the operator's caps, those caps
  -- below the end of 64 bits, and the two counters are the bytes of the stored chunks and the number
  -- of the listed transfers, an upload keeps all of it so, whether it succeeds, is rejected, or
  -- fails at any database call.
  pub store_chunk-HoldsWithin :
      (fault : Option DbCall) (claim_now write_now : ℕ) (transfer_id : Text)
      (chunk_index total_chunks total_bytes : ℕ) (chunk : Bytes) (s : FileStore api)
      → s.config.max_total_file_bytes + 1 < u64_mod
      → s.config.max_transfers < u64_mod
      → HoldsWithin s
      → HoldsWithin
          (store_chunk api fault claim_now write_now transfer_id chunk_index total_chunks
            total_bytes chunk s).1
  store_chunk-HoldsWithin fault claim_now write_now transfer_id chunk_index total_chunks total_bytes
        chunk s top most h =
      let counted = h.accounted.bytes in
      let listed = h.accounted.transfers in
      let bytes = h.bytes in
      let transfers = h.transfers in
      let v : IsCapped api s = record {
        reserved = omega arith;
        total = top;
        count = omega arith;
        transfers = most;
      } in
      let a =
        store_chunk-IsAccounted fault claim_now write_now transfer_id chunk_index total_chunks
          total_bytes chunk s v h.accounted in
      let c =
        store_chunk-IsCapped api fault claim_now write_now transfer_id chunk_index total_chunks
          total_bytes chunk s v in
      record {
        accounted = a;
        bytes = omega (arith, a.bytes, c.reserved);
        transfers = omega (arith, a.transfers, c.count);
      }
