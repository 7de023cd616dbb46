-- ===== src/FileStore/RoundTrip.antt =====
-- A chunk that was stored can be fetched.
use mathlib.Core.Path.{subst}
use axeno_relay.Prelude.{
  ℕ, ◌-◌, ◌≡◌, refl, ap, ◌∙◌, Bool, true, false, not, ◌||◌, Option, none, some, arith, ltb, leb,
  ◌==◌, length, Bool-cases, Option-cases, Result-cases, inl, inr, Bytes, Text, text_eq_refl, Result,
  ok, err, DbCall, saturating_add, >>=-eq-ok, past_call, insert_row, commit, ok_or,
}
use axeno_relay.Table.{TableApi}
use axeno_relay.FileStore.{
  FileApi, FileStore, FileMeta, FileReject, full, StoredChunk, new_meta, reserve_slot,
  try_reserve_bytes, release_bytes, plan_chunk, reserve_growth, release_shrink, commit_chunk,
  mirror, write_chunk, chunk_key, advance, claimed,
}
use axeno_relay.FileStore.Lifetime.{
  claim, settle_creation, create_transfer, check_shape, store_chunk, fetch_chunk,
}

module _ (api : FileApi) where
  get-insert_self :
      {V : Type 0} (T : TableApi V) (t : TableApi.Table T) (k : Text) (v : V)
      → TableApi.get T (TableApi.insert T t k v) k ≡ some v
  get-insert_self T t k v = TableApi.get-insert T t k k v ∙ rw (text_eq_refl k) refl

  -- A transfer of the given shape that holds the chunk.
  pub record Holds (transfer_id : Text) (chunk_index total_chunks total_bytes : ℕ) (chunk : Bytes)
      (s : FileStore api) : Type 0 where
    pub meta : FileMeta
    pub known : TableApi.get api.meta s.meta transfer_id ≡ some meta
    pub chunks : meta.total_chunks ≡ total_chunks
    pub bytes : meta.total_bytes ≡ total_bytes
    pub stored :
        TableApi.get api.file_chunks s.file_chunks (chunk_key transfer_id chunk_index) ≡ some chunk

  reserve_growth-meta :
      (prev data_len : ℕ) (s reserved : FileStore api)
      → reserve_growth api prev data_len s ≡ some reserved
      → reserved.meta ≡ s.meta
  unfolding reserve_growth try_reserve_bytes
  reserve_growth-meta prev data_len s reserved = elim (Bool-cases (ltb prev data_len)) [
    | inr e ↦ rw e (λ h. ground (arith, h))
    | inl e ↦
        rw e
          (elim (Bool-cases (
            ltb s.config.max_total_file_bytes
              (saturating_add s.reserved_bytes (data_len - prev)))) [
                | inl over ↦ rw over (λ h. absurd cc)
                | inr within ↦ rw within (λ h. ground (arith, h))
              ])
  ]

  commit_chunk-ok :
      (fault : Option DbCall) (transfer_id : Text) (chunk_index : ℕ) (chunk : Bytes)
      (meta : FileMeta) (s written : FileStore api)
      → commit_chunk api fault transfer_id chunk_index chunk meta s ≡ ok written
      → (written.meta ≡ s.meta)
        × (TableApi.get api.file_chunks written.file_chunks (chunk_key transfer_id chunk_index)
            ≡ some chunk)
  unfolding commit_chunk
  commit_chunk-ok fault transfer_id chunk_index chunk meta s written h =
      let h1 = past_call fault full insert_row _ h in
      let (b, encoded, h2) = >>=-eq-ok (ok_or (api.to_vec meta) full) _ h1 in
      let h3 = past_call fault full commit _ h2 in
      let same = ap (λ (r : Result FileReject (FileStore api)). r) h3 in
      let stored =
        get-insert_self api.file_chunks s.file_chunks (chunk_key transfer_id chunk_index) chunk in
      (ground (arith, same), ground (arith, same, stored))

  release_shrink-meta :
      (prev data_len : ℕ) (s : FileStore api)
      → ((release_shrink api prev data_len s).meta ≡ s.meta)
        × ((release_shrink api prev data_len s).file_chunks ≡ s.file_chunks)
  unfolding release_shrink release_bytes
  release_shrink-meta prev data_len s = elim (Bool-cases (ltb data_len prev)) [
    | inl e ↦ rw e (refl, refl)
    | inr e ↦ rw e (refl, refl)
  ]

  advance-shape :
      (e meta : FileMeta)
      → ((advance api e meta).total_chunks ≡ e.total_chunks)
        × ((advance api e meta).total_bytes ≡ e.total_bytes)
  advance-shape e meta = elim (Bool-cases (leb e.received_chunks meta.received_chunks)) [
    | inl l ↦ rw l (refl, refl)
    | inr l ↦ rw l (refl, refl)
  ]

  mirror-Holds :
      (transfer_id : Text) (chunk_index total_chunks total_bytes : ℕ) (chunk : Bytes)
      (meta e : FileMeta) (s : FileStore api)
      → TableApi.get api.meta s.meta transfer_id ≡ some e
      → e.total_chunks ≡ total_chunks
      → e.total_bytes ≡ total_bytes
      → TableApi.get api.file_chunks s.file_chunks (chunk_key transfer_id chunk_index) ≡ some chunk
      → Holds transfer_id chunk_index total_chunks total_bytes chunk
          (mirror api transfer_id total_chunks total_bytes meta s)
  unfolding mirror
  mirror-Holds transfer_id chunk_index total_chunks total_bytes chunk meta e s known tc tb stored =
      let (kept_chunks, kept_bytes) = advance-shape e meta in
      record {
        meta = advance api e meta;
        known =
            get-insert_self api.meta s.meta transfer_id _
            ∙ ap (λ o. some (advance api (claimed api o meta total_chunks total_bytes) meta)) known;
        chunks = kept_chunks ∙ tc;
        bytes = kept_bytes ∙ tb;
        stored = stored;
      }

  write_chunk-Holds :
      (fault : Option DbCall) (now : ℕ) (transfer_id : Text)
      (chunk_index total_chunks total_bytes : ℕ) (chunk : Bytes) (creating : Bool)
      (s : FileStore api) (e : FileMeta) {r : StoredChunk}
      → TableApi.get api.meta s.meta transfer_id ≡ some e
      → e.total_chunks ≡ total_chunks
      → e.total_bytes ≡ total_bytes
      → (write_chunk api fault now transfer_id chunk_index total_chunks total_bytes chunk creating
          s).0
        ≡ ok r
      → Holds transfer_id chunk_index total_chunks total_bytes chunk
          (write_chunk api fault now transfer_id chunk_index total_chunks total_bytes chunk creating
            s).1
  unfolding write_chunk
  write_chunk-Holds fault now transfer_id chunk_index total_chunks total_bytes chunk creating s e
        known tc tb =
      elim (Result-cases (
        plan_chunk api fault now transfer_id chunk_index total_chunks total_bytes (length chunk)
          creating s)) [
            | inl (x, refused) ↦ rw (refused, write_chunk) (λ h. absurd cc)
            | inr ((meta, prev), planned) ↦
                rw (planned, write_chunk)
                  (elim (Option-cases (reserve_growth api prev (length chunk) s)) [
                    | inl over ↦ rw over (λ h. absurd cc)
                    | inr (reserved, grown) ↦
                        rw grown
                          (elim (Result-cases
                            (commit_chunk api fault transfer_id chunk_index chunk meta reserved)) [
                              | inl (x, aborted) ↦ rw aborted (λ h. absurd cc)
                              | inr (written, committed) ↦ rw committed (λ h.
                                  let (same, stored) =
                                    commit_chunk-ok fault transfer_id chunk_index chunk meta
                                      reserved written committed in
                                  let (meta_kept, chunks_kept) =
                                    release_shrink-meta prev (length chunk) written in
                                  let cache =
                                    meta_kept
                                    ∙ same
                                    ∙ reserve_growth-meta prev (length chunk) s reserved grown in
                                  mirror-Holds transfer_id chunk_index total_chunks total_bytes
                                    chunk meta e (release_shrink api prev (length chunk) written)
                                    (ap (λ t. TableApi.get api.meta t transfer_id) cache ∙ known) tc
                                    tb
                                    (ap
                                        (λ t.
                                          TableApi.get api.file_chunks t
                                            (chunk_key transfer_id chunk_index))
                                        chunks_kept
                                      ∙ stored))
                            ])
                  ])
          ]

  settled-Holds :
      (transfer_id : Text) (chunk_index total_chunks total_bytes : ℕ) (chunk : Bytes)
      (w : Result FileReject StoredChunk × FileStore api) {r : StoredChunk}
      → (settle_creation api transfer_id w).0 ≡ ok r
      → ((r : StoredChunk)
          → w.0 ≡ ok r
          → Holds transfer_id chunk_index total_chunks total_bytes chunk w.1)
      → Holds transfer_id chunk_index total_chunks total_bytes chunk
          (settle_creation api transfer_id w).1
  settled-Holds transfer_id chunk_index total_chunks total_bytes chunk (ok stored, s) h holds =
      holds stored refl
  settled-Holds transfer_id chunk_index total_chunks total_bytes chunk (err e, s) h holds =
      absurd cc

  slotted-meta :
      (s slotted : FileStore api) → reserve_slot api s ≡ some slotted → slotted.meta ≡ s.meta
  unfolding reserve_slot
  slotted-meta s slotted = elim (Bool-cases (leb s.config.max_transfers s.transfer_count)) [
    | inl over ↦ rw over (λ h. absurd cc)
    | inr within ↦ rw within (λ h. ground (arith, h))
  ]

  create_transfer-Holds :
      (fault : Option DbCall) (claim_now write_now : ℕ) (transfer_id : Text)
      (total_chunks total_bytes : ℕ) (chunk : Bytes) (s : FileStore api) {r : StoredChunk}
      → (create_transfer api fault claim_now write_now transfer_id total_chunks total_bytes chunk
          s).0
        ≡ ok r
      → Holds transfer_id 0 total_chunks total_bytes chunk
          (create_transfer api fault claim_now write_now transfer_id total_chunks total_bytes chunk
            s).1
  unfolding create_transfer
  create_transfer-Holds fault claim_now write_now transfer_id total_chunks total_bytes chunk s =
      let claimed_store = claim api claim_now transfer_id total_chunks total_bytes s in
      elim (Option-cases (reserve_slot api claimed_store)) [
        | inl over ↦ rw (over, create_transfer) (λ h. absurd cc)
        | inr (slotted, slot) ↦
            rw (slot, create_transfer)
              (λ h. settled-Holds transfer_id 0 total_chunks total_bytes chunk _ h (λ r done.
                write_chunk-Holds fault write_now transfer_id 0 total_chunks total_bytes chunk true
                  slotted (new_meta total_chunks total_bytes claim_now)
                  (ap (λ t. TableApi.get api.meta t transfer_id)
                      (slotted-meta claimed_store slotted slot)
                    ∙ get-insert_self api.meta s.meta transfer_id _)
                  refl refl done))
      ]

  -- After a chunk was stored, the transfer is known with the shape that the upload declared.
  store_chunk-Holds :
      (fault : Option DbCall) (claim_now write_now : ℕ) (transfer_id : Text)
      (chunk_index total_chunks total_bytes : ℕ) (chunk : Bytes) (s : FileStore api)
      {r : StoredChunk}
      → (store_chunk api fault claim_now write_now transfer_id chunk_index total_chunks total_bytes
          chunk s).0
        ≡ ok r
      → (check_shape api chunk_index total_chunks total_bytes chunk s.config ≡ none)
        × Holds transfer_id chunk_index total_chunks total_bytes chunk
            (store_chunk api fault claim_now write_now transfer_id chunk_index total_chunks
              total_bytes chunk s).1
  unfolding store_chunk
  store_chunk-Holds fault claim_now write_now transfer_id chunk_index total_chunks total_bytes chunk
        s =
      elim (Option-cases (check_shape api chunk_index total_chunks total_bytes chunk s.config)) [
        | inr (r, bad) ↦ rw (bad, store_chunk) (λ h. absurd cc)
        | inl good ↦
            rw (good, store_chunk)
              (elim (Option-cases (TableApi.get api.meta s.meta transfer_id)) [
                | inr (m, known) ↦
                    rw known
                      (elim (Bool-cases (
                        not (m.total_chunks == total_chunks)
                        || not (m.total_bytes == total_bytes))) [
                          | inl other ↦ rw other (λ h. absurd cc)
                          | inr agreed ↦ rw agreed (λ h. (
                            refl,
                            write_chunk-Holds fault write_now transfer_id chunk_index total_chunks
                                total_bytes chunk false s m known (ground (arith, agreed))
                                (ground (arith, agreed)) h,
                          ))
                        ])
                | inl free ↦ rw free (elim (Bool-cases (not (chunk_index == 0))) [
                  | inl later ↦ rw later (λ h. absurd cc)
                  | inr first ↦
                      let zeroth : 0 ≡ chunk_index = ground (arith, first) in
                      rw first (λ h. (
                        refl,
                        subst
                            (λ i.
                              Holds transfer_id i total_chunks total_bytes chunk
                                (create_transfer api fault claim_now write_now transfer_id
                                  total_chunks total_bytes chunk s).1)
                            zeroth
                            (create_transfer-Holds fault claim_now write_now transfer_id
                              total_chunks total_bytes chunk s h),
                      ))
                ])
              ])
      ]

  fetch_chunk-Holds :
      (transfer_id : Text) (chunk_index total_chunks total_bytes : ℕ) (chunk : Bytes)
      (s : FileStore api)
      → Holds transfer_id chunk_index total_chunks total_bytes chunk s
      → leb total_chunks chunk_index ≡ false
      → fetch_chunk api none transfer_id chunk_index s
        ≡ ok (record { chunk_data = chunk; total_chunks = total_chunks; total_bytes = total_bytes })
  unfolding fetch_chunk
  fetch_chunk-Holds transfer_id chunk_index total_chunks total_bytes chunk s h inside =
      let inside' : leb h.meta.total_chunks chunk_index ≡ false = rw h.chunks inside in
      rw (h.known, inside', h.stored, h.chunks, h.bytes) refl

  inside_of_good :
      (chunk_index total_chunks total_bytes : ℕ) (chunk : Bytes) (s : FileStore api)
      → check_shape api chunk_index total_chunks total_bytes chunk s.config ≡ none
      → leb total_chunks chunk_index ≡ false
  unfolding check_shape
  inside_of_good chunk_index total_chunks total_bytes chunk s good = ground (arith, good)

  -- A chunk whose upload succeeded, as the first of a new transfer, as a later one or as a
  -- replacement, is what a fetch of its index returns when none of the fetch's database calls fails,
  -- with the declared shape of the transfer.
  pub fetch_chunk-store_chunk :
      (fault : Option DbCall) (claim_now write_now : ℕ) (transfer_id : Text)
      (chunk_index total_chunks total_bytes : ℕ) (chunk : Bytes) (s : FileStore api)
      (r : StoredChunk)
      → (store_chunk api fault claim_now write_now transfer_id chunk_index total_chunks total_bytes
          chunk s).0
        ≡ ok r
      → fetch_chunk api none transfer_id chunk_index
          (store_chunk api fault claim_now write_now transfer_id chunk_index total_chunks
            total_bytes chunk s).1
        ≡ ok (record { chunk_data = chunk; total_chunks = total_chunks; total_bytes = total_bytes })
  fetch_chunk-store_chunk fault claim_now write_now transfer_id chunk_index total_chunks total_bytes
        chunk s r done =
      let (good, holds) =
        store_chunk-Holds fault claim_now write_now transfer_id chunk_index total_chunks total_bytes
          chunk s done in
      fetch_chunk-Holds transfer_id chunk_index total_chunks total_bytes chunk _ holds
        (inside_of_good chunk_index total_chunks total_bytes chunk s good)
