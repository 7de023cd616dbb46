-- ===== src/FileStore/Failure.antt =====
-- A chunk that is not stored leaves the file store as it was, whatever failed.
use axeno_relay.Prelude.{
  ℕ, ◌+◌, ◌-◌, ◌≤◌, ◌<◌, ◌≡◌, refl, sym, ap, Bool, true, false, not, ◌||◌, Option, none, some,
  arith, ltb, leb, ◌==◌, length, Bool-cases, Option-cases, Result-cases, inl, inr, Bytes, Text,
  text_eq_iff, Result, ok, err, DbCall, u64_mod, wrap_add, saturating_add, saturating_sub,
  wrap_add-eq_of_lt, wrap_sub-eq_of_le,
}
use axeno_relay.Table.{TableApi}
use axeno_relay.FileStore.{
  FileApi, FileStore, FileMeta, FileReject, StoredChunk, reserve_slot, try_reserve_bytes,
  release_slot, release_bytes, plan_chunk, reserve_growth, roll_back, commit_chunk, write_chunk,
}
use axeno_relay.FileStore.Lifetime.{
  claim, unclaim, settle_creation, create_transfer, check_shape, store_chunk,
}

module _ (api : FileApi) where
  -- The counters are within their caps, and the caps below the end of 64 bits.
  pub record IsCapped (s : FileStore api) : Type 0 where
    pub reserved : s.reserved_bytes ≤ s.config.max_total_file_bytes
    pub total : s.config.max_total_file_bytes + 1 < u64_mod
    pub count : s.transfer_count ≤ s.config.max_transfers
    pub transfers : s.config.max_transfers < u64_mod

  saturating_sub_add :
      (r a cap : ℕ)
      → cap + 1 < u64_mod
      → saturating_add r a ≤ cap
      → saturating_sub (saturating_add r a) a ≡ r
  unfolding saturating_add saturating_sub
  saturating_sub_add r a cap fits within = omega arith

  -- A roll-back undoes the reservation that it follows.
  roll_back-reserve_growth :
      (prev data_len : ℕ) (s reserved : FileStore api)
      → s.config.max_total_file_bytes + 1 < u64_mod
      → reserve_growth api prev data_len s ≡ some reserved
      → roll_back api prev data_len reserved ≡ s
  unfolding reserve_growth try_reserve_bytes roll_back release_bytes
  roll_back-reserve_growth prev data_len s reserved fits = elim (Bool-cases (ltb prev data_len)) [
    | inr e ↦ rw e (λ h. let same : s ≡ reserved = ground (arith, h) in sym same)
    | inl e ↦
        rw e
          (elim (Bool-cases (
            ltb s.config.max_total_file_bytes
              (saturating_add s.reserved_bytes (data_len - prev)))) [
                | inl over ↦ rw over (λ h. absurd cc)
                | inr within ↦ rw within (λ h.
                    let same : record s {
                      reserved_bytes = saturating_add s.reserved_bytes (data_len - prev);
                    }
                        ≡ reserved =
                      ground (arith, h) in
                    rw (← same) (
                      ap (λ r. record s { reserved_bytes = r })
                        (saturating_sub_add s.reserved_bytes (data_len - prev)
                          s.config.max_total_file_bytes fits (ground arith))))
              ])
  ]

  -- A chunk that is not written leaves the store as it was.
  pub write_chunk-err :
      (fault : Option DbCall) (now : ℕ) (transfer_id : Text)
      (chunk_index total_chunks total_bytes : ℕ) (chunk : Bytes) (creating : Bool)
      (s : FileStore api) {e : FileReject}
      → s.config.max_total_file_bytes + 1 < u64_mod
      → (write_chunk api fault now transfer_id chunk_index total_chunks total_bytes chunk creating
          s).0
        ≡ err e
      → (write_chunk api fault now transfer_id chunk_index total_chunks total_bytes chunk creating
          s).1
        ≡ s
  unfolding write_chunk
  write_chunk-err fault now transfer_id chunk_index total_chunks total_bytes chunk creating s fits =
      elim (Result-cases (
        plan_chunk api fault now transfer_id chunk_index total_chunks total_bytes (length chunk)
          creating s)) [
            | inl (e, refused) ↦ rw (refused, write_chunk) (λ h. refl)
            | inr ((meta, prev), planned) ↦
                rw (planned, write_chunk)
                  (elim (Option-cases (reserve_growth api prev (length chunk) s)) [
                    | inl over ↦ rw over (λ h. refl)
                    | inr (reserved, grown) ↦
                        rw grown
                          (elim (Result-cases
                            (commit_chunk api fault transfer_id chunk_index chunk meta reserved)) [
                              | inl (e, aborted) ↦ rw aborted (λ h.
                                  roll_back-reserve_growth prev (length chunk) s reserved fits
                                    grown)
                              | inr (written, committed) ↦ rw committed (λ h. absurd cc)
                            ])
                  ])
          ]

  -- Everything that an operation can observe of the second store is as in the first.
  pub record IsUnchanged (s s' : FileStore api) : Type 0 where
    pub file_meta : s'.file_meta ≡ s.file_meta
    pub file_chunks : s'.file_chunks ≡ s.file_chunks
    pub config : s'.config ≡ s.config
    pub reserved : s'.reserved_bytes ≡ s.reserved_bytes
    pub count : s'.transfer_count ≡ s.transfer_count
    pub cached : (id : Text) → TableApi.get api.meta s'.meta id ≡ TableApi.get api.meta s.meta id

  IsUnchanged-of_eq : (s s' : FileStore api) → s' ≡ s → IsUnchanged s s'
  IsUnchanged-of_eq s s' e = record {
    file_meta = ap (λ (x : FileStore api). x.file_meta) e;
    file_chunks = ap (λ (x : FileStore api). x.file_chunks) e;
    config = ap (λ (x : FileStore api). x.config) e;
    reserved = ap (λ (x : FileStore api). x.reserved_bytes) e;
    count = ap (λ (x : FileStore api). x.transfer_count) e;
    cached = λ id. ap (λ (x : FileStore api). TableApi.get api.meta x.meta id) e;
  }

  -- A claim that is taken back leaves no trace where the id was free.
  claim_undone :
      (m : FileMeta) (t : TableApi.Table api.meta) (transfer_id : Text)
      → TableApi.get api.meta t transfer_id ≡ none
      → (id : Text)
      → TableApi.get api.meta
          (TableApi.remove api.meta (TableApi.insert api.meta t transfer_id m) transfer_id)
          id
        ≡ TableApi.get api.meta t id
  claim_undone m t transfer_id free id = ground (
    arith,
    TableApi.get-remove api.meta (TableApi.insert api.meta t transfer_id m) transfer_id id,
    TableApi.get-insert api.meta t transfer_id id m,
    text_eq_iff transfer_id id,
  )

  module _ (fault : Option DbCall) (claim_now write_now : ℕ) (transfer_id : Text)
      (total_chunks total_bytes : ℕ) (chunk : Bytes) (s : FileStore api) (v : IsCapped s) where
    abbrev claimed_store : FileStore api
    claimed_store = claim api claim_now transfer_id total_chunks total_bytes s

    slot_undone :
        (slotted : FileStore api)
        → TableApi.get api.meta s.meta transfer_id ≡ none
        → reserve_slot api claimed_store ≡ some slotted
        → IsUnchanged s (unclaim api transfer_id (release_slot api slotted))
    unfolding reserve_slot release_slot
    slot_undone slotted free = elim (Bool-cases (leb s.config.max_transfers s.transfer_count)) [
      | inl over ↦ rw over (λ h. absurd cc)
      | inr within ↦ rw within (λ h.
          let same : record claimed_store { transfer_count = wrap_add s.transfer_count 1 }
              ≡ slotted =
            ground (arith, h) in
          let room : s.transfer_count < s.config.max_transfers = ground arith in
          let top = v.transfers in
          let up = wrap_add-eq_of_lt s.transfer_count 1 (omega arith) in
          let down =
            wrap_sub-eq_of_le (wrap_add s.transfer_count 1) 1 (omega arith) (omega arith) in
          rw (← same) (record {
            file_meta = refl;
            file_chunks = refl;
            config = refl;
            reserved = refl;
            count = omega arith;
            cached = claim_undone _ s.meta transfer_id free;
          }))
    ]

    slotted_config :
        (slotted : FileStore api)
        → reserve_slot api claimed_store ≡ some slotted
        → slotted.config ≡ s.config
    unfolding reserve_slot
    slotted_config slotted = elim (Bool-cases (leb s.config.max_transfers s.transfer_count)) [
      | inl over ↦ rw over (λ h. absurd cc)
      | inr within ↦ rw within (λ h. ground (arith, h))
    ]

    settled :
        (slotted : FileStore api) (r : Result FileReject StoredChunk × FileStore api)
        {e : FileReject}
        → (settle_creation api transfer_id r).0 ≡ err e
        → ((e : FileReject) → r.0 ≡ err e → r.1 ≡ slotted)
        → IsUnchanged s (unclaim api transfer_id (release_slot api slotted))
        → IsUnchanged s (settle_creation api transfer_id r).1
    settled slotted (ok stored, s') h kept same = absurd cc
    settled slotted (err e, s') h kept same = rw (kept e refl) same

    pub create_transfer-err :
        {e : FileReject}
        → TableApi.get api.meta s.meta transfer_id ≡ none
        → (create_transfer api fault claim_now write_now transfer_id total_chunks total_bytes chunk
            s).0
          ≡ err e
        → IsUnchanged s
            (create_transfer api fault claim_now write_now transfer_id total_chunks total_bytes
              chunk s).1
    unfolding create_transfer
    create_transfer-err free = elim (Option-cases (reserve_slot api claimed_store)) [
      | inl over ↦
          rw (over, create_transfer)
            (λ h. record {
              file_meta = refl;
              file_chunks = refl;
              config = refl;
              reserved = refl;
              count = refl;
              cached = claim_undone _ s.meta transfer_id free;
            })
      | inr (slotted, slot) ↦
          rw (slot, create_transfer)
            (λ h.
              settled slotted _ h
                (λ e.
                  write_chunk-err fault write_now transfer_id 0 total_chunks total_bytes chunk true
                    slotted (rw (slotted_config slotted slot) v.total))
                (slot_undone slotted free slot))
    ]

  -- A chunk that is rejected, or whose transaction fails at any database call, leaves the rows, both
  -- counters and the cached transfers as they were, where the counters are within their caps: no slot
  -- and no byte stays reserved.
  pub store_chunk-err :
      (fault : Option DbCall) (claim_now write_now : ℕ) (transfer_id : Text)
      (chunk_index total_chunks total_bytes : ℕ) (chunk : Bytes) (s : FileStore api)
      (e : FileReject)
      → IsCapped s
      → (store_chunk api fault claim_now write_now transfer_id chunk_index total_chunks total_bytes
          chunk s).0
        ≡ err e
      → IsUnchanged s
          (store_chunk api fault claim_now write_now transfer_id chunk_index total_chunks
            total_bytes chunk s).1
  unfolding store_chunk
  store_chunk-err fault claim_now write_now transfer_id chunk_index total_chunks total_bytes chunk s
        e v =
      elim (Option-cases (check_shape api chunk_index total_chunks total_bytes chunk s.config)) [
        | inr (r, bad) ↦ rw (bad, store_chunk) (λ h. IsUnchanged-of_eq s s refl)
        | inl good ↦
            rw (good, store_chunk)
              (elim (Option-cases (TableApi.get api.meta s.meta transfer_id)) [
                | inr (m, known) ↦
                    rw known
                      (elim (Bool-cases (
                        not (m.total_chunks == total_chunks)
                        || not (m.total_bytes == total_bytes))) [
                          | inl other ↦ rw other (λ h. IsUnchanged-of_eq s s refl)
                          | inr agreed ↦ rw agreed (λ h. IsUnchanged-of_eq s _ (
                              write_chunk-err fault write_now transfer_id chunk_index total_chunks
                                total_bytes chunk false s v.total h))
                        ])
                | inl free ↦ rw free (elim (Bool-cases (not (chunk_index == 0))) [
                  | inl later ↦ rw later (λ h. IsUnchanged-of_eq s s refl)
                  | inr first ↦ rw first (
                      create_transfer-err fault claim_now write_now transfer_id total_chunks
                        total_bytes chunk s v free)
                ])
              ])
      ]
