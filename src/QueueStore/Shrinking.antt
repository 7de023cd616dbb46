-- ===== src/QueueStore/Shrinking.antt =====
-- `ack` keeps the counters in step with the rows.
use axeno_relay.Prelude.{
  ℕ, ◌+◌, ◌<◌, ◌≡◌, refl, sym, ap, ◌∙◌, Option, none, some, List, [], ◌∷◌, arith, ltb, Bool-cases,
  Option-cases, Result-cases, inl, inr, length, Text, text_eq, text_eq_iff, text_eq_refl, IsFreeOf,
  u64_mod, DbCall, ok, wrap_add-eq_of_lt, saturating_add-eq_of_lt, saturating_sub_lem, wrap_add,
  saturating_sub, saturating_add, Bytes, if◌then◌else◌, past_call, >>=-eq-ok, anyhow, db_call, ◌>>◌,
  begin_write, open_table, read_row, remove_row, commit,
}
use axeno_relay.Util.{atomic_sub_saturating}
use axeno_relay.Table.{TableApi, total, total-remove, share}
use axeno_relay.QueueStore.{QueueApi, QueueStore, StoredValue, key_for, index_of}
use axeno_relay.QueueStore.Removal.{
  Acked, ack_row, ack_rows, ack_txn, account_ack, ack, row_bytes, shrink_index,
}
use axeno_relay.QueueStore.Invariant.{IsConsistent, weigh, weigh_in, one, cipher_bytes}
use axeno_relay.QueueStore.Keys.{parse_mailbox-key_for}
use axeno_relay.QueueStore.Enqueue.{index_of-insert}
use axeno_relay.QueueStore.Planning.{total-weigh_in-le}

module _ (api : QueueApi) where
  open api use {Uuid, from_slice}
  open api.db use {Table as Envelopes, get as get_row, remove as remove_at, get-remove}

  -- What the index says of a mailbox after rows of one were taken.
  index_of-shrink_index :
      (index : TableApi.Table (QueueApi.index api)) (j m : Text) (count bytes : ℕ)
      → index_of api (shrink_index api index j count bytes) m ≡ (
          if text_eq j m
          then (
            saturating_sub (index_of api index j).0 count,
            saturating_sub (index_of api index j).1 bytes,
          )
          else index_of api index m)
  unfolding shrink_index saturating_sub
  index_of-shrink_index index j m count bytes =
      elim (Option-cases (TableApi.get (QueueApi.index api) index j)) [
        | inr (e, g) ↦
            let entry : index_of api index j ≡ e = rw (g, index_of) refl in
            rw (g, shrink_index)
              (index_of-insert api index j m (saturating_sub e.0 count, saturating_sub e.1 bytes)
                ∙ ap
                    (λ x.
                      if text_eq j m
                      then (saturating_sub x.0 count, saturating_sub x.1 bytes)
                      else index_of api index m)
                    (sym entry))
        | inl g ↦ elim (Bool-cases (text_eq j m)) [
          | inr away ↦ rw (g, away, shrink_index) refl
          | inl here ↦
              let same = (text_eq_iff j m).0 here in
              let c : 0 ≡ saturating_sub 0 count = omega arith in
              let b : 0 ≡ saturating_sub 0 bytes = omega arith in
              let empty : index_of api index j ≡ (0, 0) = rw (g, index_of) refl in
              rw (← same, text_eq_refl j, g, shrink_index, index_of) (empty ∙ (λ i. (c i, b i)))
        ]
      ]

  total_absent :
      (f : Text × Bytes → ℕ) (db : Envelopes) (key : Text)
      → get_row db key ≡ none
      → total api.db f (remove_at db key) ≡ total api.db f db
  total_absent f db key e =
      let gone = total-remove api.db f db key in let nothing = ap (share f key) e in omega arith

  -- The counters of the loop of `ack` against the rows, those at the start and those that are left.
  record Acking (s : QueueStore api) (mailbox : Text) (acc : Acked api) : Type 0 where
    kept : (k : Text) (b : Bytes) → get_row acc.db k ≡ some b → get_row s.db k ≡ some b
    bytes :
        total api.db (weigh api cipher_bytes) acc.db + acc.freed
        ≡ total api.db (weigh api cipher_bytes) s.db
    in_counts :
        (m : Text)
        → total api.db (weigh_in api m one) acc.db + (if text_eq mailbox m then acc.removed else 0)
          ≡ total api.db (weigh_in api m one) s.db
    in_bytes :
        (m : Text)
        → total api.db (weigh_in api m cipher_bytes) acc.db
            + (if text_eq mailbox m then acc.freed else 0)
          ≡ total api.db (weigh_in api m cipher_bytes) s.db
    nothing : (acc.removed ≡ 0) → acc.freed ≡ 0

  module _ (s : QueueStore api) (v : IsConsistent api s) (mailbox : Text)
      (free : IsFreeOf b':' mailbox)
      (bytes_fit : total api.db (weigh api cipher_bytes) s.db < u64_mod)
      (rows_fit : total api.db (weigh api one) s.db < u64_mod) where
    -- The row that one step takes away, by its value.
    module _ (acc : Acked api) (h : Acking s mailbox acc) (id : Uuid) (raw : Bytes)
        (value : StoredValue) (there : get_row acc.db (key_for api mailbox id) ≡ some raw)
        (decoded : from_slice raw ≡ some value) where
      abbrev left : Envelopes
      left = remove_at acc.db (key_for api mailbox id)

      row_bytes-value : row_bytes api raw ≡ length value.c
      unfolding row_bytes
      row_bytes-value = rw (decoded, row_bytes) refl

      weigh-left :
          (f : StoredValue → ℕ)
          → total api.db (weigh api f) left + f value ≡ total api.db (weigh api f) acc.db
      unfolding weigh
      weigh-left f =
          let gone = total-remove api.db (weigh api f) acc.db (key_for api mailbox id) in
          let mine = ap (share (weigh api f) (key_for api mailbox id)) there in
          ground (arith, gone, mine, decoded)

      weigh_in-left :
          (m : Text) (f : StoredValue → ℕ)
          → total api.db (weigh_in api m f) left + (if text_eq mailbox m then f value else 0)
            ≡ total api.db (weigh_in api m f) acc.db
      unfolding weigh_in
      weigh_in-left m f =
          let gone = total-remove api.db (weigh_in api m f) acc.db (key_for api mailbox id) in
          let mine = ap (share (weigh_in api m f) (key_for api mailbox id)) there in
          ground (arith, gone, mine, decoded, parse_mailbox-key_for api mailbox id free)

      abbrev next : Acked api
      next = record {
        freed = saturating_add acc.freed (row_bytes api raw);
        removed = wrap_add acc.removed 1;
        db = left;
      }

      freed_eq : next.freed ≡ acc.freed + length value.c
      freed_eq =
          let same = row_bytes-value in
          let before = h.bytes in
          let gone = weigh-left cipher_bytes in
          rw same (saturating_add-eq_of_lt acc.freed (length value.c) (omega arith))

      removed_eq : next.removed ≡ acc.removed + 1
      removed_eq =
          let before = h.in_counts mailbox in
          let gone = weigh_in-left mailbox one in
          let whole = total-weigh_in-le api mailbox one s.db in
          let me = text_eq_refl mailbox in
          let before' : total api.db (weigh_in api mailbox one) acc.db + acc.removed
              ≡ total api.db (weigh_in api mailbox one) s.db =
            ground (arith, me, before) in
          let gone' : total api.db (weigh_in api mailbox one) left + 1
              ≡ total api.db (weigh_in api mailbox one) acc.db =
            ground (arith, me, gone) in
          wrap_add-eq_of_lt acc.removed 1 (omega arith)

      next-Acking : Acking s mailbox next
      next-Acking = record {
        kept =
            λ k b g. h.kept k b (ground (arith, g, get-remove acc.db (key_for api mailbox id) k));
        bytes =
            let a = freed_eq in let b = weigh-left cipher_bytes in let c = h.bytes in omega arith;
        in_counts = λ m.
            let a = removed_eq in
            let b = weigh_in-left m one in let c = h.in_counts m in ground (arith, a, b, c);
        in_bytes = λ m.
            let a = freed_eq in
            let b = weigh_in-left m cipher_bytes in let c = h.in_bytes m in ground (arith, a, b, c);
        nothing = λ e. let a = removed_eq in absurd (omega arith);
      }

    ack_row-Acking :
        (acc : Acked api) (id : Uuid)
        → Acking s mailbox acc
        → Acking s mailbox (ack_row api acc (key_for api mailbox id))
    unfolding ack_row
    ack_row-Acking acc id h = elim (Option-cases (get_row acc.db (key_for api mailbox id))) [
      | inr (raw, e) ↦
          let r = v.rows (key_for api mailbox id) raw (h.kept (key_for api mailbox id) raw e) in
          rw (e, ack_row) (next-Acking acc h id raw r.value e r.decoded)
      | inl e ↦
          let key = key_for api mailbox id in
          let same : (f : Text × Bytes → ℕ)
              → total api.db f (remove_at acc.db key) ≡ total api.db f acc.db =
            λ f. total_absent f acc.db key e in
          rw (e, ack_row)
            (record {
              kept = λ k b g. h.kept k b (ground (arith, g, get-remove acc.db key k));
              bytes = omega (arith, same (weigh api cipher_bytes), h.bytes);
              in_counts = λ m. omega (arith, same (weigh_in api m one), h.in_counts m);
              in_bytes = λ m. omega (arith, same (weigh_in api m cipher_bytes), h.in_bytes m);
              nothing = h.nothing;
            })
    ]

    ack_rows-Acking :
        (fault : Option DbCall) (ids : List Uuid) (acc acked : Acked api)
        → Acking s mailbox acc
        → ack_rows api fault mailbox ids acc ≡ ok acked
        → Acking s mailbox acked
    unfolding ack_rows
    ack_rows-Acking fault [] acc acked h e =
        let same : acc ≡ acked = ground (arith, e) in rw (← same) h
    ack_rows-Acking fault (id ∷ ids) acc acked h e =
        let (u, both, rest) =
          >>=-eq-ok (db_call fault anyhow read_row >> db_call fault anyhow remove_row) _ e in
        ack_rows-Acking fault ids (ack_row api acc (key_for api mailbox id)) acked
          (ack_row-Acking acc id h) rest

    ack_txn-Acking :
        (fault : Option DbCall) (ids : List Uuid) (acked : Acked api)
        → ack_txn api fault mailbox ids s.db ≡ ok acked
        → Acking s mailbox acked
    unfolding ack_txn
    ack_txn-Acking fault ids acked e =
        let e1 = past_call fault anyhow open_table _ (past_call fault anyhow begin_write _ e) in
        let (a, rows, e2) = >>=-eq-ok (ack_rows api fault mailbox ids _) _ e1 in
        let e3 = past_call fault anyhow commit _ e2 in
        let same : a ≡ acked = ground (arith, e3) in
        let start : Acking s mailbox (record { freed = 0; removed = 0; db = s.db }) = record {
          kept = λ k b g. g;
          bytes = omega arith;
          in_counts = λ m. ground arith;
          in_bytes = λ m. ground arith;
          nothing = λ z. refl;
        } in
        rw (← same) (ack_rows-Acking fault ids _ a start rows)

    -- What the index says after the acknowledgement, whether it was changed or not.
    index_after :
        (acked : Acked api) (m : Text)
        → Acking s mailbox acked
        → index_of api (account_ack api mailbox acked s).index m ≡ (
            if text_eq mailbox m
            then (
              saturating_sub (index_of api s.index mailbox).0 acked.removed,
              saturating_sub (index_of api s.index mailbox).1 acked.freed,
            )
            else index_of api s.index m)
    unfolding account_ack saturating_sub
    index_after acked m h = elim (Bool-cases (ltb 0 acked.removed)) [
      | inl some_removed ↦
          rw some_removed (index_of-shrink_index s.index mailbox m acked.removed acked.freed)
      | inr none_removed ↦
          let z : acked.removed ≡ 0 = ground (arith, none_removed) in
          let y = h.nothing z in
          rw none_removed (elim (Bool-cases (text_eq mailbox m)) [
            | inr away ↦ rw away refl
            | inl here ↦
                let same = (text_eq_iff mailbox m).0 here in
                let e = index_of api s.index mailbox in
                let c : e.0 ≡ saturating_sub e.0 0 = omega arith in
                let b : e.1 ≡ saturating_sub e.1 0 = omega arith in
                rw (← same, text_eq_refl mailbox, z, y) (λ i. (c i, b i))
          ])
    ]

    account_ack-IsConsistent :
        (acked : Acked api)
        → Acking s mailbox acked
        → IsConsistent api (account_ack api mailbox acked s)
    unfolding account_ack atomic_sub_saturating
    account_ack-IsConsistent acked h = record {
      rows = λ k b g. v.rows k b (h.kept k b g);
      unique = λ j k b c x w gj gk. v.unique j k b c x w (h.kept j b gj) (h.kept k c gk);
      total_bytes =
          let before = v.total_bytes in
          let taken = h.bytes in
          let floored = saturating_sub_lem s.total_bytes acked.freed in omega arith;
      counts = λ m.
          let after = ap (λ e. e.0) (index_after acked m h) in
          let mine = h.in_counts m in
          let old = v.counts m in
          let old' = v.counts mailbox in
          let floored = saturating_sub_lem (index_of api s.index mailbox).0 acked.removed in
          after ∙ elim (Bool-cases (text_eq mailbox m)) [
            | inr away ↦ rw away (ground (arith, away, mine, old))
            | inl here ↦
                let same =
                  ap (λ x. total api.db (weigh_in api x one) s.db)
                    ((text_eq_iff mailbox m).0 here) in
                rw here (ground (arith, here, mine, same, old', floored))
          ];
      bytes = λ m.
          let after = ap (λ e. e.1) (index_after acked m h) in
          let mine = h.in_bytes m in
          let old = v.bytes m in
          let old' = v.bytes mailbox in
          let floored = saturating_sub_lem (index_of api s.index mailbox).1 acked.freed in
          after ∙ elim (Bool-cases (text_eq mailbox m)) [
            | inr away ↦ rw away (ground (arith, away, mine, old))
            | inl here ↦
                let same =
                  ap (λ x. total api.db (weigh_in api x cipher_bytes) s.db)
                    ((text_eq_iff mailbox m).0 here) in
                rw here (ground (arith, here, mine, same, old', floored))
          ];
    }

  -- From a consistent store whose sums fit in 64 bits: whichever database call fails, if one does,
  -- after an acknowledgement by a mailbox without a colon, of any envelopes, the byte total and the
  -- index agree with the committed rows, and sequences stay unique and below the next one.
  pub ack-IsConsistent :
      (fault : Option DbCall) (mailbox : Text) (ids : List Uuid) (s : QueueStore api)
      → IsFreeOf b':' mailbox
      → total api.db (weigh api cipher_bytes) s.db < u64_mod
      → total api.db (weigh api one) s.db < u64_mod
      → IsConsistent api s
      → IsConsistent api (ack api fault mailbox ids s).1
  unfolding ack
  ack-IsConsistent fault mailbox [] s free bytes_fit rows_fit v = v
  ack-IsConsistent fault mailbox (id ∷ ids) s free bytes_fit rows_fit v =
      elim (Result-cases (ack_txn api fault mailbox (id ∷ ids) s.db)) [
        | inl (e, failed) ↦ rw (failed, ack) v
        | inr (acked, done) ↦
            rw (done, ack)
              (account_ack-IsConsistent s v mailbox free bytes_fit rows_fit acked
                (ack_txn-Acking s v mailbox free bytes_fit rows_fit fault (id ∷ ids) acked done))
      ]
