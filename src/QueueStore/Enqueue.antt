-- ===== src/QueueStore/Enqueue.antt =====
-- `enqueue` keeps the counters in step with the rows, whichever database call fails in it.
use axeno_relay.Prelude.{
  ℕ, ◌+◌, ◌<◌, ◌≡◌, ◌⊎◌, sym, ap, ◌∙◌, Option, none, some, List, arith, Bool-cases, Option-cases,
  Result-cases, inl, inr, length, Text, text_eq, text_eq_iff, IsFreeOf, u64_mod, DbCall, sum_by,
  wrap_add-eq_of_lt, saturating_add-eq_of_lt, saturating_sub_lem, wrap_add, saturating_sub, Bytes,
  take, if◌then◌else◌, length-map, length-take, sum_by-take-drop, sum_by-one,
}
use axeno_relay.Protocol.{StoredEnvelope}
use axeno_relay.Util.{atomic_sub_saturating}
use axeno_relay.Table.{TableApi, total, total-insert, share}
use axeno_relay.QueueStore.{
  QueueApi, QueueStore, StoredValue, key_for, mailbox_rows, enqueue_plan, enqueue, account_enqueue,
  index_of,
}
use axeno_relay.QueueStore.Invariant.{
  AllRows, UniqueSeqs, IsConsistent, weigh, weigh_in, one, cipher_bytes,
}
use axeno_relay.QueueStore.Keys.{parse_mailbox-key_for}
use axeno_relay.QueueStore.Sorting.{Entry}
use axeno_relay.QueueStore.Reading.{mailbox_rows-Rising, mailbox_rows-Stored}
use axeno_relay.QueueStore.Removing.{
  remove_all, get-remove_all, Present-of_Rising, Present-take, total-remove_all,
  total-remove_all_in, Present,
}
use axeno_relay.QueueStore.Eviction.{entry_bytes}
use axeno_relay.QueueStore.Planning.{
  Fits, Planned, enqueue_plan-Planned, total-weigh_in-le, length-queued, entry_bytes-queued,
}

-- What the index says of a mailbox after one entry was set.
pub index_of-insert :
    (api : QueueApi) (index : TableApi.Table (QueueApi.index api)) (j k : Text) (e : ℕ × ℕ)
    → index_of api (TableApi.insert (QueueApi.index api) index j e) k
      ≡ (if text_eq j k then e else index_of api index k)
index_of-insert api index j k e =
    ground (arith, TableApi.get-insert (QueueApi.index api) index j k e)

module _ (api : QueueApi) where
  open api use {Uuid, from_slice, from_slice-to_vec}
  open api.db use {Table as Envelopes, get as get_row, insert as insert_at, get-insert}

  -- Taking a sequence and failing leaves a consistent store.
  skip-IsConsistent :
      (s : QueueStore api)
      → s.next_seq + 1 < u64_mod
      → IsConsistent api s
      → IsConsistent api (record s { next_seq = wrap_add s.next_seq 1 })
  skip-IsConsistent s fits v =
      let e = wrap_add-eq_of_lt s.next_seq 1 fits in
      record {
        rows = λ k b g.
            let r = v.rows k b g in
            record {
              mailbox = r.mailbox;
              id = r.id;
              value = r.value;
              free = r.free;
              key_eq = r.key_eq;
              decoded = r.decoded;
              before = omega (arith, r.before);
            };
        unique = v.unique;
        total_bytes = v.total_bytes;
        counts = v.counts;
        bytes = v.bytes;
      }

  module _ (now : ℕ) (mailbox : Text) (free : IsFreeOf b':' mailbox) (env : StoredEnvelope Uuid)
      (s : QueueStore api) (v : IsConsistent api s)
      (fresh : get_row s.db (key_for api mailbox env.id) ≡ none)
      (fits : Fits api s (length env.ciphertext)) (ids : List Uuid) (freed : ℕ) (db : Envelopes)
      (plan : Planned api s mailbox env now ids freed db) where
    abbrev pub value : StoredValue
    value = record { t = env.envelope_type; c = env.ciphertext; q = now; s = s.next_seq }

    abbrev pub key : Text
    key = key_for api mailbox env.id

    abbrev pub left : Envelopes
    left = remove_all api mailbox ids s.db

    abbrev pub evicted : List (Entry api)
    evicted = take plan.chosen.n (mailbox_rows api s.db mailbox)

    pub evicted-Present : Present api mailbox s.db evicted
    evicted-Present = Present-take api mailbox s.db plan.chosen.n (mailbox_rows api s.db mailbox) (
        Present-of_Rising api mailbox free s.db (mailbox_rows api s.db mailbox)
          (mailbox_rows-Stored api mailbox free s.next_seq s.db v.rows)
          (mailbox_rows-Rising api mailbox free s.next_seq s.db v.unique v.rows))

    pub key_is_left_free : get_row left key ≡ none
    key_is_left_free = elim (Option-cases (get_row left key)) [
      | inl e ↦ e
      | inr (b, e) ↦ cc (get-remove_all api mailbox ids s.db key b e, fresh)
    ]

    pub decoded_value : from_slice plan.bytes ≡ some value
    decoded_value = from_slice-to_vec value plan.bytes plan.encoded

    -- A row after the transaction is the new one or an old one.
    row_cases :
        (k : Text) (b : Bytes)
        → get_row db k ≡ some b
        → ((k ≡ key) × (b ≡ plan.bytes)) ⊎ (get_row s.db k ≡ some b)
    row_cases k b g =
        let g' : get_row (insert_at left key plan.bytes) k ≡ some b =
          ap (λ d. get_row d k) (sym plan.rows) ∙ g in
        elim (Bool-cases (text_eq key k)) [
          | inl e ↦
              inl (sym ((text_eq_iff key k).0 e), ground (arith, get-insert left key k plan.bytes))
          | inr e ↦ inr (
              get-remove_all api mailbox ids s.db k b
                (ground (arith, get-insert left key k plan.bytes)))
        ]

    weigh-value : (f : StoredValue → ℕ) → weigh api f (key, plan.bytes) ≡ f value
    unfolding weigh
    weigh-value f = ground (arith, decoded_value)

    weigh_in-value :
        (m : Text) (f : StoredValue → ℕ)
        → weigh_in api m f (key, plan.bytes) ≡ (if text_eq mailbox m then f value else 0)
    unfolding weigh_in
    weigh_in-value m f =
        ground (arith, decoded_value, parse_mailbox-key_for api mailbox env.id free)

    total_after :
        (f : StoredValue → ℕ)
        → total api.db (weigh api f) db + sum_by (λ p. f p.1) evicted
          ≡ total api.db (weigh api f) s.db + f value
    total_after f =
        let inserted = total-insert api.db (weigh api f) left key plan.bytes in
        let nothing = ap (share (weigh api f) key) key_is_left_free in
        let removed = total-remove_all api mailbox free f s.db evicted evicted-Present in
        let same_ids =
          ap (λ i. total api.db (weigh api f) (remove_all api mailbox i s.db)) plan.chosen.ids in
        let same_db = ap (total api.db (weigh api f)) plan.rows in
        let mine = weigh-value f in omega arith

    pub total_in_after :
        (m : Text) (f : StoredValue → ℕ)
        → total api.db (weigh_in api m f) db
            + (if text_eq mailbox m then sum_by (λ p. f p.1) evicted else 0)
          ≡ total api.db (weigh_in api m f) s.db + (if text_eq mailbox m then f value else 0)
    total_in_after m f =
        let inserted = total-insert api.db (weigh_in api m f) left key plan.bytes in
        let nothing = ap (share (weigh_in api m f) key) key_is_left_free in
        let removed = total-remove_all_in api mailbox free m f s.db evicted evicted-Present in
        let same_ids =
          ap (λ i. total api.db (weigh_in api m f) (remove_all api mailbox i s.db))
            plan.chosen.ids in
        let same_db = ap (total api.db (weigh_in api m f)) plan.rows in
        let mine = weigh_in-value m f in omega arith

    abbrev pub after : QueueStore api
    after =
        account_enqueue api (record s { next_seq = wrap_add s.next_seq 1; db = db }) mailbox
          (length env.ciphertext) ids freed

    next : wrap_add s.next_seq 1 ≡ s.next_seq + 1
    next = wrap_add-eq_of_lt s.next_seq 1 fits.seqs

    pub after-rows : AllRows api after.next_seq after.db
    unfolding account_enqueue
    after-rows k b g = elim (row_cases k b g) [
      | inl (ek, eb) ↦ record {
        mailbox = mailbox;
        id = env.id;
        value = value;
        free = free;
        key_eq = ek;
        decoded = ap from_slice eb ∙ decoded_value;
        before = omega (arith, next);
      }
      | inr old ↦
          let r = v.rows k b old in
          record {
            mailbox = r.mailbox;
            id = r.id;
            value = r.value;
            free = r.free;
            key_eq = r.key_eq;
            decoded = r.decoded;
            before = omega (arith, next, r.before);
          }
    ]

    new_seq :
        (b : Bytes) (w : StoredValue) → b ≡ plan.bytes → from_slice b ≡ some w → w.s ≡ s.next_seq
    new_seq b w e d =
        let same : some value ≡ some w = cc (decoded_value, ap from_slice e) in ground arith

    old_seq :
        (k : Text) (b : Bytes) (w : StoredValue)
        → get_row s.db k ≡ some b
        → from_slice b ≡ some w
        → w.s < s.next_seq
    old_seq k b w g d = let r = v.rows k b g in ground (arith, r.decoded, r.before)

    pub after_unique : UniqueSeqs api after.db
    unfolding account_enqueue
    after_unique j k b c x w gj gk dx dw e = elim (row_cases j b gj) [
      | inl (ej, eb) ↦ elim (row_cases k c gk) [
        | inl (ek, ec) ↦ ej ∙ sym ek
        | inr old ↦ absurd (omega (arith, new_seq b x eb dx, old_seq k c w old dw))
      ]
      | inr old ↦ elim (row_cases k c gk) [
        | inl (ek, ec) ↦ absurd (omega (arith, new_seq c w ec dw, old_seq j b x old dx))
        | inr old' ↦ v.unique j k b c x w old old' dx dw e
      ]
    ]

    after-total_bytes : after.total_bytes ≡ total api.db (weigh api cipher_bytes) after.db
    unfolding account_enqueue atomic_sub_saturating
    after-total_bytes =
        let sums = total_after cipher_bytes in
        let before = v.total_bytes in
        let freed_eq = plan.chosen.freed in
        let wrapped =
          wrap_add-eq_of_lt s.total_bytes (length env.ciphertext) (omega (arith, fits.bytes)) in
        let floored = saturating_sub_lem (wrap_add s.total_bytes (length env.ciphertext)) freed in
        omega arith

    pub length-ids : length ids ≡ plan.chosen.n
    length-ids =
        ap length plan.chosen.ids
        ∙ length-map (λ (p : Entry api). p.0) evicted
        ∙ length-take plan.chosen.n (mailbox_rows api s.db mailbox) plan.chosen.within

    -- The sums stay below 2^64, so no saturation is reached.
    after-counts :
        (m : Text) → (index_of api after.index m).0 ≡ total api.db (weigh_in api m one) after.db
    unfolding account_enqueue
    after-counts m =
        let sums = total_in_after m one in
        let bounded = total-weigh_in-le api m one s.db in
        let room = fits.rows in
        let ones = sum_by-one evicted in
        let taken = length-take plan.chosen.n (mailbox_rows api s.db mailbox) plan.chosen.within in
        let number = length-ids in
        rw (index_of-insert api s.index mailbox m) (elim (Bool-cases (text_eq mailbox m)) [
          | inr e ↦ rw e (let old = v.counts m in ground (arith, e, sums, old))
          | inl e ↦
              let same =
                ap (λ x. total api.db (weigh_in api x one) s.db) ((text_eq_iff mailbox m).0 e) in
              let old = v.counts mailbox in
              let whole = length-queued api s v mailbox free in
              let some_of_it = plan.chosen.within in
              let down = saturating_sub_lem (index_of api s.index mailbox).0 (length ids) in
              let sums' : total api.db (weigh_in api m one) db + sum_by (λ p. one p.1) evicted
                  ≡ total api.db (weigh_in api m one) s.db + 1 =
                ground (arith, e, sums) in
              let up =
                saturating_add-eq_of_lt
                  (saturating_sub (index_of api s.index mailbox).0 (length ids)) 1 (omega arith) in
              rw e (omega arith)
        ])

    after-bytes :
        (m : Text)
        → (index_of api after.index m).1 ≡ total api.db (weigh_in api m cipher_bytes) after.db
    unfolding account_enqueue
    after-bytes m =
        let sums = total_in_after m cipher_bytes in
        let bounded = total-weigh_in-le api m cipher_bytes s.db in
        let room = fits.bytes in
        let freed_eq = plan.chosen.freed in
        rw (index_of-insert api s.index mailbox m) (elim (Bool-cases (text_eq mailbox m)) [
          | inr e ↦ rw e (let old = v.bytes m in ground (arith, e, sums, old))
          | inl e ↦
              let same =
                ap (λ x. total api.db (weigh_in api x cipher_bytes) s.db)
                  ((text_eq_iff mailbox m).0 e) in
              let old = v.bytes mailbox in
              let whole = entry_bytes-queued api s v mailbox free in
              let some_of_it =
                sum_by-take-drop (λ (p : Entry api). length p.1.c) plan.chosen.n
                  (mailbox_rows api s.db mailbox) in
              let down = saturating_sub_lem (index_of api s.index mailbox).1 freed in
              let sums' : total api.db (weigh_in api m cipher_bytes) db + entry_bytes api evicted
                  ≡ total api.db (weigh_in api m cipher_bytes) s.db + length env.ciphertext =
                ground (arith, e, sums) in
              let up =
                saturating_add-eq_of_lt (saturating_sub (index_of api s.index mailbox).1 freed)
                  (length env.ciphertext) (omega arith) in
              rw e (omega arith)
        ])

    after-IsConsistent : IsConsistent api after
    after-IsConsistent = record {
      rows = after-rows;
      unique = after_unique;
      total_bytes = after-total_bytes;
      counts = after-counts;
      bytes = after-bytes;
    }

  -- From a consistent store whose counters are not at the end of 64 bits, and for a mailbox without a
  -- colon and an envelope that is not stored yet: whichever database call fails, if one does, and
  -- whatever is evicted, after an enqueue the byte total and the index agree with the committed rows,
  -- sequences are unique, and the next one is above them all.
  pub enqueue-IsConsistent :
      (fault : Option DbCall) (now : ℕ) (mailbox : Text) (env : StoredEnvelope Uuid)
      (s : QueueStore api)
      → IsFreeOf b':' mailbox
      → IsConsistent api s
      → get_row s.db (key_for api mailbox env.id) ≡ none
      → Fits api s (length env.ciphertext)
      → IsConsistent api (enqueue api fault now mailbox env s).1
  unfolding enqueue
  enqueue-IsConsistent fault now mailbox env s free v fresh fits =
      elim (Result-cases (enqueue_plan api fault now mailbox env s)) [
        | inl (e, failed) ↦ rw (failed, enqueue) (skip-IsConsistent s fits.seqs v)
        | inr ((ids, freed, db), done) ↦
            rw (done, enqueue)
              (after-IsConsistent now mailbox free env s v fresh fits ids freed db
                (enqueue_plan-Planned api fault now mailbox env s v free fits done))
      ]
