-- ===== src/QueueStore/Purging.antt =====
-- `purge_mailbox` keeps the counters in step with the rows.
use axeno_relay.Prelude.{
  ℕ, ◌+◌, ◌<◌, ◌≡◌, ◌⊎◌, refl, sym, ap, ◌∙◌, Bool, Option, none, some, List, [], ◌∷◌, arith, All,
  sum_by, keep_if, Bool-cases, Result-cases, inl, inr, Text, text_eq, text_eq_iff, text_eq_refl,
  IsFreeOf, u64_mod, DbCall, ok, err, saturating_add-eq_of_lt, saturating_sub_lem, saturating_add,
  Bytes, if◌then◌else◌, past_call, >>=-eq-ok, anyhow, begin_write, open_table, iterate, remove_row,
  commit,
}
use axeno_relay.Util.{atomic_sub_saturating}
use axeno_relay.Table.{Assoc, lookup, Distinct, TableApi, total, total-remove, share}
use axeno_relay.QueueStore.{QueueApi, QueueStore, StoredValue, index_of, mailbox_lo, mailbox_hi}
use axeno_relay.QueueStore.Removal.{
  keys_of, row_bytes, freed_by, remove_keys, remove_txn, purge_mailbox,
}
use axeno_relay.QueueStore.Invariant.{IsConsistent, weigh, weigh_in, one, cipher_bytes}
use axeno_relay.QueueStore.Keys.{in_range}
use axeno_relay.QueueStore.Reading.{Found, entries-Found, Row-in_range, Row-parse_mailbox}
use axeno_relay.QueueStore.Planning.{total-weigh_in-le}

-- What a filter leaves of a listing.
module _ {V : Type 0} (p : Text × V → Bool) where
  lookup-keep_if-none : (j : Text) (l : Assoc V) → lookup j l ≡ none → lookup j (keep_if p l) ≡ none
  unfolding lookup keep_if
  lookup-keep_if-none j [] h = h
  lookup-keep_if-none j ((k, v) ∷ l) h = ground (arith, lookup-keep_if-none j l)

  keep_if-Distinct : (l : Assoc V) → Distinct l → Distinct (keep_if p l)
  unfolding keep_if
  keep_if-Distinct [] d = tt
  keep_if-Distinct ((k, v) ∷ l) d = elim (Bool-cases (p (k, v))) [
    | inl e ↦ rw e (lookup-keep_if-none k l d.0, keep_if-Distinct l d.1)
    | inr e ↦ rw e (keep_if-Distinct l d.1)
  ]

  lookup-keep_if :
      (j : Text) (v : V) (l : Assoc V)
      → Distinct l
      → lookup j (keep_if p l) ≡ some v
      → lookup j l ≡ some v
  unfolding lookup keep_if
  lookup-keep_if j v [] d h = h
  lookup-keep_if j v ((k, w) ∷ l) d h =
      ground (arith, h, lookup-keep_if j v l d.1, lookup-keep_if-none j l, text_eq_iff k j, d.0)

module _ (api : QueueApi) where
  open api use {from_slice, range, range_lem}
  open api.db use {
    Table as Envelopes, get as get_row, remove as remove_at, get-remove, entries, lookup-entries,
    entries-Distinct,
  }

  unfoldable drop_keys : List Text → Envelopes → Envelopes
  drop_keys [] db = db
  drop_keys (key ∷ keys) db = drop_keys keys (remove_at db key)

  remove_keys-eq_ok :
      (fault : Option DbCall) (keys : List Text) (db db' : Envelopes)
      → remove_keys api fault keys db ≡ ok db'
      → db' ≡ drop_keys keys db
  unfolding remove_keys drop_keys
  remove_keys-eq_ok fault [] db db' h = cc
  remove_keys-eq_ok fault (key ∷ keys) db db' h =
      remove_keys-eq_ok fault keys (remove_at db key) db' (past_call fault anyhow remove_row _ h)

  remove_txn-eq_ok :
      (fault : Option DbCall) (keys : List Text) (db db' : Envelopes)
      → remove_txn api fault keys db ≡ ok db'
      → db' ≡ drop_keys keys db
  unfolding remove_txn
  remove_txn-eq_ok fault keys db db' h =
      let h1 =
        past_call fault anyhow iterate _
          (past_call fault anyhow open_table _ (past_call fault anyhow begin_write _ h)) in
      let (a, rows, h2) = >>=-eq-ok (remove_keys api fault keys db) _ h1 in
      let h3 = past_call fault anyhow commit _ h2 in
      let same : a ≡ db' = ground (arith, h3) in
      rw (← same) (remove_keys-eq_ok fault keys db a rows)

  get-drop_keys :
      (keys : List Text) (db : Envelopes) (k : Text) (b : Bytes)
      → get_row (drop_keys keys db) k ≡ some b
      → get_row db k ≡ some b
  unfolding drop_keys
  get-drop_keys [] db k b h = h
  get-drop_keys (key ∷ keys) db k b h =
      let later = get-drop_keys keys (remove_at db key) k b h in
      ground (arith, later, get-remove db key k)

  -- Rows of the table that are taken away take their part of a sum with them.
  total-drop_keys :
      (f : Text × Bytes → ℕ) (l : Assoc Bytes) (db : Envelopes)
      → Distinct l
      → ((k : Text) (b : Bytes) → lookup k l ≡ some b → get_row db k ≡ some b)
      → total api.db f (drop_keys (keys_of api l) db) + sum_by f l ≡ total api.db f db
  unfolding drop_keys sum_by lookup
  total-drop_keys f [] db d h = omega arith
  total-drop_keys f ((k, b) ∷ l) db d h =
      let here : get_row db k ≡ some b = h k b (ground (arith, text_eq_refl k)) in
      let later : (j : Text) (c : Bytes)
          → lookup j l ≡ some c
          → get_row (remove_at db k) j ≡ some c =
        λ j c e. ground (arith, e, get-remove db k j, text_eq_iff k j, h j c, d.0) in
      let rest = total-drop_keys f l (remove_at db k) d.1 later in
      let gone = total-remove api.db f db k in let mine = ap (share f k) here in omega arith

  row_bytes-weigh : (k : Text) (b : Bytes) → row_bytes api b ≡ weigh api cipher_bytes (k, b)
  unfolding row_bytes weigh
  row_bytes-weigh k b = refl

  freed_by_lem :
      (l : Assoc Bytes) (freed : ℕ)
      → freed + sum_by (weigh api cipher_bytes) l < u64_mod
      → freed_by api freed l ≡ freed + sum_by (weigh api cipher_bytes) l
  unfolding freed_by sum_by
  freed_by_lem [] freed h = omega arith
  freed_by_lem ((k, b) ∷ l) freed h =
      let mine = row_bytes-weigh k b in
      let added = saturating_add-eq_of_lt freed (row_bytes api b) (omega arith) in
      let rest = freed_by_lem l (saturating_add freed (row_bytes api b)) (omega arith) in
      omega arith

  module _ (mailbox : Text) (free : IsFreeOf b':' mailbox) (n : ℕ) (db : Envelopes) where
    abbrev inside : Assoc Bytes → Assoc Bytes
    inside = keep_if (λ e. in_range mailbox e.0)

    -- A row of the range is one of the mailbox, and of no other.
    sum_by-inside :
        (m : Text) (f : StoredValue → ℕ) (l : Assoc Bytes)
        → All (Found api n db) l
        → sum_by (weigh_in api m f) (inside l)
          ≡ (if text_eq mailbox m then sum_by (weigh_in api mailbox f) l else 0)
    unfolding sum_by keep_if weigh_in
    sum_by-inside m f [] h = ground arith
    sum_by-inside m f ((k, b) ∷ l) h =
        let r = h.0.1 in
        let mine = Row-in_range api mailbox free n k b r in
        let owner = Row-parse_mailbox api mailbox free n k b r in
        let rest = sum_by-inside m f l h.1 in
        elim (Bool-cases (text_eq r.mailbox mailbox)) [
          | inr out ↦ rw (mine, out) (ground (arith, rest, owner, out))
          | inl here ↦
              let same = (text_eq_iff r.mailbox mailbox).0 here in
              rw (mine, here) (ground (arith, rest, owner, here, same))
        ]

    weigh-inside :
        (f : StoredValue → ℕ) (l : Assoc Bytes)
        → All (Found api n db) l
        → sum_by (weigh api f) (inside l) ≡ sum_by (weigh_in api mailbox f) l
    unfolding sum_by keep_if weigh_in weigh
    weigh-inside f [] h = refl
    weigh-inside f ((k, b) ∷ l) h =
        let r = h.0.1 in
        let mine = Row-in_range api mailbox free n k b r in
        let owner = Row-parse_mailbox api mailbox free n k b r in
        let rest = weigh-inside f l h.1 in
        elim (Bool-cases (text_eq r.mailbox mailbox)) [
          | inr out ↦ rw (mine, out) (ground (arith, rest, owner, out))
          | inl here ↦ rw (mine, here) (ground (arith, rest, owner, here))
        ]

  module _ (s : QueueStore api) (v : IsConsistent api s) (mailbox : Text)
      (free : IsFreeOf b':' mailbox)
      (fits : total api.db (weigh api cipher_bytes) s.db < u64_mod) where
    abbrev found : Assoc Bytes
    found = range s.db (mailbox_lo mailbox) (mailbox_hi mailbox)

    abbrev left : Envelopes
    left = drop_keys (keys_of api found) s.db

    found-inside : found ≡ keep_if (λ e. in_range mailbox e.0) (entries s.db)
    found-inside = range_lem s.db (mailbox_lo mailbox) (mailbox_hi mailbox)

    entries_are_rows : All (Found api s.next_seq s.db) (entries s.db)
    entries_are_rows = entries-Found api s.next_seq s.db v.rows

    total-left : (f : Text × Bytes → ℕ) → total api.db f left + sum_by f found ≡ total api.db f s.db
    total-left f =
        let inside = keep_if (λ e. in_range mailbox e.0) (entries s.db) in
        rw found-inside (
          total-drop_keys f inside s.db
            (keep_if-Distinct (λ e. in_range mailbox e.0) (entries s.db) (entries-Distinct s.db))
            (λ k b e.
              sym (lookup-entries s.db k)
              ∙ lookup-keep_if (λ e. in_range mailbox e.0) k b (entries s.db)
                  (entries-Distinct s.db) e))

    weigh-found :
        (f : StoredValue → ℕ)
        → sum_by (weigh api f) found ≡ total api.db (weigh_in api mailbox f) s.db
    unfolding total
    weigh-found f =
        rw found-inside
          (weigh-inside mailbox free s.next_seq s.db f (entries s.db) entries_are_rows)

    weigh_in-found :
        (m : Text) (f : StoredValue → ℕ)
        → sum_by (weigh_in api m f) found
          ≡ (if text_eq mailbox m then total api.db (weigh_in api mailbox f) s.db else 0)
    unfolding total
    weigh_in-found m f =
        rw found-inside
          (sum_by-inside mailbox free s.next_seq s.db m f (entries s.db) entries_are_rows)

    freed_eq : freed_by api 0 found ≡ total api.db (weigh_in api mailbox cipher_bytes) s.db
    freed_eq =
        let sum = weigh-found cipher_bytes in
        let bound = total-weigh_in-le api mailbox cipher_bytes s.db in
        freed_by_lem found 0 (omega arith) ∙ omega arith

    -- The mailbox has nothing left, and the others have what they had.
    total_in-left :
        (m : Text) (f : StoredValue → ℕ)
        → total api.db (weigh_in api m f) left
          ≡ (if text_eq mailbox m then 0 else total api.db (weigh_in api m f) s.db)
    total_in-left m f =
        let sum = weigh_in-found m f in
        let taken = total-left (weigh_in api m f) in
        elim (Bool-cases (text_eq mailbox m)) [
          | inr away ↦ rw away (ground (arith, away, sum, taken))
          | inl here ↦
              let same =
                ap (λ x. total api.db (weigh_in api x f) s.db) ((text_eq_iff mailbox m).0 here) in
              rw here (ground (arith, here, sum, taken, same))
        ]

    abbrev purged : QueueStore api
    purged = record s {
      db = left;
      total_bytes = atomic_sub_saturating [] s.total_bytes (freed_by api 0 found);
      index = TableApi.remove (QueueApi.index api) s.index mailbox;
    }

    index_of-purged :
        (m : Text)
        → index_of api purged.index m
          ≡ (if text_eq mailbox m then (0, 0) else index_of api s.index m)
    index_of-purged m = ground (arith, TableApi.get-remove (QueueApi.index api) s.index mailbox m)

    purged-IsConsistent : IsConsistent api purged
    unfolding atomic_sub_saturating
    purged-IsConsistent = record {
      rows = λ k b g. v.rows k b (get-drop_keys (keys_of api found) s.db k b g);
      unique = λ j k b c x w gj gk.
          v.unique j k b c x w (get-drop_keys (keys_of api found) s.db j b gj)
            (get-drop_keys (keys_of api found) s.db k c gk);
      total_bytes =
          let before = v.total_bytes in
          let taken = total-left (weigh api cipher_bytes) in
          let sum = weigh-found cipher_bytes in
          let freed = freed_eq in
          let floored = saturating_sub_lem s.total_bytes (freed_by api 0 found) in omega arith;
      counts = λ m. ground (arith, index_of-purged m, total_in-left m one, v.counts m);
      bytes = λ m. ground (arith, index_of-purged m, total_in-left m cipher_bytes, v.bytes m);
    }

  -- From a consistent store whose byte sum fits in 64 bits, for a mailbox without a colon and
  -- whichever database call fails, if one does: a purge leaves the byte total and the index in
  -- agreement with the committed rows, and it fails and changes nothing, or the mailbox has no
  -- envelope left and every other one has as many as before.
  pub purge_mailbox-IsConsistent :
      (fault : Option DbCall) (mailbox : Text) (s : QueueStore api)
      → IsFreeOf b':' mailbox
      → total api.db (weigh api cipher_bytes) s.db < u64_mod
      → IsConsistent api s
      → IsConsistent api (purge_mailbox api fault mailbox s).1
        × (((purge_mailbox api fault mailbox s).0 ≡ err anyhow)
              × ((purge_mailbox api fault mailbox s).1 ≡ s)
            ⊎ (((count : ℕ) × ((purge_mailbox api fault mailbox s).0 ≡ ok count))
                × ((m : Text)
                    → total api.db (weigh_in api m one) (purge_mailbox api fault mailbox s).1.db
                      ≡ (if text_eq mailbox m then 0 else total api.db (weigh_in api m one) s.db))))
  unfolding purge_mailbox
  purge_mailbox-IsConsistent fault mailbox s free fits v =
      elim (Result-cases (remove_txn api fault (keys_of api (found s v mailbox free fits)) s.db)) [
        | inl (anyhow, failed) ↦ rw (failed, purge_mailbox) (v, inl (refl, refl))
        | inr (db', done) ↦
            rw (done, purge_mailbox, remove_txn-eq_ok fault _ s.db db' done)
              (
                purged-IsConsistent s v mailbox free fits,
                inr ((_, refl), λ m. total_in-left s v mailbox free fits m one),
              )
      ]
