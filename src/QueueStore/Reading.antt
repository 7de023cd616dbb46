-- ===== src/QueueStore/Reading.antt =====
-- What `read_mailbox` returns in a consistent store: exactly the mailbox's rows, oldest first.
use axeno_relay.Prelude.{
  ℕ, ◌≡◌, ◌≢◌, refl, sym, ap, ◌∙◌, true, false, none, some, [], ◌∷◌, arith, if◌then◌else◌, All,
  sum_by, Bool-cases, inl, inr, keep_if, Bytes, Text, text_eq, text_eq_iff, IsFreeOf,
}
use axeno_relay.Table.{Assoc, lookup, Distinct, total}
use axeno_relay.QueueStore.{
  QueueApi, StoredValue, key_for, parse_mailbox, parse_id, collect, mailbox_rows, mailbox_lo,
  mailbox_hi,
}
use axeno_relay.QueueStore.Invariant.{Row, AllRows, UniqueSeqs, weigh_in}
use axeno_relay.QueueStore.Keys.{
  in_range, parse_mailbox-key_for, parse_id-key_for, in_range-key_for,
}
use axeno_relay.QueueStore.Sorting.{Rising, Apart, sort-All, sum_by-sort, sort-Rising}

lookup-none-tail :
    (j k : Text) (b : Bytes) (l : Assoc Bytes)
    → lookup j ((k, b) ∷ l) ≡ none
    → (k ≢ j) × (lookup j l ≡ none)
unfolding lookup
lookup-none-tail j k b l e = ground (arith, text_eq_iff k j)

module _ (api : QueueApi) where
  open api use {Uuid, from_slice, range, range_lem}
  open api.db use {Table as Envelopes, get as get_row, entries, lookup-entries, entries-Distinct}

  -- A row as iteration meets it: it is what its key finds.
  abbrev pub Found : ℕ → Envelopes → Text × Bytes → Type 0
  Found n db (key, bytes) = (get_row db key ≡ some bytes) × Row api n key bytes

  Found-All :
      (n : ℕ) (db : Envelopes) (l : Assoc Bytes)
      → AllRows api n db
      → Distinct l
      → ((k : Text) (b : Bytes) → lookup k l ≡ some b → get_row db k ≡ some b)
      → All (Found n db) l
  unfolding lookup
  Found-All n db [] rows d h = tt
  Found-All n db ((k, b) ∷ l) rows d h =
      let here : get_row db k ≡ some b = h k b (ground (arith, text_eq_iff k k)) in
      (
        (here, rows k b here),
        Found-All n db l rows d.1 (λ j c e. h j c (ground (arith, text_eq_iff k j))),
      )

  pub entries-Found : (n : ℕ) (db : Envelopes) → AllRows api n db → All (Found n db) (entries db)
  entries-Found n db rows =
      Found-All n db (entries db) rows (entries-Distinct db)
        (λ k b e. sym (lookup-entries db k) ∙ e)

  -- Where the entry of a mailbox list comes from.
  abbrev pub Stored : Envelopes → Text → Uuid × StoredValue → Type 0
  Stored db mailbox (id, v) =
      (bytes : Bytes) × (get_row db (key_for api mailbox id) ≡ some bytes)
      × (from_slice bytes ≡ some v)

  module _ (mailbox : Text) (free : IsFreeOf b':' mailbox) (n : ℕ) where
    abbrev picked : Assoc Bytes → Assoc Bytes
    picked = keep_if (λ e. in_range mailbox e.0)

    pub Row-in_range :
        (k : Text) (b : Bytes) (r : Row api n k b) → in_range mailbox k ≡ text_eq r.mailbox mailbox
    Row-in_range k b r =
        ap (in_range mailbox) r.key_eq ∙ in_range-key_for api r.mailbox mailbox r.id r.free free

    Row-parse_id : (k : Text) (b : Bytes) (r : Row api n k b) → parse_id api k ≡ some r.id
    Row-parse_id k b r = ap (parse_id api) r.key_eq ∙ parse_id-key_for api r.mailbox r.id r.free

    pub Row-parse_mailbox :
        (k : Text) (b : Bytes) (r : Row api n k b) → parse_mailbox k ≡ some r.mailbox
    Row-parse_mailbox k b r =
        ap parse_mailbox r.key_eq ∙ parse_mailbox-key_for api r.mailbox r.id r.free

    -- A row of the mailbox is collected, and any other is passed over.
    collect_in :
        (k : Text) (b : Bytes) (l : Assoc Bytes) (r : Row api n k b)
        → text_eq r.mailbox mailbox ≡ true
        → collect api (picked ((k, b) ∷ l)) ≡ (r.id, r.value) ∷ collect api (picked l)
    unfolding collect keep_if
    collect_in k b l r e = ground (arith, Row-in_range k b r, Row-parse_id k b r, r.decoded)

    collect_out :
        (k : Text) (b : Bytes) (l : Assoc Bytes) (r : Row api n k b)
        → text_eq r.mailbox mailbox ≡ false
        → collect api (picked ((k, b) ∷ l)) ≡ collect api (picked l)
    unfolding collect keep_if
    collect_out k b l r e = ground (arith, Row-in_range k b r)

    pub weigh_in-Row :
        (f : StoredValue → ℕ) (k : Text) (b : Bytes) (r : Row api n k b)
        → weigh_in api mailbox f (k, b) ≡ (if text_eq r.mailbox mailbox then f r.value else 0)
    unfolding weigh_in
    weigh_in-Row f k b r = ground (arith, Row-parse_mailbox k b r, r.decoded)

  module _ (mailbox : Text) (free : IsFreeOf b':' mailbox) (n : ℕ) (db : Envelopes) where
    sum_by-collect :
        (f : StoredValue → ℕ) (l : Assoc Bytes)
        → All (Found n db) l
        → sum_by (λ p. f p.1) (collect api (picked mailbox free n l))
          ≡ sum_by (weigh_in api mailbox f) l
    unfolding sum_by
    sum_by-collect f [] h = unfold collect keep_if in refl
    sum_by-collect f ((k, b) ∷ l) h =
        let r = h.0.1 in
        elim (Bool-cases (text_eq r.mailbox mailbox)) [
          | inl e ↦
              rw (collect_in mailbox free n k b l r e)
                (ground (arith, weigh_in-Row mailbox free n f k b r, sum_by-collect f l h.1))
          | inr e ↦
              rw (collect_out mailbox free n k b l r e)
                (ground (arith, weigh_in-Row mailbox free n f k b r, sum_by-collect f l h.1))
        ]

    collect-Stored :
        (l : Assoc Bytes)
        → All (Found n db) l
        → All (Stored db mailbox) (collect api (picked mailbox free n l))
    collect-Stored [] h = unfold collect keep_if in tt
    collect-Stored ((k, b) ∷ l) h =
        let r = h.0.1 in
        elim (Bool-cases (text_eq r.mailbox mailbox)) [
          | inl e ↦
              let same : r.mailbox ≡ mailbox = (text_eq_iff r.mailbox mailbox).0 e in
              let key : k ≡ key_for api mailbox r.id =
                r.key_eq ∙ ap (λ m. key_for api m r.id) same in
              rw (collect_in mailbox free n k b l r e)
                ((b, ap (get_row db) (sym key) ∙ h.0.0, r.decoded), collect-Stored l h.1)
          | inr e ↦ rw (collect_out mailbox free n k b l r e) (collect-Stored l h.1)
        ]

    module _ (unique : UniqueSeqs api db) where
      collect-absent :
          (j : Text) (c : Bytes) (v : StoredValue) (l : Assoc Bytes)
          → All (Found n db) l
          → get_row db j ≡ some c
          → from_slice c ≡ some v
          → lookup j l ≡ none
          → All (λ y. v.s ≢ y.1.s) (collect api (picked mailbox free n l))
      collect-absent j c v [] h g d e = unfold collect keep_if in tt
      collect-absent j c v ((k, b) ∷ l) h g d e =
          let r = h.0.1 in
          let (other, later) = lookup-none-tail j k b l e in
          let rest = collect-absent j c v l h.1 g d later in
          elim (Bool-cases (text_eq r.mailbox mailbox)) [
            | inl here ↦
                rw (collect_in mailbox free n k b l r here)
                  ((λ same. other (sym (unique j k c b v r.value g h.0.0 d r.decoded same))), rest)
            | inr out ↦ rw (collect_out mailbox free n k b l r out) rest
          ]

      collect-Apart :
          (l : Assoc Bytes)
          → Distinct l
          → All (Found n db) l
          → Apart api (collect api (picked mailbox free n l))
      collect-Apart [] d h = unfold collect keep_if in tt
      collect-Apart ((k, b) ∷ l) d h =
          let r = h.0.1 in
          let rest = collect-Apart l d.1 h.1 in
          elim (Bool-cases (text_eq r.mailbox mailbox)) [
            | inl here ↦
                rw (collect_in mailbox free n k b l r here)
                  (collect-absent k b r.value l h.1 h.0.0 r.decoded d.0, rest)
            | inr out ↦ rw (collect_out mailbox free n k b l r out) rest
          ]

      -- The entries of a mailbox come with rising sequences: oldest first.
      pub mailbox_rows-Rising : AllRows api n db → Rising api (mailbox_rows api db mailbox)
      unfolding mailbox_rows
      mailbox_rows-Rising rows = rw (range_lem db (mailbox_lo mailbox) (mailbox_hi mailbox)) (
          sort-Rising api _
            (collect-Apart (entries db) (entries-Distinct db) (entries-Found n db rows)))

    -- Each entry that is read is a row of the mailbox.
    pub mailbox_rows-Stored :
        AllRows api n db → All (Stored db mailbox) (mailbox_rows api db mailbox)
    unfolding mailbox_rows
    mailbox_rows-Stored rows =
        rw (range_lem db (mailbox_lo mailbox) (mailbox_hi mailbox)) (
          sort-All api (Stored db mailbox) _
            (collect-Stored (entries db) (entries-Found n db rows)))

    -- Sums over the entries that are read are sums over the mailbox's rows.
    pub sum_by-mailbox_rows :
        (f : StoredValue → ℕ)
        → AllRows api n db
        → sum_by (λ p. f p.1) (mailbox_rows api db mailbox)
          ≡ total api.db (weigh_in api mailbox f) db
    unfolding mailbox_rows total
    sum_by-mailbox_rows f rows =
        rw (range_lem db (mailbox_lo mailbox) (mailbox_hi mailbox))
          (sum_by-sort api (λ p. f p.1) _ ∙ sum_by-collect f (entries db) (entries-Found n db rows))
