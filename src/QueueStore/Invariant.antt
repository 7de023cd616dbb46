-- ===== src/QueueStore/Invariant.antt =====
-- The invariant of the queue store: what its rows are, and that the counters in memory agree with
-- them.
use axeno_relay.Prelude.{
  ℕ, ◌≡◌, ◌<◌, Bool, false, none, some, if◌then◌else◌, length, Bytes, Text, text_eq, IsFreeOf,
}
use axeno_relay.Table.{total}
use axeno_relay.QueueStore.{QueueApi, QueueStore, StoredValue, key_for, parse_mailbox, index_of}

abbrev pub one : StoredValue → ℕ
one v = 1

abbrev pub cipher_bytes : StoredValue → ℕ
cipher_bytes v = length v.c

module _ (api : QueueApi) where
  open api use {Uuid, from_slice}
  open api.db use {Table as Envelopes, get as get_row}

  -- Whether a row's key belongs to the mailbox.
  abbrev pub is_in : Text → Text × Bytes → Bool
  is_in mailbox (key, bytes) = elim (parse_mailbox key) [
    | none ↦ false
    | some owner ↦ text_eq owner mailbox
  ]

  abbrev pub value_measure : (StoredValue → ℕ) → Bytes → ℕ
  value_measure f bytes = elim (from_slice bytes) [ none ↦ 0 | some v ↦ f v ]

  -- A measure of a row's value, and the same for the rows of one mailbox only.
  unfoldable pub weigh : (StoredValue → ℕ) → Text × Bytes → ℕ
  weigh f (key, bytes) = value_measure f bytes

  unfoldable pub weigh_in : Text → (StoredValue → ℕ) → Text × Bytes → ℕ
  weigh_in mailbox f (key, bytes) = if is_in mailbox (key, bytes) then value_measure f bytes else 0

  -- A row that `enqueue` wrote: its key is that of a mailbox without a colon, and its value can be
  -- read and has a sequence below `n`.
  pub record Row (n : ℕ) (key : Text) (bytes : Bytes) : Type 0 where
    pub mailbox : Text
    pub id : Uuid
    pub value : StoredValue
    pub free : IsFreeOf b':' mailbox
    pub key_eq : key ≡ key_for api mailbox id
    pub decoded : from_slice bytes ≡ some value
    pub before : value.s < n

  abbrev pub AllRows : ℕ → Envelopes → Type 0
  AllRows n db = (key : Text) (bytes : Bytes) → get_row db key ≡ some bytes → Row n key bytes

  -- No two rows have the same sequence.
  abbrev pub UniqueSeqs : Envelopes → Type 0
  UniqueSeqs db =
      (j k : Text) (b c : Bytes) (v w : StoredValue)
      → get_row db j ≡ some b
      → get_row db k ≡ some c
      → from_slice b ≡ some v
      → from_slice c ≡ some w
      → v.s ≡ w.s
      → j ≡ k

  pub record IsConsistent (s : QueueStore api) : Type 0 where
    pub rows : AllRows s.next_seq s.db
    pub unique : UniqueSeqs s.db
    pub total_bytes : s.total_bytes ≡ total api.db (weigh cipher_bytes) s.db
    pub counts :
        (mailbox : Text)
        → (index_of api s.index mailbox).0 ≡ total api.db (weigh_in mailbox one) s.db
    pub bytes :
        (mailbox : Text)
        → (index_of api s.index mailbox).1 ≡ total api.db (weigh_in mailbox cipher_bytes) s.db
