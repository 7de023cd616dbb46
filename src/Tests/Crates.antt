-- ===== src/Tests/Crates.antt =====
-- Concrete instances of the crates that the stores are built on: tables as association lists, ids as
-- texts, and values encoded as numbers with the lengths of their texts in front.
use axeno_relay.Prelude.{
  ℕ, ◌≡◌, refl, ap, Option, none, some, [], ◌∷◌, ◌++◌, arith, length, drop, take, Bytes, Text, not,
  ◌&&◌, keep_if, text_lt,
}
use axeno_relay.Table.ByList.{list_table}
use axeno_relay.QueueStore.{QueueApi, QueueStore, StoredValue}
use axeno_relay.FileStore.{FileApi, FileStore, FileMeta}

pub take-append : (xs ys : Bytes) → take (length xs) (xs ++ ys) ≡ xs
unfolding take
take-append [] ys = refl
take-append (x ∷ xs) ys = ap (◌∷◌ x) (take-append xs ys)

pub drop-append : (xs ys : Bytes) → drop (length xs) (xs ++ ys) ≡ ys
drop-append [] ys = refl
drop-append (x ∷ xs) ys = drop-append xs ys

unfoldable pub encode : StoredValue → Option Bytes
encode v = some (length v.t ∷ v.q ∷ v.s ∷ (v.t ++ v.c))

unfoldable pub decode : Bytes → Option StoredValue
decode (n ∷ q ∷ s ∷ rest) = some (record { t = take n rest; c = drop n rest; q = q; s = s })
decode _ = none

pub decode-encode : (v : StoredValue) (b : Bytes) → encode v ≡ some b → decode b ≡ some v
unfolding encode decode
decode-encode v b h =
    let e : length v.t ∷ v.q ∷ v.s ∷ (v.t ++ v.c) ≡ b = ground arith in
    rw (← e) (λ i.
      some (record { t = take-append v.t v.c i; c = drop-append v.t v.c i; q = v.q; s = v.s }))

abbrev pub queue_api : QueueApi
queue_api = record {
  Uuid = Text;
  display = λ id. id;
  parse_str = some;
  parse_str-display = λ id. refl;
  to_vec = encode;
  from_slice = decode;
  from_slice-to_vec = decode-encode;
  db = list_table Bytes;
  range = λ t lo hi. keep_if (λ e. not (text_lt e.0 lo) && text_lt e.0 hi) t.items;
  range_lem = λ t lo hi. refl;
  index = list_table (ℕ × ℕ);
}

abbrev pub empty_queues : QueueStore queue_api
empty_queues = record {
  db = record { items = []; distinct = tt };
  total_bytes = 0;
  next_seq = 0;
  index = record { items = []; distinct = tt };
}

unfoldable pub encode_meta : FileMeta → Option Bytes
encode_meta m =
    some
      (m.total_chunks ∷ m.total_bytes ∷ m.stored_bytes ∷ m.received_chunks ∷ m.created_at_ms ∷ [])

unfoldable pub decode_meta : Bytes → Option FileMeta
decode_meta (a ∷ b ∷ c ∷ d ∷ e ∷ []) = some (record {
  total_chunks = a;
  total_bytes = b;
  stored_bytes = c;
  received_chunks = d;
  created_at_ms = e;
})
decode_meta _ = none

pub decode_meta-encode_meta :
    (m : FileMeta) (b : Bytes) → encode_meta m ≡ some b → decode_meta b ≡ some m
unfolding encode_meta decode_meta
decode_meta-encode_meta m b h = ground (arith, h)

abbrev pub file_api : FileApi
file_api = record {
  to_vec = encode_meta;
  from_slice = decode_meta;
  from_slice-to_vec = decode_meta-encode_meta;
  file_meta = list_table Bytes;
  file_chunks = list_table Bytes;
  range = λ t lo hi. keep_if (λ e. not (text_lt e.0 lo) && text_lt e.0 hi) t.items;
  range_lem = λ t lo hi. refl;
  meta = list_table FileMeta;
}

abbrev pub no_files : FileStore file_api
no_files = record {
  file_meta = record { items = []; distinct = tt };
  file_chunks = record { items = []; distinct = tt };
  config = record {
    max_file_bytes = 100;
    max_total_file_bytes = 1000;
    file_ttl_ms = 60000;
    max_transfers = 10;
    max_chunks = 10;
  };
  meta = record { items = []; distinct = tt };
  reserved_bytes = 0;
  transfer_count = 0;
}
