-- ===== src/QueueStore/Removing.antt =====
-- Removing rows of one mailbox by their ids: what is left, and what the sums lose.
use axeno_relay.Prelude.{
  ℕ, zero, suc, ◌+◌, ◌<◌, ◌≡◌, ◌≢◌, refl, ap, ◌∙◌, Option, none, some, List, [], ◌∷◌, arith,
  if◌then◌else◌, All, sum_by, Text, text_eq, text_eq_iff, IsFreeOf, map, ok, DbCall, anyhow,
  past_call, remove_row, Bytes, take,
}
use axeno_relay.Table.{total, total-remove, share}
use axeno_relay.QueueStore.{QueueApi, StoredValue, key_for, remove_ids}
use axeno_relay.QueueStore.Invariant.{weigh, weigh_in}
use axeno_relay.QueueStore.Keys.{parse_mailbox-key_for}
use axeno_relay.QueueStore.Sorting.{Entry, Rising}
use axeno_relay.QueueStore.Reading.{Stored}

module _ (api : QueueApi) where
  open api use {Uuid, from_slice}
  open api.db use {Table as Envelopes, get as get_row, remove as remove_at, get-remove}

  unfoldable pub remove_all : Text → List Uuid → Envelopes → Envelopes
  remove_all mailbox [] db = db
  remove_all mailbox (id ∷ ids) db = remove_all mailbox ids (remove_at db (key_for api mailbox id))

  -- A transaction that gets through has removed all the rows.
  pub remove_ids-eq_ok :
      (fault : Option DbCall) (mailbox : Text) (ids : List Uuid) (db : Envelopes) {db' : Envelopes}
      → remove_ids api fault mailbox ids db ≡ ok db'
      → db' ≡ remove_all mailbox ids db
  unfolding remove_ids remove_all
  remove_ids-eq_ok fault mailbox [] db h = cc
  remove_ids-eq_ok fault mailbox (id ∷ ids) db h =
      remove_ids-eq_ok fault mailbox ids (remove_at db (key_for api mailbox id))
        (past_call fault anyhow remove_row _ h)

  pub remove_ids-none :
      (mailbox : Text) (ids : List Uuid) (db : Envelopes)
      → remove_ids api none mailbox ids db ≡ ok (remove_all mailbox ids db)
  unfolding remove_ids remove_all
  remove_ids-none mailbox [] db = refl
  remove_ids-none mailbox (id ∷ ids) db =
      remove_ids-none mailbox ids (remove_at db (key_for api mailbox id))

  -- Each entry is a row still there when its turn to be removed comes.
  abbrev pub Present : Text → Envelopes → List (Entry api) → Type 0
  Present mailbox db [] = Unit {0}
  Present mailbox db (p ∷ l) =
      Stored api db mailbox p × Present mailbox (remove_at db (key_for api mailbox p.0)) l

  pub Present-take :
      (mailbox : Text) (db : Envelopes) (n : ℕ) (l : List (Entry api))
      → Present mailbox db l
      → Present mailbox db (take n l)
  unfolding take
  Present-take mailbox db zero l h = tt
  Present-take mailbox db (suc n) [] h = tt
  Present-take mailbox db (suc n) (p ∷ l) h =
      (h.0, Present-take mailbox (remove_at db (key_for api mailbox p.0)) n l h.1)

  pub get-remove_ne :
      (db : Envelopes) (j k : Text) → j ≢ k → get_row (remove_at db j) k ≡ get_row db k
  get-remove_ne db j k h = ground (arith, get-remove db j k, text_eq_iff j k)

  module _ (mailbox : Text) (free : IsFreeOf b':' mailbox) where
    -- Entries with a later sequence outlive the removal of one entry.
    pub Stored-remove :
        (db : Envelopes) (p : Entry api) (l : List (Entry api))
        → Stored api db mailbox p
        → All (λ q. p.1.s < q.1.s) l
        → All (Stored api db mailbox) l
        → All (Stored api (remove_at db (key_for api mailbox p.0)) mailbox) l
    Stored-remove db p [] here lt h = tt
    Stored-remove db p (q ∷ l) here lt h =
        let (b, at, decoded) = h.0 in
        (
          (
            b,
            get-remove_ne db (key_for api mailbox p.0) (key_for api mailbox q.0) (λ e.
                  let same : p.1 ≡ q.1 =
                    ground (arith, ap (get_row db) e, here.1, here.2, at, decoded) in
                  omega (arith, ap (λ (v : StoredValue). v.s) same))
                ∙ at,
            decoded,
          ),
          Stored-remove db p l here lt.1 h.1,
        )

    -- Distinct sequences make distinct ids, so every entry is present in its turn.
    pub Present-of_Rising :
        (db : Envelopes) (l : List (Entry api))
        → All (Stored api db mailbox) l
        → Rising api l
        → Present mailbox db l
    Present-of_Rising db [] h r = tt
    Present-of_Rising db (p ∷ l) h r = (
      h.0,
      Present-of_Rising (remove_at db (key_for api mailbox p.0)) l
          (Stored-remove db p l h.0 r.0 h.1) r.1,
    )

    weigh-entry :
        (f : StoredValue → ℕ) (db : Envelopes) (p : Entry api)
        → Stored api db mailbox p
        → share (weigh api f) (key_for api mailbox p.0) (get_row db (key_for api mailbox p.0))
          ≡ f p.1
    unfolding weigh
    weigh-entry f db p (b, at, decoded) = rw at (ground (arith, decoded))

    weigh_in-entry :
        (m : Text) (f : StoredValue → ℕ) (db : Envelopes) (p : Entry api)
        → Stored api db mailbox p
        → share (weigh_in api m f) (key_for api mailbox p.0) (get_row db (key_for api mailbox p.0))
          ≡ (if text_eq mailbox m then f p.1 else 0)
    unfolding weigh_in
    weigh_in-entry m f db p (b, at, decoded) =
        rw at (ground (arith, decoded, parse_mailbox-key_for api mailbox p.0 free))

    -- What the removal of present entries takes off a sum over all rows.
    pub total-remove_all :
        (f : StoredValue → ℕ) (db : Envelopes) (l : List (Entry api))
        → Present mailbox db l
        → total api.db (weigh api f) (remove_all mailbox (map (λ p. p.0) l) db)
            + sum_by (λ p. f p.1) l
          ≡ total api.db (weigh api f) db
    unfolding remove_all sum_by
    total-remove_all f db [] h = omega arith
    total-remove_all f db (p ∷ l) h = omega (
      arith,
      weigh-entry f db p h.0,
      total-remove api.db (weigh api f) db (key_for api mailbox p.0),
      total-remove_all f (remove_at db (key_for api mailbox p.0)) l h.1,
    )

    -- So for the rows of one mailbox, which is the one of the entries or another.
    pub total-remove_all_in :
        (m : Text) (f : StoredValue → ℕ) (db : Envelopes) (l : List (Entry api))
        → Present mailbox db l
        → total api.db (weigh_in api m f) (remove_all mailbox (map (λ p. p.0) l) db)
            + (if text_eq mailbox m then sum_by (λ p. f p.1) l else 0)
          ≡ total api.db (weigh_in api m f) db
    unfolding remove_all sum_by
    total-remove_all_in m f db [] h = ground arith
    total-remove_all_in m f db (p ∷ l) h = ground (
      arith,
      weigh_in-entry m f db p h.0,
      total-remove api.db (weigh_in api m f) db (key_for api mailbox p.0),
      total-remove_all_in m f (remove_at db (key_for api mailbox p.0)) l h.1,
    )

  -- A row that is left was there before.
  pub get-remove_all :
      (mailbox : Text) (ids : List Uuid) (db : Envelopes) (k : Text) (b : Bytes)
      → get_row (remove_all mailbox ids db) k ≡ some b
      → get_row db k ≡ some b
  unfolding remove_all
  get-remove_all mailbox [] db k b h = h
  get-remove_all mailbox (id ∷ ids) db k b h =
      let e = get-remove_all mailbox ids (remove_at db (key_for api mailbox id)) k b h in
      ground (arith, e, get-remove db (key_for api mailbox id) k)
