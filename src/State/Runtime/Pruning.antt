-- ===== src/State/Runtime/Pruning.antt =====
-- Which bundles the pruning in src/state.rs takes, and what it does to the byte total.
use axeno_relay.Prelude.{
  ℕ, ◌+◌, ◌-◌, ◌⊎◌, sum_by-one, ◌≤◌, ◌<◌, ◌≡◌, ◌∙◌, sym, ap, refl, true, not, ◌&&◌, none, some,
  List, [], ◌∷◌, arith, leb, ltb, ◌==◌, length, Bool-cases, Option-cases, inl, inr, if◌then◌else◌,
  Text, text_eq, text_eq_iff, text_eq_refl, is_some, saturating_sub, saturating_add, u64_mod,
  saturating_add-eq_of_lt,
}
use axeno_relay.Config.{bundle_prune_min_interval_ms, max_bundles, max_total_bundle_bytes}
use axeno_relay.Table.{TableApi, Assoc, Distinct, lookup, total, total-remove, share}
use axeno_relay.Util.{atomic_sub_saturating}
use axeno_relay.State.Bundle.{HostedBundle}
use axeno_relay.State.Runtime.{
  StateApi, AppState, expired_bundles, drop_bundles, mark_bundle_dirty, prune_expired_bundles,
}

abbrev pub bundle_bytes : Text × HostedBundle → ℕ
bundle_bytes (id, bundle) = length bundle.ciphertext

module _ (api : StateApi) where
  open api use {bundle_map}

  -- What the list of expired bundles has for an id.
  expired-lookup :
      (now : ℕ) (l : Assoc HostedBundle) (id : Text) (len : ℕ)
      → Distinct l
      → lookup id (expired_bundles api now l) ≡ some len
      → (b : HostedBundle) × (lookup id l ≡ some b)
        × (leb b.expires_at_ms now ≡ true)
        × (length b.ciphertext ≡ len)
  unfolding expired_bundles lookup
  expired-lookup now [] id len d h = absurd cc
  expired-lookup now ((j, b) ∷ rest) id len (fresh, d) h =
      let later = expired-lookup now rest id len d in
      elim (Bool-cases (leb b.expires_at_ms now)) [
        | inr live ↦
            let (b', found, old, same) = later (ground (arith, h, live)) in
            (b', ground (arith, found, fresh, text_eq_iff j id), old, same)
        | inl old ↦ elim (Bool-cases (text_eq j id)) [
          | inl here ↦ (b, rw here refl, old, ground (arith, h, old, here))
          | inr away ↦
              let (b', found, gone, same) = later (ground (arith, h, old, away)) in
              (b', rw away found, gone, same)
        ]
      ]

  expired-Distinct :
      (now : ℕ) (l : Assoc HostedBundle) → Distinct l → Distinct (expired_bundles api now l)
  unfolding expired_bundles
  expired-Distinct now [] d = tt
  expired-Distinct now ((j, b) ∷ rest) (fresh, d) =
      let later = expired-Distinct now rest d in
      elim (Bool-cases (leb b.expires_at_ms now)) [
        | inr live ↦ rw live later
        | inl old ↦ rw old (elim (Option-cases (lookup j (expired_bundles api now rest))) [
          | inl e ↦ (e, later)
          | inr (len, e) ↦ let (b', found, _, _) = expired-lookup now rest j len d e in absurd cc
        ])
      ]

  get-drop_bundles :
      (l : List (Text × ℕ)) (freed : ℕ) (s : AppState api) (id : Text)
      → TableApi.get bundle_map (drop_bundles api l freed s).1.bundles id
        ≡ (if is_some (lookup id l) then none else TableApi.get bundle_map s.bundles id)
  unfolding drop_bundles mark_bundle_dirty lookup
  get-drop_bundles [] freed s id = refl
  get-drop_bundles ((j, len) ∷ rest) freed s id =
      let removed = record s { bundles = TableApi.remove bundle_map s.bundles j } in
      let here = TableApi.get-remove bundle_map s.bundles j id in
      elim (Option-cases (TableApi.get bundle_map s.bundles j)) [
        | inl e ↦ ground (arith, get-drop_bundles rest freed removed id, here, e, text_eq_iff j id)
        | inr (b, e) ↦ ground (
          arith,
          get-drop_bundles rest (saturating_add freed len) (mark_bundle_dirty api j removed) id,
          here,
          e,
          text_eq_iff j id,
        )
      ]

  -- The lengths in the list are those of the bundles.
  abbrev Measured : List (Text × ℕ) → AppState api → Type 0
  Measured l s =
      (id : Text) (len : ℕ) (b : HostedBundle)
      → lookup id l ≡ some len
      → TableApi.get bundle_map s.bundles id ≡ some b
      → length b.ciphertext ≡ len

  abbrev hosted_bytes : AppState api → ℕ
  hosted_bytes s = total bundle_map bundle_bytes s.bundles

  Measured-tail :
      (j : Text) (len : ℕ) (rest : List (Text × ℕ)) (s : AppState api)
      → lookup j rest ≡ none
      → Measured ((j, len) ∷ rest) s
      → Measured rest (record s { bundles = TableApi.remove bundle_map s.bundles j })
  unfolding lookup
  Measured-tail j len rest s fresh m id n b found there = ground (
    arith,
    found,
    fresh,
    there,
    TableApi.get-remove bundle_map s.bundles j id,
    m id n b,
    text_eq_iff j id,
  )

  -- The bytes counted as freed are those that the table lost.
  drop_bundles-bytes :
      (l : List (Text × ℕ)) (freed : ℕ) (s : AppState api)
      → Distinct l
      → Measured l s
      → freed + hosted_bytes s < u64_mod
      → (drop_bundles api l freed s).0 + hosted_bytes (drop_bundles api l freed s).1
        ≡ freed + hosted_bytes s
  unfolding drop_bundles mark_bundle_dirty lookup
  drop_bundles-bytes [] freed s d m h = refl
  drop_bundles-bytes ((j, len) ∷ rest) freed s (fresh, d) m h =
      let removed = record s { bundles = TableApi.remove bundle_map s.bundles j } in
      let parts = total-remove bundle_map bundle_bytes s.bundles j in
      let m' = Measured-tail j len rest s fresh m in
      elim (Option-cases (TableApi.get bundle_map s.bundles j)) [
        | inl e ↦
            let same = ap (share bundle_bytes j) e in
            rw e (drop_bundles-bytes rest freed removed d m' (omega arith) ∙ omega arith)
        | inr (b, e) ↦
            let gone = ap (share bundle_bytes j) e in
            let len_eq = m j len b (rw (text_eq_refl j) refl) e in
            let sum = saturating_add-eq_of_lt freed len (omega arith) in
            rw e (
              drop_bundles-bytes rest (saturating_add freed len) (mark_bundle_dirty api j removed) d
                m' (omega arith)
              ∙ omega arith)
      ]

  pub drop_bundles-frame :
      (l : List (Text × ℕ)) (freed : ℕ) (s : AppState api)
      → (drop_bundles api l freed s).1 ≡ record s {
        bundles = (drop_bundles api l freed s).1.bundles;
        dirty_bundles = (drop_bundles api l freed s).1.dirty_bundles;
      }
  unfolding drop_bundles mark_bundle_dirty
  drop_bundles-frame [] freed s = refl
  drop_bundles-frame ((j, len) ∷ rest) freed s =
      let removed = record s { bundles = TableApi.remove bundle_map s.bundles j } in
      elim (Option-cases (TableApi.get bundle_map s.bundles j)) [
        | inl e ↦ rw e (drop_bundles-frame rest freed removed)
        | inr (b, e) ↦
            rw e
              (drop_bundles-frame rest (saturating_add freed len) (mark_bundle_dirty api j removed))
      ]

  abbrev pub hosted_count : AppState api → ℕ
  hosted_count s = length (TableApi.entries bundle_map s.bundles)

  pub count-total :
      (t : TableApi.Table bundle_map)
      → total bundle_map (λ e. 1) t ≡ length (TableApi.entries bundle_map t)
  unfolding total
  count-total t = sum_by-one (TableApi.entries bundle_map t)

  drop_bundles-count :
      (l : List (Text × ℕ)) (freed : ℕ) (s : AppState api)
      → hosted_count (drop_bundles api l freed s).1 ≤ hosted_count s
  unfolding drop_bundles mark_bundle_dirty
  drop_bundles-count [] freed s = omega arith
  drop_bundles-count ((j, len) ∷ rest) freed s =
      let removed = record s { bundles = TableApi.remove bundle_map s.bundles j } in
      let parts = total-remove bundle_map (λ e. 1) s.bundles j in
      let before = count-total s.bundles in
      let after = count-total removed.bundles in
      elim (Option-cases (TableApi.get bundle_map s.bundles j)) [
        | inl e ↦ rw e (omega (arith, drop_bundles-count rest freed removed))
        | inr (b, e) ↦ rw e (
            omega (
              arith,
              drop_bundles-count rest (saturating_add freed len) (mark_bundle_dirty api j removed),
            ))
      ]

  -- The bundles are under their ids and within both caps, and the byte total is theirs.
  pub record IsHosted (s : AppState api) : Type 0 where
    pub keyed :
        (id : Text) (b : HostedBundle) → TableApi.get bundle_map s.bundles id ≡ some b → b.id ≡ id
    pub total_bytes : s.total_bundle_bytes ≡ total bundle_map bundle_bytes s.bundles
    pub bytes : s.total_bundle_bytes ≤ max_total_bundle_bytes
    pub count : hosted_count s ≤ max_bundles

  -- The pruning, where it runs.
  module _ (now : ℕ) (s : AppState api) where
    abbrev expired : List (Text × ℕ)
    expired = expired_bundles api now (TableApi.entries bundle_map s.bundles)

    abbrev scanned : AppState api
    scanned = record s { last_bundle_prune_ms = now }

    abbrev dropped : ℕ × AppState api
    dropped = drop_bundles api expired 0 scanned

    prune-cases :
        (prune_expired_bundles api now s ≡ s)
        ⊎ (prune_expired_bundles api now s
            ≡ record dropped.1 { total_bundle_bytes = s.total_bundle_bytes - dropped.0 })
    unfolding prune_expired_bundles atomic_sub_saturating saturating_sub
    prune-cases =
        elim (Bool-cases (
          ltb (saturating_sub now s.last_bundle_prune_ms) bundle_prune_min_interval_ms
          && not (s.last_bundle_prune_ms == 0))) [
            | inl recent ↦ inl (rw recent refl)
            | inr due ↦ inr (
                rw due (
                  ap (λ n. record dropped.1 { total_bundle_bytes = n - dropped.0 })
                    (ap (λ t. t.total_bundle_bytes) (drop_bundles-frame expired 0 scanned))))
          ]

    get-dropped :
        (id : Text)
        → TableApi.get bundle_map dropped.1.bundles id
          ≡ (if is_some (lookup id expired) then none else TableApi.get bundle_map s.bundles id)
    get-dropped id = get-drop_bundles expired 0 scanned id

    -- A bundle that has not expired stays.
    pub prune_expired_bundles-keeps :
        (id : Text) (b : HostedBundle)
        → TableApi.get bundle_map s.bundles id ≡ some b
        → now < b.expires_at_ms
        → TableApi.get bundle_map (prune_expired_bundles api now s).bundles id ≡ some b
    prune_expired_bundles-keeps id b here live = elim prune-cases [
      | inl same ↦ rw same here
      | inr pruned ↦ rw pruned (
          get-dropped id ∙ elim (Option-cases (lookup id expired)) [
            | inl e ↦ rw e here
            | inr (len, e) ↦
                let entries = TableApi.entries bundle_map s.bundles in
                let (b', found, old, _) =
                  expired-lookup now entries id len (TableApi.entries-Distinct bundle_map s.bundles)
                    e in
                absurd (
                  ground (
                    arith,
                    TableApi.lookup-entries bundle_map s.bundles id,
                    found,
                    old,
                    here,
                    live,
                  ))
          ])
    ]

    -- And none comes into being.
    pub prune_expired_bundles-adds_none :
        (id : Text) (b : HostedBundle)
        → TableApi.get bundle_map (prune_expired_bundles api now s).bundles id ≡ some b
        → TableApi.get bundle_map s.bundles id ≡ some b
    prune_expired_bundles-adds_none id b = elim prune-cases [
      | inl same ↦ rw same (λ h. h)
      | inr pruned ↦ rw pruned (λ h. ground (arith, h, get-dropped id))
    ]

    expired-Measured : Measured expired scanned
    expired-Measured id len b found there =
        let entries = TableApi.entries bundle_map s.bundles in
        let (b', found', _, len_eq) =
          expired-lookup now entries id len (TableApi.entries-Distinct bundle_map s.bundles)
            found in
        let same : some b' ≡ some b =
          sym found' ∙ TableApi.lookup-entries bundle_map s.bundles id ∙ there in
        ground (arith, same, len_eq)

    pub prune_expired_bundles-IsHosted : IsHosted s → IsHosted (prune_expired_bundles api now s)
    prune_expired_bundles-IsHosted v = elim prune-cases [
      | inl same ↦ rw same v
      | inr pruned ↦
          let entries = TableApi.entries bundle_map s.bundles in
          let d = expired-Distinct now entries (TableApi.entries-Distinct bundle_map s.bundles) in
          let bytes =
            drop_bundles-bytes expired 0 scanned d expired-Measured
              (omega (arith, v.total_bytes, v.bytes)) in
          let count = drop_bundles-count expired 0 scanned in
          let kept = prune_expired_bundles-adds_none in
          record {
            keyed = λ id b h. v.keyed id b (kept id b h);
            total_bytes = rw pruned (omega (arith, bytes, v.total_bytes));
            bytes = rw pruned (omega (arith, v.bytes));
            count = rw pruned (omega (arith, count, v.count));
          }
    ]

    -- The pruning leaves the mailboxes and the connections alone.
    pub prune_expired_bundles-frame :
        ((prune_expired_bundles api now s).mailbox_auth ≡ s.mailbox_auth)
        × ((prune_expired_bundles api now s).mailbox_count ≡ s.mailbox_count)
        × ((prune_expired_bundles api now s).conn_count ≡ s.conn_count)
    prune_expired_bundles-frame =
        let frame = drop_bundles-frame expired 0 scanned in
        elim prune-cases [
          | inl same ↦ rw same (refl, refl, refl)
          | inr pruned ↦ rw pruned (
            ap (λ t. t.mailbox_auth) frame,
            ap (λ t. t.mailbox_count) frame,
            ap (λ t. t.conn_count) frame,
          )
        ]
