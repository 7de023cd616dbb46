-- ===== src/Persistence/Atomic.antt =====
-- A save of relay-state.json in src/persistence.rs is all or nothing.
use axeno_relay.Prelude.{
  ℕ, ◌≡◌, ◌⊎◌, inl, inr, refl, sym, ap, ◌∙◌, Bool, true, false, Option, some, none, arith, Bytes,
  Text, ok, err, Result, Option-cases, Bool-cases, text_eq, text_eq_refl, if◌then◌else◌,
}
use axeno_relay.MetaStore.{Serde}
use axeno_relay.Persistence.{PersistApi, State}
use axeno_relay.Persistence.Keys.{
  io_fails, create_file, write_file, sync_file, rename_file, Files, key_name,
}
use axeno_relay.Persistence.Disk.{SaveInputs, state_name, tmp_name, replace_state, save_disk_state}

tmp_is_not_state : (id : Text) → text_eq (tmp_name id) state_name ≡ false
unfolding text_eq
tmp_is_not_state id = refl

tmp_is_not_key : (id : Text) → text_eq (tmp_name id) key_name ≡ false
unfolding text_eq
tmp_is_not_key id = refl

state_is_not_key : text_eq state_name key_name ≡ false
unfolding text_eq
state_is_not_key = refl

module _ (api : PersistApi) where
  open api.files use {
    get as read_file, insert as put_file, remove as remove_file, get-insert, get-remove,
  }

  -- What a replacement leaves: with success the new contents and the old key file, and otherwise
  -- the old contents.
  pub replace_state-cases :
      (inp : SaveInputs) (raw : Bytes) (files : Files api)
      → ((replace_state api inp raw files).0 ≡ ok tt)
          × (read_file (replace_state api inp raw files).1 state_name ≡ some raw)
          × (read_file (replace_state api inp raw files).1 key_name ≡ read_file files key_name)
        ⊎ ((replace_state api inp raw files).0 ≡ err axeno_relay.Prelude.anyhow)
          × (read_file (replace_state api inp raw files).1 state_name ≡ read_file files state_name)
  unfolding replace_state
  replace_state-cases inp raw files =
      let tmp = tmp_name inp.id in
      let written = put_file files tmp raw in
      let moved = remove_file written tmp in
      elim (Bool-cases (io_fails inp.fault create_file)) [
        | inl f ↦ inr (rw (f, replace_state) (refl, refl))
        | inr a ↦ elim (Bool-cases (io_fails inp.fault write_file)) [
          | inl f ↦ inr (
              rw (a, f, replace_state)
                (
                  refl,
                  get-insert files tmp state_name inp.partial ∙ rw (tmp_is_not_state inp.id) refl,
                ))
          | inr b ↦ elim (Bool-cases (io_fails inp.fault sync_file)) [
            | inl f ↦ inr (
                rw (a, b, f, replace_state)
                  (refl, get-insert files tmp state_name raw ∙ rw (tmp_is_not_state inp.id) refl))
            | inr c ↦ elim (Bool-cases (io_fails inp.fault rename_file)) [
              | inl f ↦ inr (
                  rw (a, b, c, f, replace_state)
                    (
                      refl,
                      ground (
                        arith,
                        get-remove written tmp state_name,
                        get-insert files tmp state_name raw,
                        tmp_is_not_state inp.id,
                      ),
                    ))
              | inr d ↦ inl (
                  rw (a, b, c, d, replace_state)
                    (
                      refl,
                      get-insert moved state_name state_name raw
                          ∙ rw (text_eq_refl state_name) refl,
                      ground (
                        arith,
                        get-insert moved state_name key_name raw,
                        get-remove written tmp key_name,
                        get-insert files tmp key_name raw,
                        tmp_is_not_key inp.id,
                        state_is_not_key,
                      ),
                    ))
            ]
          ]
        ]
      ]

  -- Wherever a save stops, relay-state.json has its new contents whole, exactly when the save reports
  -- success, or its old ones.
  pub save_disk_state-IsAtomic :
      (inp : SaveInputs) (state : State api) (files : Files api)
      → ((save_disk_state api inp state files).0 ≡ ok tt)
          × ((raw : Bytes) × (Serde.to_vec api.state_json state ≡ some raw)
              × (read_file (save_disk_state api inp state files).1 state_name ≡ some raw))
        ⊎ ((save_disk_state api inp state files).0 ≡ err axeno_relay.Prelude.anyhow)
          × (read_file (save_disk_state api inp state files).1 state_name
              ≡ read_file files state_name)
  unfolding save_disk_state
  save_disk_state-IsAtomic inp state files =
      elim (Option-cases (Serde.to_vec api.state_json state)) [
        | inl e ↦ inr (rw (e, save_disk_state) (refl, refl))
        | inr (raw, e) ↦
            rw (e, save_disk_state)
              (elim (replace_state-cases inp raw files) [
                | inl (done, there, _) ↦ inl (done, (raw, refl, there))
                | inr (failed, same) ↦ inr (failed, same)
              ])
      ]
