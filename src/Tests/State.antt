-- ===== src/Tests/State.antt =====
-- The shared state on concrete mailboxes.
use axeno_relay.Prelude.{
  ℕ, zero, suc, ◌≤◌, ◌≡◌, ◌≢◌, ◌⊎◌, ◌↔◌, inl, inr, refl, Bool, true, false, Option, none, some,
  List, [], ◌∷◌, arith, length, take, Bytes, Text, str, u64_mod, DbCall, sum_by,
}
use axeno_relay.Config.{max_delivery_tokens_per_mailbox}
use axeno_relay.Table.{TableApi, total}
use axeno_relay.Table.ByList.{list_table}
use axeno_relay.MetaStore.{Serde}
use axeno_relay.State.Tokens.{
  MailboxAuth, accepts_delivery_hash, ensure_delivery_hash, replace_delivery_hashes,
}
use axeno_relay.State.Tokens.Laws.{
  IsIn, ensure_delivery_hash-accepts, ensure_delivery_hash-no_other, ensure_delivery_hash-keeps,
  replace_delivery_hashes-accepts,
}
use axeno_relay.State.Bundle.{HostedBundle}
use axeno_relay.State.Runtime.{StateApi, AppState, collect_stale}
use axeno_relay.State.Runtime.Collection.{IsCounted, collect_stale-spares, collect_stale-IsCounted}
use axeno_relay.Tests.Crates.{queue_api, empty_queues, file_api, no_files}

abbrev pub auth : MailboxAuth
auth = record {
  receive_auth_hash = str "r";
  delivery_token_hash = str "a";
  delivery_token_hashes = str "a" ∷ [];
  last_active_ms = 86400000;
}

ensure_delivery_hash-accepts_example :
    (accepts_delivery_hash (ensure_delivery_hash (str "b") auth).1 (str "b") ≡ true)
    × (length (ensure_delivery_hash (str "b") auth).1.delivery_token_hashes
        ≤ max_delivery_tokens_per_mailbox)
ensure_delivery_hash-accepts_example = ensure_delivery_hash-accepts (str "b") auth (omega arith)

a_is_accepted_after : accepts_delivery_hash (ensure_delivery_hash (str "b") auth).1 (str "a") ≡ true
unfolding accepts_delivery_hash axeno_relay.Util.ct_eq ensure_delivery_hash
    axeno_relay.Prelude.text_eq
a_is_accepted_after = refl

ensure_delivery_hash-no_other_example :
    (str "a" ≡ str "b") ⊎ (accepts_delivery_hash auth (str "a") ≡ true)
ensure_delivery_hash-no_other_example =
    ensure_delivery_hash-no_other (str "b") auth (str "a") a_is_accepted_after

a_is_nonempty : str "a" ≢ []
a_is_nonempty e = cc

a_is_accepted : accepts_delivery_hash auth (str "a") ≡ true
unfolding accepts_delivery_hash axeno_relay.Util.ct_eq
a_is_accepted = refl

ensure_delivery_hash-keeps_example :
    accepts_delivery_hash (ensure_delivery_hash (str "b") auth).1 (str "a") ≡ true
ensure_delivery_hash-keeps_example =
    ensure_delivery_hash-keeps (str "b") auth (str "a") (omega arith) a_is_nonempty a_is_accepted

replace_delivery_hashes-accepts_example :
    ((accepts_delivery_hash (replace_delivery_hashes (str "a" ∷ str "a" ∷ []) auth) (str "a")
        ≡ true)
      ↔ IsIn (str "a") (take max_delivery_tokens_per_mailbox (str "a" ∷ str "a" ∷ [])))
    × (length (replace_delivery_hashes (str "a" ∷ str "a" ∷ []) auth).delivery_token_hashes
        ≤ max_delivery_tokens_per_mailbox)
replace_delivery_hashes-accepts_example =
    replace_delivery_hashes-accepts (str "a" ∷ str "a" ∷ []) auth (str "a") a_is_nonempty

-- A serializer that refuses everything is one that the laws allow.
abbrev pub no_json : (V : Type 0) → Serde V
no_json V = record { to_vec = λ v. none; from_slice = λ b. none; from_slice-to_vec = λ v b h. cc }

abbrev pub api : StateApi
api = record {
  queue_api = queue_api;
  meta_api = record {
    auth_json = no_json MailboxAuth;
    bundle_json = no_json HostedBundle;
    auth_table = list_table Bytes;
    bundle_table = list_table Bytes;
  };
  auths = list_table MailboxAuth;
  bundle_map = list_table HostedBundle;
  rates = list_table (ℕ × ℕ);
  marks = list_table (Unit {0});
  file_api = file_api;
  channels = list_table ℕ;
  ServerCertificate = Text;
  PrivateKey = Text;
}

-- Alice was active on the first day, Bob never; the rate window of Alice is full but for one.
abbrev state : AppState api
unfolding axeno_relay.Table.lookup axeno_relay.Prelude.text_eq
state = record {
  queues = empty_queues;
  meta = record {
    auth = record { items = []; distinct = tt };
    bundles = record { items = []; distinct = tt };
  };
  files = no_files;
  file_config = no_files.config;
  online = record { items = []; distinct = tt };
  mailbox_auth = record {
    items = (str "alice", auth) ∷ (str "bob", record auth { last_active_ms = 0 }) ∷ [];
    distinct = (refl, (refl, tt));
  };
  mailbox_count = 2;
  bundles = record { items = []; distinct = tt };
  total_bundle_bytes = 0;
  send_rate = record { items = (str "alice", (100, 119)) ∷ []; distinct = (refl, tt) };
  crypto = record {
    trust_root_public_b64 = str "root";
    server_certificate = str "cert";
    server_signing_private = str "key";
  };
  dirty_auth = record { items = []; distinct = tt };
  dirty_bundles = record { items = []; distinct = tt };
  conn_count = 0;
  last_bundle_prune_ms = 0;
}

alice_is_there : TableApi.get api.auths state.mailbox_auth (str "alice") ≡ some auth
unfolding axeno_relay.Table.lookup state
alice_is_there = refl

collect_stale-spares_example :
    TableApi.get api.auths
      (collect_stale api none 2592000001 (str "bob" ∷ str "alice" ∷ []) state).mailbox_auth
      (str "alice")
    ≡ some auth
unfolding axeno_relay.Prelude.saturating_sub
collect_stale-spares_example =
    collect_stale-spares api none 2592000001 (str "bob" ∷ str "alice" ∷ []) state (str "alice") auth
      alice_is_there refl

state-IsCounted : IsCounted api state
unfolding total state sum_by
state-IsCounted = record { counted = refl; bounded = omega arith }

collect_stale-IsCounted_example :
    IsCounted api (collect_stale api none 2592000001 (str "bob" ∷ str "alice" ∷ []) state)
collect_stale-IsCounted_example =
    collect_stale-IsCounted api none 2592000001 (str "bob" ∷ str "alice" ∷ []) state state-IsCounted

bob_is_collected :
    TableApi.get api.auths
      (collect_stale api none 2592000001 (str "bob" ∷ str "alice" ∷ []) state).mailbox_auth
      (str "bob")
    ≡ none
unfolding axeno_relay.Table.lookup collect_stale state axeno_relay.Prelude.saturating_sub
    axeno_relay.Table.ByList.remove axeno_relay.Table.without
bob_is_collected = refl

abbrev burst : List (ℕ × Text)
burst = (200, str "alice") ∷ (300, str "bob") ∷ (400, str "alice") ∷ []
