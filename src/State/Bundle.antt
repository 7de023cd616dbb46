-- ===== src/State/Bundle.antt =====
-- The hosted invite bundle of src/state.rs.
use axeno_relay.Prelude.{ℕ, Text}

pub record HostedBundle : Type 0 where
  pub id : Text
  pub ciphertext : Text
  pub created_at_ms : ℕ
  pub expires_at_ms : ℕ
