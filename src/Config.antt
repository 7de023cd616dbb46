-- ===== src/Config.antt =====
-- src/config.rs: the limits and protocol constants, and the operator's file-transfer limits.
pub mod Env
use axeno_relay.Prelude.{ℕ, ◌*◌}

abbrev pub max_queue_per_recipient : ℕ
max_queue_per_recipient = 500

abbrev pub max_frame_bytes : ℕ
max_frame_bytes = 512 * 1024

abbrev pub per_mailbox_queue_bytes : ℕ
per_mailbox_queue_bytes = 8 * 1024 * 1024

abbrev pub global_queue_disk_cap_bytes : ℕ
global_queue_disk_cap_bytes = 4 * 1024 * 1024 * 1024

abbrev pub queue_ttl_ms : ℕ
queue_ttl_ms = 14 * 24 * 60 * 60 * 1000

abbrev pub protocol_min_supported : ℕ
protocol_min_supported = 4

abbrev pub protocol_version : ℕ
protocol_version = 7

abbrev pub sender_cert_ttl_ms : ℕ
sender_cert_ttl_ms = 24 * 60 * 60 * 1000

abbrev pub rate_window_ms : ℕ
rate_window_ms = 60 * 1000

abbrev pub max_frames_per_window : ℕ
max_frames_per_window = 600

abbrev pub max_mailboxes : ℕ
max_mailboxes = 50_000

abbrev pub max_delivery_tokens_per_mailbox : ℕ
max_delivery_tokens_per_mailbox = 64

abbrev pub max_bundles : ℕ
max_bundles = 50_000

abbrev pub max_bundle_bytes : ℕ
max_bundle_bytes = 16 * 1024

abbrev pub max_total_bundle_bytes : ℕ
max_total_bundle_bytes = 64 * 1024 * 1024

abbrev pub max_bundle_ttl_ms : ℕ
max_bundle_ttl_ms = 30 * 24 * 60 * 60 * 1000

abbrev pub max_sends_per_dest_per_window : ℕ
max_sends_per_dest_per_window = 120

abbrev pub pow_leading_zero_bits : ℕ
pow_leading_zero_bits = 22

abbrev pub mailbox_idle_ttl_ms : ℕ
mailbox_idle_ttl_ms = 30 * 24 * 60 * 60 * 1000

abbrev pub mailbox_activity_granularity_ms : ℕ
mailbox_activity_granularity_ms = 24 * 60 * 60 * 1000

abbrev pub max_connections : ℕ
max_connections = 16_384

abbrev pub bundle_prune_min_interval_ms : ℕ
bundle_prune_min_interval_ms = 30 * 1000

abbrev pub default_max_file_mib : ℕ
default_max_file_mib = 32

abbrev pub default_max_total_file_mib : ℕ
default_max_total_file_mib = 8 * 1024

abbrev pub default_file_ttl_hours : ℕ
default_file_ttl_hours = 7 * 24

abbrev pub default_max_file_transfers : ℕ
default_max_file_transfers = 50_000

abbrev pub min_file_chunk_bytes : ℕ
min_file_chunk_bytes = 16 * 1024

abbrev pub incomplete_file_ttl_ms : ℕ
incomplete_file_ttl_ms = 60 * 60 * 1000

pub record FileConfig : Type 0 where
  pub max_file_bytes : ℕ
  pub max_total_file_bytes : ℕ
  pub file_ttl_ms : ℕ
  pub max_transfers : ℕ
  pub max_chunks : ℕ
