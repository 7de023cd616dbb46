-- ===== src/Startup.antt =====
-- Parts of the start-up in src/main.rs: the .env file, and the migration of legacy state.
pub mod Dotenv
pub mod Migration
