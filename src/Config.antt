-- ===== src/Config.antt =====
-- internal/config: the .env files and the dynamic parts of the configuration.
pub mod Dotenv
pub mod Settings
