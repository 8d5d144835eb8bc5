-- ===== src/Oauth.antt =====
-- internal/oauth: the parts of the Feishu OAuth flow.
pub mod Encryptor
pub mod Keys
pub mod Store
pub mod Endpoint
pub mod Refresh
pub mod Start
pub mod Callback
pub mod State
pub mod Limiter
