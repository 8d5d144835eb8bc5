-- ===== src/Oauth/Keys.antt =====
-- NewEncryptor of internal/oauth/tokens.go and NewStateSigner of state.go: what becomes of the keys in
-- the environment. base64, AES-GCM and HMAC are parameters.
use ssh_bot.Base.{ℕ, Option, none, some, [], ◌∷◌, ◌==◌, if◌then◌else◌, Bytes, length}
use ssh_bot.Oauth.Encryptor.{Aead}
use ssh_bot.Oauth.State.{Crypto}

pub data KeyError : Type 0 where
  key_empty : KeyError
  not_base64 : KeyError
  wrong_length : ℕ → KeyError
  cipher_failed : KeyError

pub data Keyed (A : Type 0) : Type 0 where
  ready : A → Keyed A
  failed : KeyError → Keyed A

pub record KeyLibrary : Type 0 where
  -- base64.StdEncoding.DecodeString
  pub decode : Bytes → Option Bytes
  -- aes.NewCipher and cipher.NewGCM
  pub new_gcm : Bytes → Option Aead
  -- HMAC-SHA256 under a key, and base64url
  pub new_crypto : Bytes → Crypto

sized : Bytes → Keyed Bytes
sized k = if length k == 32 then ready k else failed (wrong_length (length k))

module _ (lib : KeyLibrary) where
  decoded : Option Bytes → Keyed Bytes
  unfolding sized
  decoded none = failed not_base64
  decoded (some k) = sized k

  -- What both constructors do first.
  key_of : Bytes → Keyed Bytes
  unfolding decoded
  key_of [] = failed key_empty
  key_of (c ∷ s) = decoded (lib.decode (c ∷ s))

  signer : Keyed Bytes → Keyed Crypto
  signer (failed e) = failed e
  signer (ready k) = ready (lib.new_crypto k)

  -- NewStateSigner
  pub new_state_signer : Bytes → Keyed Crypto
  unfolding signer key_of
  new_state_signer base64_key = signer (key_of base64_key)

  ciphered : Option Aead → Keyed Aead
  ciphered none = failed cipher_failed
  ciphered (some a) = ready a

  encryptor : Keyed Bytes → Keyed Aead
  unfolding ciphered
  encryptor (failed e) = failed e
  encryptor (ready k) = ciphered (lib.new_gcm k)

  -- NewEncryptor
  pub new_encryptor : Bytes → Keyed Aead
  unfolding encryptor key_of
  new_encryptor base64_key = encryptor (key_of base64_key)
