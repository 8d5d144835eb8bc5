-- ===== src/Tests/OauthRuns.antt =====
-- internal/oauth at concrete inputs: a sum that is the same for every text, and no encoding.
use ssh_bot.Base.{ℕ, suc, ◌≡◌, ◌≢◌, refl, lookup, insert, beq, some, [], ◌∷◌, ◌++◌, Bytes, arith}
use ssh_bot.Oauth.Limiter.Exact.{admits, decision-allow}
use ssh_bot.Oauth.Limiter.Window.{Ran, none_yet, called}
use ssh_bot.Oauth.Limiter.{Limits, CallbackLimiter, allow}
use ssh_bot.Oauth.State.{Crypto, IsCrypto, NoNul, sign, verify, tag, verify-sign}
use ssh_bot.Tests.{repeat, length-repeat}

abbrev plain_crypto : Crypto
plain_crypto = record { mac = λ s. repeat 32; encode = λ s. s; decode = λ s. some s }

plain_crypto-IsCrypto : IsCrypto plain_crypto
plain_crypto-IsCrypto = record { mac_length = λ s. length-repeat 32; decode_encode = λ s. refl }

abbrev open_id : Bytes
open_id = b'o' ∷ b'u' ∷ []

open_id-NoNul : NoNul open_id
open_id-NoNul = (positive 110, (positive 116, tt))
  where
    positive : (n : ℕ) → ◌≢◌ {A = ℕ} (suc n) 0
    positive n e = omega (arith, e)

abbrev payload : Bytes
payload = open_id ++ 0 ∷ repeat 16

signed : sign plain_crypto open_id (some (repeat 16)) ≡ some (payload ++ tag plain_crypto payload)
unfolding sign
signed = refl

verify-sign_example : verify plain_crypto (payload ++ tag plain_crypto payload) ≡ some open_id
verify-sign_example =
    verify-sign plain_crypto plain_crypto-IsCrypto open_id (repeat 16)
      (payload ++ tag plain_crypto payload) open_id-NoNul (length-repeat 16) signed

abbrev one_per_minute : Limits
one_per_minute = record { burst = 1; window = 60; scan_interval = 300 }

abbrev at_once : CallbackLimiter
at_once = (allow one_per_minute 5 (49 ∷ []) (record { by_ip = []; last_scan = 0 })).1

first_Ran : Ran one_per_minute (49 ∷ []) 5 (5 ∷ []) at_once
unfolding allow lookup insert beq
first_Ran = called {before = 0} 5 (49 ∷ []) (omega arith) none_yet

decision-allow_example :
    (allow one_per_minute 6 (49 ∷ []) at_once).0 ≡ admits one_per_minute 6 (5 ∷ [])
decision-allow_example =
    decision-allow one_per_minute (49 ∷ []) 5 6 (5 ∷ []) at_once first_Ran (omega arith)
