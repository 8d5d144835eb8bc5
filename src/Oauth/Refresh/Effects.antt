-- ===== src/Oauth/Refresh/Effects.antt =====
-- What RefreshIfNeeded of internal/oauth/tokens.go does to the store, and the error of reauthorize.
use ssh_bot.Base.{
  ◌≡◌, ◌≢◌, refl, sym, ap, subst, ◌⊎◌, true, false, Bool-cases, inl, inr, Option, none, some, [],
  if◌then◌else◌, Bytes,
}
use ssh_bot.Oauth.Encryptor.{Aead}
use ssh_bot.Oauth.Refresh.Judged.{is_empty-nil, is_empty-cons}
use ssh_bot.Oauth.Refresh.{
  StartUrl, url, unsigned, RefreshError, reauthorize_at, start_url_failed, save_failed, is_empty,
  Refresher, Refreshed, forgotten, started, saved, renew, refresh_if_needed,
}
use ssh_bot.Oauth.Store.{Credential, CredRedis, CredCodec, StoreError, save, delete}

module _ (redis : CredRedis) (codec : CredCodec) (aead : Aead) where
  -- The store after the credential has been forgotten: deleted, where there are a store and a user.
  pub data Forgot (r : Refresher redis codec aead) (open_id : Bytes) (s s' : redis.State)
      : Type 0 where
    deleted :
        r.has_store ≡ true
        → open_id ≢ []
        → s' ≡ delete redis codec aead open_id s
        → Forgot r open_id s s'
    nothing_kept : (r.has_store ≡ false) ⊎ (open_id ≡ []) → s' ≡ s → Forgot r open_id s s'

  -- The error that sends the user to authorize again.
  pub data AsksAgain (r : Refresher redis codec aead) (open_id : Bytes) (e : RefreshError)
      : Type 0 where
    without_url : r.start_url ≡ none → e ≡ reauthorize_at [] → AsksAgain r open_id e
    with_url :
        (start : Bytes → StartUrl) (u : Bytes)
        → r.start_url ≡ some start
        → start open_id ≡ url u
        → e ≡ reauthorize_at u
        → AsksAgain r open_id e
    unsigned_url :
        (start : Bytes → StartUrl) (x : Bytes)
        → r.start_url ≡ some start
        → start open_id ≡ unsigned x
        → e ≡ start_url_failed x
        → AsksAgain r open_id e

  -- What becomes of a renewed credential.
  pub data Saved (r : Refresher redis codec aead) (drawn : Option Bytes) (new : Credential)
      (s : redis.State) (res : Refreshed redis codec aead) : Type 0 where
    without_store : r.has_store ≡ false → res ≡ (none, some new, s) → Saved r drawn new s res
    stored :
        r.has_store ≡ true
        → (save redis codec aead drawn new s).0 ≡ none
        → res ≡ (none, some new, (save redis codec aead drawn new s).1)
        → Saved r drawn new s res
    not_stored :
        (e : StoreError)
        → r.has_store ≡ true
        → (save redis codec aead drawn new s).0 ≡ some e
        → res ≡ (some (save_failed e), none, (save redis codec aead drawn new s).1)
        → Saved r drawn new s res

  module _ (r : Refresher redis codec aead) where
    pub forgotten-Forgot :
        (open_id : Bytes) (s : redis.State)
        → Forgot r open_id s (forgotten redis codec aead r open_id s)
    unfolding refresh_if_needed
    forgotten-Forgot open_id s = elim (Bool-cases r.has_store) [
      | inr e ↦ nothing_kept (inl e) (rw e)
      | inl e ↦ elim (Bool-cases (is_empty open_id)) [
        | inl f ↦ nothing_kept (inr (is_empty-nil open_id f)) (rw (e, f))
        | inr f ↦ deleted e (is_empty-cons open_id f) (rw (e, f))
      ]
    ]

    pub started-AsksAgain :
        (open_id : Bytes) → AsksAgain r open_id (started redis codec aead open_id r.start_url)
    unfolding refresh_if_needed
    started-AsksAgain open_id = by_url r.start_url refl
      where
        by_start :
            (start : Bytes → StartUrl) (u : StartUrl)
            → r.start_url ≡ some start
            → start open_id ≡ u
            → AsksAgain r open_id (started redis codec aead open_id (some start))
        by_start start (url u) e f = with_url start u e f (rw f)
        by_start start (unsigned x) e f = unsigned_url start x e f (rw f)

        by_url :
            (o : Option (Bytes → StartUrl))
            → r.start_url ≡ o
            → AsksAgain r open_id (started redis codec aead open_id o)
        by_url none e = without_url e refl
        by_url (some start) e = by_start start (start open_id) e refl

    pub renew-Saved :
        (drawn : Option Bytes) (new : Credential) (s : redis.State)
        → Saved r drawn new s (renew redis codec aead r drawn new s)
    unfolding refresh_if_needed
    renew-Saved drawn new s = elim (Bool-cases r.has_store) [
      | inr e ↦ without_store e (rw e)
      | inl e ↦
          subst
            (λ b. Saved r drawn new s (
              if b
              then saved redis codec aead new (save redis codec aead drawn new s)
              else (none, some new, s)))
            (sym e) (by_save (save redis codec aead drawn new s) refl e)
    ]
      where
        by_save :
            (o : Option StoreError × redis.State)
            → save redis codec aead drawn new s ≡ o
            → r.has_store ≡ true
            → Saved r drawn new s (saved redis codec aead new o)
        by_save (none, s') f e =
            stored e (ap (λ x. x.0) f) (ap (λ x. (none, some new, x)) (sym (ap (λ x. x.1) f)))
        by_save (some x, s') f e =
            not_stored x e (ap (λ y. y.0) f)
              (ap (λ y. (some (save_failed x), none, y)) (sym (ap (λ y. y.1) f)))
