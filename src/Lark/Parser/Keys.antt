-- ===== src/Lark/Parser/Keys.antt =====
-- Which messages share a session, by SessionKey of internal/lark/parser.go.
use ssh_bot.Base.{
  ◌≡◌, ◌≢◌, refl, ap, sym, ◌∙◌, append_assoc, ◌⊎◌, true, [], ◌∷◌, ◌++◌, arith, inl, inr, Bool-cases,
  Bytes, utf8, drop, beq, All,
}
use ssh_bot.Lark.Parser.{MessageEvent, session_key}

-- No byte is a colon; the ids that Feishu hands out are letters, digits and underscores.
abbrev pub NoColon : Bytes → Type 0
NoColon s = All (λ c. c ≢ b':') s

-- The text up to the first colon and the text behind it are determined.
colon_splits :
    (a b x y : Bytes) → NoColon a → NoColon b → a ++ b':' ∷ x ≡ b ++ b':' ∷ y → (a ≡ b) × (x ≡ y)
colon_splits [] [] x y p q h = (refl, cc)
colon_splits [] (d ∷ b) x y p q h = absurd (q.0 (cc))
colon_splits (c ∷ a) [] x y p q h = absurd (p.0 (cc))
colon_splits (c ∷ a) (d ∷ b) x y p q h =
    let (same, rest) = colon_splits a b x y p.1 q.1 (cc) in (cc, rest)

group_key :
    (a b x y : Bytes)
    → NoColon a
    → NoColon b
    → utf8 "group:" ++ a ++ utf8 ":" ++ x ≡ utf8 "group:" ++ b ++ utf8 ":" ++ y
    → (a ≡ b) × (x ≡ y)
unfolding utf8
group_key a b x y p q h =
    colon_splits a b x y p q
      (sym (append_assoc a (b':' ∷ []) x) ∙ ap (drop 6) h ∙ append_assoc b (b':' ∷ []) y)

p2p_key : (x y : Bytes) → utf8 "p2p:" ++ x ≡ utf8 "p2p:" ++ y → x ≡ y
unfolding utf8
p2p_key x y h = cc

apart : (x y : Bytes) → utf8 "p2p:" ++ x ≡ utf8 "group:" ++ y → ⊥
unfolding utf8
apart x y h = ground arith

-- Two messages whose chat ids have no colon share a session only if their senders are the same, and
-- both are direct messages or both are in the same chat.
pub session_key_inj :
    (u v : MessageEvent)
    → NoColon u.chat_id
    → NoColon v.chat_id
    → session_key u ≡ session_key v
    → (u.sender_open_id ≡ v.sender_open_id)
      × (beq u.chat_type (utf8 "p2p") ≡ beq v.chat_type (utf8 "p2p"))
      × ((beq u.chat_type (utf8 "p2p") ≡ true) ⊎ (u.chat_id ≡ v.chat_id))
unfolding session_key utf8
session_key_inj u v p q h = elim (Bool-cases (beq u.chat_type (utf8 "p2p"))) [
  | inl a ↦ elim (Bool-cases (beq v.chat_type (utf8 "p2p"))) [
    | inl b ↦ (p2p_key _ _ (rw (a, b) at h), rw (a, b), inl a)
    | inr b ↦ absurd (apart _ _ (rw (a, b) at h))
  ]
  | inr a ↦ elim (Bool-cases (beq v.chat_type (utf8 "p2p"))) [
    | inl b ↦ absurd (apart _ _ (sym (rw (a, b) at h)))
    | inr b ↦
        let (chat, sender) = group_key _ _ _ _ p q (rw (a, b) at h) in (sender, rw (a, b), inr chat)
  ]
]
