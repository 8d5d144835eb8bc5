-- ===== src/Session/Trim.antt =====
-- What the caps of internal/session/store.go keep and lose.
use ssh_bot.Base.{
  ℕ, ◌+◌, ◌-◌, ◌^◌, ◌≤◌, ◌<◌, ◌≡◌, refl, ap, ap₂, subst, sym, ◌⊎◌, ◌∙◌, inl, inr, List, [], ◌∷◌,
  ◌++◌, map, arith, ltb, ltb→lt, lt→ltb, ltb_false→le, le→ltb_false, Bool-cases, Bytes, utf8,
  length, take, drop, length-append, length-map, length-drop, length-take, take-append_self,
  drop-append_self, All, All-drop, map-append,
}
use ssh_bot.Llm.Types.{Message}
use ssh_bot.Session.{
  max_messages, max_message_content, marker, trim_content, trim_message, trim_messages, itoa,
}
use ssh_bot.Session.Itoa.{length-itoa-le, length-itoa_two}

-- At most `max_messages` messages are stored.
length-trim_messages : (msgs : List Message) → length (trim_messages msgs) ≤ max_messages
unfolding trim_messages
length-trim_messages msgs = elim (Bool-cases (ltb max_messages (length (map trim_message msgs)))) [
  | inl e ↦ rw (e, length-drop) (omega (arith, ltb→lt _ _ e))
  | inr e ↦ rw e (ltb_false→le _ _ e)
]

drop_old :
    (old new : List Message) (n : ℕ)
    → length new ≡ n
    → drop (length (map trim_message (old ++ new)) - n) (map trim_message (old ++ new))
      ≡ map trim_message new
drop_old old new n h =
    let front = map trim_message old in
    let back = map trim_message new in
    let count : length (front ++ back) - n ≡ length front =
      omega (arith, length-append front back, length-map new trim_message) in
    rw (map-append, count) (drop-append_self _ front back refl)

-- A history of the newest `max_messages` messages behind any older ones is stored as those alone,
-- each cut by itself.
trim_messages-append :
    (old new : List Message)
    → length new ≡ max_messages
    → trim_messages (old ++ new) ≡ map trim_message new
unfolding trim_messages
trim_messages-append [] new h = rw (
    le→ltb_false max_messages (length (map trim_message new))
      (omega (arith, length-map new trim_message)))
trim_messages-append (m ∷ old) new h =
    rw
      (lt→ltb max_messages (length (map trim_message (m ∷ old ++ new)))
        (omega (arith, length-map (m ∷ old ++ new) trim_message, length-append old new)))
      (drop_old (m ∷ old) new max_messages h)

length-marker : (k : ℕ) → length (marker k) ≡ 23 + length (itoa k)
unfolding marker
length-marker k = omega (arith, length-append (itoa k) (utf8 " chars]"))

trim_content_long :
    (c : Bytes)
    → max_message_content < length c
    → trim_content c ≡ take max_message_content c ++ marker (length c - max_message_content)
unfolding trim_content
trim_content_long c h = rw (lt→ltb _ _ h)

-- What one more save does to a content that already ends in a marker.
trim_content_marked :
    (p : Bytes) (k : ℕ)
    → length p ≡ max_message_content
    → trim_content (p ++ marker k) ≡ p ++ marker (23 + length (itoa k))
trim_content_marked p k h =
    let total : length (p ++ marker k) ≡ max_message_content + (23 + length (itoa k)) =
      omega (arith, length-append p (marker k), length-marker k) in
    trim_content_long (p ++ marker k) (omega (arith, total))
    ∙ ap₂ (λ (a : Bytes) (b : ℕ). a ++ marker b) (take-append_self _ p (marker k) h)
        (omega (arith, total))

-- A Go string is shorter than 2^63 bytes, so the number in a marker has at most 19 digits.
marker_digits :
    (c : Bytes) → length c < 2 ^ 63 → length (itoa (length c - max_message_content)) ≤ 19
marker_digits c h = length-itoa-le _ 19 (omega arith) (omega arith)

-- A content over the cap is cut on the first save to its first `max_message_content` bytes and a
-- marker with the number of bytes dropped. Saved twice more, it keeps the same bytes, and the
-- marker says 25 whatever was dropped: the marker itself is over the cap and is cut again.
pub trim_content_thrice :
    (c : Bytes)
    → max_message_content < length c
    → length c < 2 ^ 63
    → (trim_content c ≡ take max_message_content c ++ marker (length c - max_message_content))
      × (trim_content (trim_content (trim_content c)) ≡ take max_message_content c ++ marker 25)
trim_content_thrice c over small =
    let p = take max_message_content c in
    let k = length c - max_message_content in
    let full : length p ≡ max_message_content = omega (arith, length-take max_message_content c) in
    let once = trim_content_long c over in
    let digits = marker_digits c small in
    let second : trim_content (trim_content c) ≡ p ++ marker (23 + length (itoa k)) =
      ap trim_content once ∙ trim_content_marked p k full in
    let two : length (itoa (23 + length (itoa k))) ≡ 2 =
      length-itoa_two _ (omega arith) (omega arith) in
    (
      once,
      ap trim_content second
          ∙ trim_content_marked p _ full
          ∙ ap (λ (n : ℕ). p ++ marker n) (omega (arith, two)),
    )

length-trim_content : (c : Bytes) → length c < 2 ^ 63 → length (trim_content c) ≤ 20522
unfolding trim_content
length-trim_content c h = elim (Bool-cases (ltb max_message_content (length c))) [
  | inl e ↦ rw e (
      omega (
        arith,
        length-append (take max_message_content c) (marker (length c - max_message_content)),
        length-take max_message_content c,
        length-marker (length c - max_message_content),
        marker_digits c h,
      ))
  | inr e ↦ rw e (omega (arith, ltb_false→le _ _ e))
]

-- A message that a Go process can hold.
abbrev pub IsStorable : Message → Type 0
IsStorable m = length m.content < 2 ^ 63

-- A message within the cap: `max_message_content` bytes and a marker of at most 42.
abbrev pub IsCapped : Message → Type 0
IsCapped m = length m.content ≤ 20522

map-IsCapped : (msgs : List Message) → All IsStorable msgs → All IsCapped (map trim_message msgs)
unfolding trim_message
map-IsCapped [] h = tt
map-IsCapped (m ∷ msgs) h = (length-trim_content m.content h.0, map-IsCapped msgs h.1)

trim_messages_cases :
    (msgs : List Message)
    → (trim_messages msgs
        ≡ drop (length (map trim_message msgs) - max_messages) (map trim_message msgs))
      ⊎ (trim_messages msgs ≡ map trim_message msgs)
unfolding trim_messages
trim_messages_cases msgs = elim (Bool-cases (ltb max_messages (length (map trim_message msgs)))) [
  | inl e ↦ inl (rw e)
  | inr e ↦ inr (rw e)
]

-- What is stored is at most `max_messages` messages, each within the cap.
pub trim_messages-IsCapped :
    (msgs : List Message)
    → All IsStorable msgs
    → (length (trim_messages msgs) ≤ max_messages) × All IsCapped (trim_messages msgs)
trim_messages-IsCapped msgs h =
    let capped = map-IsCapped msgs h in
    (
      length-trim_messages msgs,
      elim (trim_messages_cases msgs) [
        | inl e ↦ subst (All IsCapped) (sym e) (All-drop IsCapped _ (map trim_message msgs) capped)
        | inr e ↦ subst (All IsCapped) (sym e) capped
      ],
    )
