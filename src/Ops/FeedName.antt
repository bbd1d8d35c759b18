-- ===== src/Ops/FeedName.antt =====
-- internal/ops/event.go, ValidFeedName: at most 64 bytes that match `feedNamePattern`.
use crowdshield.Prelude.{
  ℕ, ◌≤◌, ◌≡◌, refl, ◌↔◌, ◌⊎◌, inl, inr, Bool, true, false, ◌&&◌, ◌||◌, [], ◌∷◌, ◌++◌, arith, ◌==◌,
  leb, Text, All, length,
}
use crowdshield.Prelude.Regex.{Regex, one, many, seq, opt, Matches}

-- [a-z0-9]
unfoldable pub is_alnum : ℕ → Bool
is_alnum c = (leb b'a' c && leb c b'z') || (leb b'0' c && leb c b'9')

-- [a-z0-9-]
unfoldable pub is_name_byte : ℕ → Bool
is_name_byte c = is_alnum c || c == b'-'

-- ^[a-z0-9](?:[a-z0-9-]*[a-z0-9])?$
abbrev pub feed_name_pattern : Regex
feed_name_pattern = seq (one is_alnum) (opt (seq (many is_name_byte) (one is_alnum)))

-- [a-z0-9-]*[a-z0-9]
match_tail : Text → Bool
match_tail [] = false
match_tail (c ∷ []) = is_alnum c
match_tail (c ∷ d ∷ s) = is_name_byte c && match_tail (d ∷ s)

unfoldable pub match_feed_name : Text → Bool
unfolding match_tail is_alnum is_name_byte
match_feed_name [] = false
match_feed_name (c ∷ []) = is_alnum c
match_feed_name (c ∷ d ∷ s) = is_alnum c && match_tail (d ∷ s)

unfoldable pub valid_feed_name : Text → Bool
unfolding match_feed_name is_alnum is_name_byte
valid_feed_name s = leb (length s) 64 && match_feed_name s

match_tail_sound :
    (u : Text) → match_tail u ≡ true → Matches (seq (many is_name_byte) (one is_alnum)) u
unfolding match_tail
match_tail_sound [] h = ground arith
match_tail_sound (c ∷ []) h = ([], c ∷ [], refl, tt, (c, refl, h))
match_tail_sound (c ∷ d ∷ s) h =
    let (v, t, e, m, l) = match_tail_sound (d ∷ s) (ground arith) in
    (c ∷ v, t, (λ i. c ∷ e i), (ground arith, m), l)

match_tail_complete :
    (t : Text) (c : ℕ)
    → All (λ b. is_name_byte b ≡ true) t
    → is_alnum c ≡ true
    → match_tail (t ++ c ∷ []) ≡ true
unfolding match_tail
match_tail_complete [] c m l = l
match_tail_complete (b ∷ []) c m l = ground arith
match_tail_complete (b ∷ d ∷ t) c m l = ground (arith, match_tail_complete (d ∷ t) c m.1 l)

match_feed_name_sound : (s : Text) → match_feed_name s ≡ true → Matches feed_name_pattern s
unfolding match_feed_name
match_feed_name_sound [] h = ground arith
match_feed_name_sound (c ∷ []) h = (c ∷ [], [], refl, (c, refl, h), inl refl)
match_feed_name_sound (c ∷ d ∷ s) h =
    (c ∷ [], d ∷ s, refl, (c, refl, ground arith), inr (match_tail_sound (d ∷ s) (ground arith)))

-- One byte of the class, then a text that `match_tail` takes.
match_feed_name_cons :
    (c : ℕ) (t : Text)
    → is_alnum c ≡ true
    → (t ≡ []) ⊎ (match_tail t ≡ true)
    → match_feed_name (c ∷ t) ≡ true
unfolding match_feed_name
match_feed_name_cons c [] a (inl e) = a
match_feed_name_cons c [] a (inr m) = a
match_feed_name_cons c (d ∷ t) a (inl e) = absurd (ground arith)
match_feed_name_cons c (d ∷ t) a (inr m) = ground arith

match_feed_name_complete : (s : Text) → Matches feed_name_pattern s → match_feed_name s ≡ true
match_feed_name_complete s (s', t, e, (c, ec, a), inl et) =
    rw (e, ec, et) (match_feed_name_cons c [] a (inl refl))
match_feed_name_complete s (s', t, e, (c, ec, a), inr (u, v, et, m, (d, ed, l))) =
    rw (e, ec, et, ed) (match_feed_name_cons c (u ++ d ∷ []) a (inr (match_tail_complete u d m l)))

-- A feed name is valid exactly when it has at most 64 bytes and matches the pattern
-- ^[a-z0-9](?:[a-z0-9-]*[a-z0-9])?$.
pub valid_feed_name_iff :
    (s : Text) → (valid_feed_name s ≡ true) ↔ ((length s ≤ 64) × Matches feed_name_pattern s)
unfolding valid_feed_name
valid_feed_name_iff s = (
  λ h. (ground arith, match_feed_name_sound s (ground arith)),
  λ m. let p = match_feed_name_complete s m.1 in ground arith,
)
