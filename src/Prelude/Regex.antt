-- ===== src/Prelude/Regex.antt =====
-- What it means that a text matches a regular expression, for the patterns that the program uses.
use crowdshield.Prelude.{ℕ, ◌≡◌, ◌⊎◌, Bool, true, [], ◌∷◌, ◌++◌, Text, All}

-- A class of bytes, a repeated class, a sequence, an optional part.
pub data Regex : Type 0 where
  one : (ℕ → Bool) → Regex
  many : (ℕ → Bool) → Regex
  seq : Regex → Regex → Regex
  opt : Regex → Regex

abbrev pub Matches : Regex → Text → Type 0
Matches (one p) u = (c : ℕ) × (u ≡ c ∷ []) × (p c ≡ true)
Matches (many p) u = All (λ c. p c ≡ true) u
Matches (seq r q) u = (s : Text) × (t : Text) × (u ≡ s ++ t) × Matches r s × Matches q t
Matches (opt r) u = (u ≡ []) ⊎ Matches r u
