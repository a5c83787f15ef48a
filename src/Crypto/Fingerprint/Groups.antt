-- ===== src/Crypto/Fingerprint/Groups.antt =====
-- truncateFingerprint of packages/crypto/src/fingerprint.ts, on fingerprints.
use aesmsg.Prelude.{ℕ, ◌≡◌, Bool, false, not, Text, All, ◌==◌}
use aesmsg.Crypto.Wire.{hex_chars, symbol_at}

-- No character of the text is `c`.
abbrev Free : ℕ → Text → Type 0
Free c s = All (λ (x : ℕ). (x == c) ≡ false) s

is_digit : ℕ → Bool
unfolding symbol_at
is_digit d = not (symbol_at hex_chars d == b'-')
