-- ===== src/Hasher.antt =====
-- src/hasher.rs: the hash of some byte strings. SHA-256 and the URL-safe Base64 writer are other
-- libraries' (`sha2`, `base64`).
use dmarc_report_viewer.Common.{ℕ, suc, zero, String, List, [], ◌∷◌, flat_map, ◌%◌, ◌/◌}

pub record HashEnv : Type 0 where
  pub sha256 : List ℕ → List ℕ
  pub base64_url : List ℕ → String

-- `&bytes[0..n]`
abbrev take_bytes : ℕ → List ℕ → List ℕ
take_bytes zero bytes = []
take_bytes (suc n) [] = []
take_bytes (suc n) (b ∷ bytes) = b ∷ take_bytes n bytes

-- The digest is fed part by part, which is its value at the parts one after the other.
unfoldable pub create_hash : HashEnv → List (List ℕ) → String
create_hash env parts = env.base64_url (take_bytes 16 (env.sha256 (flat_map (λ p. p) parts)))

-- `u32::to_le_bytes`
abbrev pub to_le_bytes : ℕ → List ℕ
to_le_bytes n = (n % 256) ∷ ((n / 256) % 256) ∷ ((n / 65536) % 256) ∷ ((n / 16777216) % 256) ∷ []
