-- ===== src/Identity.antt =====
-- identity.py: canonical encodings for identities. `digest` hashes a JSON object with sorted keys.
pub mod Decimal
pub mod Json
pub mod Digest
use power_market_data_platfo.Base.{Text, codes, [], ◌∷◌, Dict, merge}
use Json.{dumps}

-- `digest`. SHA-256 is `hashlib`'s, the parameter of this section.
module _ (sha256 : Text → Text) where
  unfoldable pub digest : Text → Dict Text → Text
  digest namespace fields = sha256 (dumps (merge ((codes "schema", namespace) ∷ []) fields))
