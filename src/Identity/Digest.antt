-- ===== src/Identity/Digest.antt =====
-- `digest` of identity.py under a hash function without collisions: equal digests come from equal
-- objects.
use power_market_data_platfo.Base.{◌≡◌, Text, codes, [], ◌∷◌, Dict, merge}
use power_market_data_platfo.Identity.{digest}
use power_market_data_platfo.Identity.Json.{dumps, sort_keys}
use power_market_data_platfo.Identity.Json.Injective.{IsBasic, IsBasicDict, dumps_injective}

-- What the code relies on in SHA-256: no two of its inputs collide, and its hexadecimal output is
-- ASCII.
pub record IsCollisionFree (sha256 : Text → Text) : Type 0 where
  pub injective : (s t : Text) → sha256 s ≡ sha256 t → s ≡ t
  pub is_basic : (s : Text) → IsBasic (sha256 s)

-- The object that is hashed.
abbrev pub payload : Text → Dict Text → Dict Text
payload namespace fields = merge ((codes "schema", namespace) ∷ []) fields

module _ (sha256 : Text → Text) (free : IsCollisionFree sha256) where
  -- Under a hash without collisions, equal digests of texts in the basic plane come from one
  -- object: the namespace and the fields of both sort to the same members.
  pub digest_injective :
      (n m : Text) (d e : Dict Text)
      → IsBasicDict (payload n d)
      → IsBasicDict (payload m e)
      → digest sha256 n d ≡ digest sha256 m e
      → sort_keys (payload n d) ≡ sort_keys (payload m e)
  unfolding digest
  digest_injective n m d e hd he p =
      dumps_injective (payload n d) (payload m e) hd he
        (free.injective (dumps (payload n d)) (dumps (payload m e)) p)

  pub digest-IsBasic : (n : Text) (d : Dict Text) → IsBasic (digest sha256 n d)
  unfolding digest
  digest-IsBasic n d = free.is_basic (dumps (payload n d))
