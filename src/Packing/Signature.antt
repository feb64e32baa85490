-- ===== src/Packing/Signature.antt =====
-- minhash.go and signature_gear_cdc_minhash.go: the signature of a blob.
use madder.Common.{ℕ, zero, suc, ◌+◌, ◌-◌, ◌*◌, ◌%◌, ◌^◌, List, [], ◌∷◌}
use madder.Common.{replicate, ltb, if◌then◌else◌}
use madder.Common.Bytes.{Bytes}
use madder.Packing.Chunks.{gear_cdc_chunks}
use madder.Packing.Selector.{empty_slot}
use Prim.Native.Nat.{bit_xor}

abbrev pub minhash_prime : ℕ
minhash_prime = 4294967291

-- One step of the generator of coefficients.
abbrev pub next_coefficient : ℕ → ℕ
next_coefficient state = (state * 6364136223846793005 + 1442695040888963407) % 2 ^ 64

-- The pairs of coeffA and coeffB.
unfoldable pub coefficients_from : ℕ → ℕ → List (ℕ × ℕ)
coefficients_from zero state = []
coefficients_from (suc k) state =
    (
      next_coefficient state % (minhash_prime - 1) + 1,
      next_coefficient (next_coefficient state) % minhash_prime,
    )
    ∷ coefficients_from k (next_coefficient (next_coefficient state))

unfoldable pub minhash_coefficients : ℕ → List (ℕ × ℕ)
minhash_coefficients k = coefficients_from k 1597463007

-- In uint64, and cut to uint32.
unfoldable pub minhash_universal_hash : ℕ → ℕ → ℕ → ℕ
minhash_universal_hash x a b = ((a * x + b) % 2 ^ 64) % minhash_prime % 2 ^ 32

-- One feature: each place keeps the least hash.
unfoldable pub lower_places : ℕ → List (ℕ × ℕ) → List ℕ → List ℕ
lower_places f ((a, b) ∷ coefficients) (x ∷ sig) =
    let rest = lower_places f coefficients sig in
    let h = minhash_universal_hash f a b in if ltb h x then h ∷ rest else x ∷ rest
lower_places f _ sig = sig

unfoldable pub add_features : List (ℕ × ℕ) → List ℕ → List ℕ → List ℕ
add_features coefficients [] sig = sig
add_features coefficients (f ∷ features) sig =
    add_features coefficients features (lower_places f coefficients sig)

unfoldable pub min_hash_signature : List ℕ → ℕ → List ℕ
min_hash_signature features k =
    add_features (minhash_coefficients k) features (replicate k empty_slot)

-- hash/fnv's 32-bit FNV-1a.
unfoldable pub fnv_32a : ℕ → Bytes → ℕ
fnv_32a h [] = h
fnv_32a h (b ∷ bs) = fnv_32a ((bit_xor h b * 16777619) % 2 ^ 32) bs

pub record GearCdcMinHashComputer : Type 0 where
  pub avg_chunk_size : ℕ
  pub min_chunk_size : ℕ
  pub max_chunk_size : ℕ
  pub k : ℕ

unfoldable pub features_of : List Bytes → List ℕ
features_of [] = []
features_of (chunk ∷ chunks) = fnv_32a 2166136261 chunk ∷ features_of chunks

unfoldable pub compute_signature : GearCdcMinHashComputer → Bytes → List ℕ
compute_signature c content =
    min_hash_signature
      (features_of (gear_cdc_chunks content c.min_chunk_size c.max_chunk_size c.avg_chunk_size)) c.k
