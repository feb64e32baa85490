-- ===== src/Packing/Chunks.antt =====
-- gear_hash.go: a blob is cut where a rolling fingerprint of its bytes has zeros under a mask.
use madder.Common.{ℕ, zero, suc, ◌+◌, ◌-◌, ◌*◌, ◌/◌, ◌%◌, ◌^◌, List, [], ◌∷◌, ◌++◌, length, get_or}
use madder.Common.{ltb, leb, ◌==◌, if◌then◌else◌, ◌||◌}
use madder.Common.Bytes.{Bytes}
use Prim.Native.Nat.{bit_and, bit_or}

-- init: a linear congruential generator fills the table.
unfoldable pub next_state : ℕ → ℕ
next_state state = (state * 6364136223846793005 + 1442695040888963407) % 2 ^ 64

unfoldable pub table_from : ℕ → ℕ → List ℕ
table_from zero state = []
table_from (suc n) state = next_state state ∷ table_from n (next_state state)

unfoldable pub gear_table : List ℕ
gear_table = table_from 256 1597463007

-- n |= n >> k
abbrev smear : ℕ → ℕ → ℕ
smear k n = bit_or n (n / 2 ^ k)

-- The bits of the int that nextPowerOfTwo returns, for an argument that is not negative.
unfoldable pub next_power_of_two : ℕ → ℕ
next_power_of_two n =
    if leb n 1 then 1 else smear 32 (smear 16 (smear 8 (smear 4 (smear 2 (smear 1 (n - 1)))))) + 1

-- The sizes are Go ints; those of a configuration are not negative.
module _ (min_size max_size mask : ℕ) where
  -- The loop: `chunk` holds the bytes from chunkStart on, and `fp` is the fingerprint.
  unfoldable pub chunks_from : Bytes → Bytes → ℕ → List Bytes
  chunks_from [] [] fp = []
  chunks_from [] (c ∷ cs) fp = (c ∷ cs) ∷ []
  chunks_from (b ∷ bs) chunk fp =
      let fp' = (fp * 2 + get_or gear_table b 0) % 2 ^ 64 in
      let chunk' = chunk ++ (b ∷ []) in
      let longer = chunks_from bs chunk' fp' in
      let cut = chunk' ∷ chunks_from bs [] 0 in
      if ltb (length chunk') min_size
      then longer
      else if leb max_size (length chunk') || (bit_and fp' mask == 0)
      then cut
      else longer

unfoldable pub gear_cdc_chunks : Bytes → ℕ → ℕ → ℕ → List Bytes
gear_cdc_chunks [] min_size max_size avg_size = []
gear_cdc_chunks (b ∷ bs) min_size max_size avg_size =
    chunks_from min_size max_size (next_power_of_two avg_size - 1) (b ∷ bs) [] 0
