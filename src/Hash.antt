-- ===== src/Hash.antt =====
-- The standard library's `fnv.New32a()`: FNV-1a over 32 bits, which internal/routing/consistenthash.go
-- and cmd/router/main.go hash with.
use Prim.Native.Nat.{bit_xor}
use llm_inference_operator.Base.{ℕ, ◌*◌, ◌%◌, ◌<◌, ◌≡◌, refl, List, [], ◌∷◌, arith, bytes}

-- One byte into the state: xor, then multiply by the prime in a `uint32`.
write_byte : ℕ → ℕ → ℕ
write_byte h b = bit_xor h b * 16777619 % 4294967296

write : ℕ → List ℕ → ℕ
write h [] = h
write h (b ∷ bs) = write (write_byte h b) bs

-- `h := fnv.New32a(); h.Write(bs); h.Sum32()`
unfoldable pub sum32 : List ℕ → ℕ
unfolding write write_byte
sum32 bs = write 2166136261 bs

write-lt : (h : ℕ) (bs : List ℕ) → h < 4294967296 → write h bs < 4294967296
unfolding write
write-lt h [] lt = lt
write-lt h (b ∷ bs) lt = write-lt (write_byte h b) bs (write_byte-lt h b)
  where
    write_byte-lt : (h b : ℕ) → write_byte h b < 4294967296
    write_byte-lt h b = unfold write_byte in omega arith

-- A sum fits a `uint32`.
pub sum32-lt : (bs : List ℕ) → sum32 bs < 4294967296
unfolding sum32
sum32-lt bs = write-lt 2166136261 bs (omega arith)

-- The published test vectors of FNV-1a.
sum32_vectors :
    (sum32 (bytes "") ≡ 0x811c9dc5)
    × (sum32 (bytes "a") ≡ 0xe40c292c)
    × (sum32 (bytes "foobar") ≡ 0xbf9cf968)
unfolding sum32 bytes
sum32_vectors = (refl, refl, refl)
