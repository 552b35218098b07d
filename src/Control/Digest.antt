-- ===== src/Control/Digest.antt =====
-- `payload_digest` of crates/nyanpasu-core-manager/src/control/mod.rs: FNV-1a over 64 bits, in hex.
use clash_nyanpasu_service.Shared.{ℕ, ◌*◌, ◌%◌, ◌^◌, bit_xor, Bytes, [], ◌∷◌}
use clash_nyanpasu_service.Control.OperationId.{hex}

abbrev pub fnv_offset : ℕ
fnv_offset = 0xcbf2_9ce4_8422_2325

abbrev pub fnv_prime : ℕ
fnv_prime = 0x0000_0100_0000_01b3

-- The loop over the bytes; `wrapping_mul` is the remainder modulo 2 ^ 64.
unfoldable pub hash_bytes : ℕ → Bytes → ℕ
hash_bytes hash [] = hash
hash_bytes hash (byte ∷ bytes) = hash_bytes (bit_xor hash byte * fnv_prime % 2 ^ 64) bytes

unfoldable pub payload_digest : Bytes → Bytes
payload_digest bytes = hex 16 (hash_bytes fnv_offset bytes)
