-- ===== src/Connector/Hash.antt =====
-- `HashState` of src/connector.rs: the 64-bit FNV-1a hash of the bytes read so far.
use data_spark.Prelude.{ℕ, zero, suc, ◌+◌, ◌*◌, ◌/◌, ◌%◌, ◌^◌, [], ◌∷◌}
use data_spark.Schema.TypeName.{Bytes}

abbrev pub fnv_offset_basis : ℕ
fnv_offset_basis = 14695981039346656037

abbrev pub fnv_prime : ℕ
fnv_prime = 1099511628211

-- `a ^ b` on the lowest `bits` bits
unfoldable pub xor_bits : ℕ → ℕ → ℕ → ℕ
xor_bits zero a b = 0
xor_bits (suc bits) a b = (a % 2 + b % 2) % 2 + 2 * xor_bits bits (a / 2) (b / 2)

unfoldable pub update : ℕ → Bytes → ℕ
unfolding xor_bits
update hash [] = hash
update hash (byte ∷ bytes) = update (xor_bits 64 hash byte * fnv_prime % 2 ^ 64) bytes
