-- ===== src/Prelude/Words.antt =====
-- Rust's machine integers over the native numbers: `u64` values are numbers up to `u64_max`, and
-- the saturating operations of the standard library clamp there.
use Prim.Native.Nat.{ℕ, ◌*◌, ◌-◌, ◌^◌, min}

abbrev pub u8_max : ℕ
u8_max = 2 ^ 8 - 1

abbrev pub u32_max : ℕ
u32_max = 2 ^ 32 - 1

abbrev pub u64_max : ℕ
u64_max = 2 ^ 64 - 1

-- `u64::saturating_mul`, `u64::saturating_pow`
abbrev pub saturating_mul : ℕ → ℕ → ℕ
saturating_mul a b = min (a * b) u64_max

abbrev pub saturating_pow : ℕ → ℕ → ℕ
saturating_pow a n = min (a ^ n) u64_max
