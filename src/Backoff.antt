-- ===== src/Backoff.antt =====
-- internal/controller/backoff.go, on int64 durations in nanoseconds. `none` is Go's panic at a
-- division by zero.
pub mod Bounds
use garage_storage_controlle.Prelude.{
  ℕ, zero, suc, ◌+◌, ◌-◌, ◌*◌, ◌/◌, ◌%◌, ◌^◌, Option, none, some, ℤ, pos, negsuc, ltb, ltb_ℤ, ◌==◌,
  if◌then◌else◌,
}

-- An int64 from its 64 bits.
unfoldable pub to_int64 : ℕ → ℤ
to_int64 n = let m = n % 2 ^ 64 in if ltb m (2 ^ 63) then pos m else negsuc (2 ^ 64 - 1 - m)

-- bits.Len: the number of bits of n, for n below 2 ^ fuel.
unfoldable pub bit_len_from : ℕ → ℕ → ℕ
bit_len_from zero n = 0
bit_len_from (suc fuel) n = let rest = suc (bit_len_from fuel (n / 2)) in if n == 0 then 0 else rest

-- The 64 bits of a uint are fuel enough.
unfoldable pub bit_len : ℕ → ℕ
unfolding bit_len_from
bit_len n = bit_len_from 64 n

-- `if age < 0 { age = 0 }`
abbrev pub clamp_age : ℤ → ℕ
clamp_age (pos n) = n
clamp_age (negsuc _) = 0

abbrev pub min_ℤ : ℤ → ℤ → ℤ
min_ℤ a b = if ltb_ℤ b a then b else a

-- The base is not negative in the code (5 seconds, and a test's override). `age/base + 1` fits in
-- an int64 for every base above 1, and for base 1 it is taken as the uint that it is converted to.
unfoldable pub owner_secret_backoff : ℤ → ℕ → ℤ → Option ℤ
owner_secret_backoff age base max_interval =
    if base == 0
    then none
    else let n = bit_len (clamp_age age / base + 1) - 1 in
      some (min_ℤ (to_int64 (base * 2 ^ n)) max_interval)
