-- ===== src/Util.antt =====
-- arm_simulator-1.4/util.h and util.c: bit fields of 32-bit words, shifts and rotations.
-- A word is its bit pattern, a number below 2 ^ 32; a negative `int` is its two's complement.
pub mod Fields
pub mod Rotate
use arm_processor_simulator.Base.{
  ℕ, ◌+◌, ◌-◌, ◌*◌, ◌/◌, ◌%◌, ◌^◌, bit_and, bit_or, Bool, true, false, ◌==◌, if◌then◌else◌,
}

abbrev pub u8 : ℕ → ℕ
u8 x = x % 2 ^ 8

abbrev pub u16 : ℕ → ℕ
u16 x = x % 2 ^ 16

abbrev pub u32 : ℕ → ℕ
u32 x = x % 2 ^ 32

-- `a - b` and `- a` on `uint32_t`.
abbrev pub sub32 : ℕ → ℕ → ℕ
sub32 a b = (a + (2 ^ 32 - b)) % 2 ^ 32

-- `~ x` on 32 bits.
abbrev pub complement : ℕ → ℕ
complement x = 2 ^ 32 - 1 - x

-- `x >> k` and `x << k` on `uint32_t` by a computed count. C leaves a count of 32 or more
-- undefined; the shift instructions of the x86 machine that the repository's executables are
-- built for read the lowest five bits of the count, and so does the model.
abbrev pub shr32 : ℕ → ℕ → ℕ
shr32 x k = x / 2 ^ (k % 32)

abbrev pub shl32 : ℕ → ℕ → ℕ
shl32 x k = u32 (x * 2 ^ (k % 32))

unfoldable pub get_bit : ℕ → ℕ → ℕ
get_bit x i = bit_and (x / 2 ^ i) 1

unfoldable pub set_bit : ℕ → ℕ → ℕ
set_bit x i = bit_or x (2 ^ i)

unfoldable pub clr_bit : ℕ → ℕ → ℕ
clr_bit x i = bit_and x (complement (2 ^ i))

-- `~(((~0) >> k) << k)`, `k` ones, for a width below 32.
abbrev pub low_mask : ℕ → ℕ
low_mask k = 2 ^ k - 1

-- `((~0) >> k) << k`, ones from bit `k` up, for `k` below 32.
abbrev pub high_mask : ℕ → ℕ
high_mask k = 2 ^ 32 - 2 ^ k

unfoldable pub get_bits : ℕ → ℕ → ℕ → ℕ
get_bits x h l = bit_and (x / 2 ^ l) (low_mask (h - l + 1))

unfoldable pub set_bits : ℕ → ℕ → ℕ → ℕ → ℕ
set_bits x h l bits =
    bit_or (bit_or (bit_and x (low_mask l)) (bit_and x (high_mask (h + 1)))) (u32 (bits * 2 ^ l))

unfoldable pub reverse_2 : ℕ → ℕ
reverse_2 x = bit_or (bit_and x 0xFF * 2 ^ 8) (bit_and (x / 2 ^ 8) 0xFF)

unfoldable pub reverse_4 : ℕ → ℕ
reverse_4 x =
    bit_or
      (bit_or (bit_or (bit_and x 0xFF * 2 ^ 24) (bit_and (x / 2 ^ 8) 0xFF * 2 ^ 16))
        (bit_and (x / 2 ^ 16) 0xFF * 2 ^ 8))
      (bit_and (x / 2 ^ 24) 0xFF)

-- The count `32 - shift` is read in its lowest five bits, those of `288 - shift`, which is not
-- negative for a `uint8_t`.
unfoldable pub asr : ℕ → ℕ → ℕ
unfolding get_bit
asr value shift =
    bit_or (shr32 value shift)
      (if get_bit value 31 == 0 then 0 else shl32 (complement 0) (288 - shift))

unfoldable pub ror : ℕ → ℕ → ℕ
ror value rotation = bit_or (shr32 value rotation) (shl32 value (288 - rotation))
