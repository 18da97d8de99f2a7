-- ===== src/Common/OplogId.antt =====
-- common/kyrin_lexicographically_helper.h: operation ids, eight bytes counted up from the right.
pub mod Carry
pub mod Order
mod Tests
use kyrin_box.Prelude.{
  ℕ, zero, suc, ◌+◌, ◌%◌, Bool, true, false, Option, none, some, Bytes, ltb, ◌==◌, if◌then◌else◌,
  get_elem?, set, replicate,
}

-- `s.assign(zero, 8)`
unfoldable pub get_zero : Bytes
get_zero = replicate 8 0

-- `uint32_t(s[i])` of a signed `char`: a byte from 0x80 up is sign-extended.
pub widen : ℕ → ℕ
widen c = if ltb c 128 then c else c + 0xffff_ff00

-- The loop `for (int i=7; i>=0; i--)` with `n = i + 1` rounds left. `none` is undefined behaviour:
-- `s[i]` is written past the end of the string.
pub add_from : ℕ → Bytes → Option (Bytes × Bool)
unfolding widen
add_from zero s = some (s, false)
add_from (suc i) s = elim (get_elem? s i) [
  | none ↦ none
  | some c ↦
      let rest = add_from i (set s i 0) in
      if widen c == 0xffff_ffff then rest else some (set s i ((c + 1) % 256), true)
]

-- The string after the call, and the returned flag.
unfoldable pub add_one : Bytes → Option (Bytes × Bool)
unfolding add_from
add_one s = add_from 8 s
