-- ===== src/Space.antt =====
-- internal/addrspace: reading bytes at a virtual address.
pub mod Composite
use bubblepprof.Common.{
  ℕ, ◌+◌, ◌*◌, ◌/◌, ◌%◌, ◌^◌, ◌<◌, ◌≤◌, ◌≡◌, Bool, true, List, [], Option, some, none, ltb, leb,
  ◌==◌, ◌&&◌, ◌||◌, not, if◌then◌else◌, length, add_u64, u64_mod, IsU64, arith, Text,
}
use bubblepprof.Dump.Pointers.{decode_word}

-- Reader: `none` is ok=false. A nil Reader is one that reads nothing.
abbrev pub Reader : Type 0
Reader = ℕ → ℕ → Option (List ℕ)

-- What the interface's comment demands of an implementation.
pub record IsReader (r : Reader) : Type 0 where
  pub empty : (addr : ℕ) → r addr 0 ≡ some []
  pub null : (size : ℕ) → 0 < size → r 0 size ≡ none
  pub overflowing :
      (addr size : ℕ)
      → IsU64 addr
      → IsU64 size
      → 0 < size
      → u64_mod ≤ addr + size
      → r addr size ≡ none
  pub whole :
      (addr size : ℕ) (bytes : List ℕ)
      → IsU64 addr
      → IsU64 size
      → r addr size ≡ some bytes
      → length bytes ≡ size

-- AddUint64
unfoldable pub checked_add : ℕ → ℕ → Option ℕ
checked_add a b = if leb a (add_u64 a b) then some (add_u64 a b) else none

-- MulUint64
unfoldable pub checked_mul : ℕ → ℕ → Option ℕ
checked_mul a b =
    let c = (a * b) % u64_mod in
    if a == 0 || b == 0 then some 0 else if c / a == b then some c else none

-- ReadString
unfoldable pub read_string : Reader → ℕ → ℕ → ℕ → Option Text
read_string r addr size max =
    if size == 0 then some [] else if ltb 0 max && ltb max size then none else r addr size

-- ReadUintptr, with one of the two byte orders.
unfoldable pub read_uintptr : Reader → ℕ → ℕ → Bool → Option ℕ
unfolding decode_word
read_uintptr r addr ptr_size big_endian =
    if not (ptr_size == 4) && not (ptr_size == 8)
    then none
    else elim (r addr ptr_size) [ none ↦ none | some b ↦ some (decode_word big_endian b) ]

-- The wrap-around test of AddUint64 finds exactly the sums that do not fit.
pub checked_add_lem :
    (a b : ℕ)
    → IsU64 a
    → IsU64 b
    → checked_add a b ≡ (if ltb (a + b) u64_mod then some (a + b) else none)
unfolding checked_add
checked_add_lem a b ha hb = ground arith

pub checked_add_fits :
    (a b : ℕ) → IsU64 a → IsU64 b → a + b < u64_mod → checked_add a b ≡ some (a + b)
checked_add_fits a b ha hb h = ground (arith, checked_add_lem a b ha hb)

pub checked_add_wraps : (a b : ℕ) → IsU64 a → IsU64 b → u64_mod ≤ a + b → checked_add a b ≡ none
checked_add_wraps a b ha hb h = ground (arith, checked_add_lem a b ha hb)
