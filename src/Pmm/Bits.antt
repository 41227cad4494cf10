-- ===== src/Pmm/Bits.antt =====
-- The bitmap read bit by bit: setting or clearing one page leaves the others alone.
use lxtos.Prelude.{
  ℕ, zero, suc, ◌+◌, ◌-◌, ◌*◌, ◌/◌, ◌%◌, ◌^◌, ◌<◌, ◌≡◌, refl, ap, ◌≢◌, bit_and, bit_or, List, [],
  ◌∷◌, arith, ◌==◌, if◌then◌else◌, length, set, get_or, get_or-set_self, get_or-set_ne, Bool-cases,
  inl, inr, ==_iff, true, false, replicate, ltb, ltb→lt, ◌&&◌,
}
use lxtos.Prelude.Table.{all_below, table_entry, table_eq}
use lxtos.Pmm.{bitmap_set, bitmap_clear, bitmap_test}

-- bit `j` of a byte, and the byte with bit `k` set or cleared, as the code computes them
abbrev bit : ℕ → ℕ → ℕ
bit b j = bit_and (b / 2 ^ j) 1

abbrev with_bit : ℕ → ℕ → ℕ
with_bit b k = bit_or b (2 ^ k)

abbrev without_bit : ℕ → ℕ → ℕ
without_bit b k = bit_and b (255 - 2 ^ k)

-- A byte and two bit numbers, packed into one number for the tables.
set_table :
    all_below 16384 (λ x.
      bit (with_bit (x / 64) (x / 8 % 8)) (x % 8)
      == (if x % 8 == x / 8 % 8 then 1 else bit (x / 64) (x % 8)))
    ≡ true
unfolding all_below
set_table = refl

clear_table :
    all_below 16384 (λ x.
      bit (without_bit (x / 64) (x / 8 % 8)) (x % 8)
      == (if x % 8 == x / 8 % 8 then 0 else bit (x / 64) (x % 8)))
    ≡ true
unfolding all_below
clear_table = refl

byte_table :
    all_below 2048
      (λ x. ltb (with_bit (x / 8) (x % 8)) 256 && ltb (without_bit (x / 8) (x % 8)) 256)
    ≡ true
unfolding all_below
byte_table = refl

undo_table :
    all_below 2048 (λ x.
      (if bit (x / 8) (x % 8) == 0 then without_bit (with_bit (x / 8) (x % 8)) (x % 8) else x / 8)
      == x / 8)
    ≡ true
unfolding all_below
undo_table = refl

module _ (b k j : ℕ) (hb : b < 256) (hk : k < 8) where
  packed : (b * 8 + k) / 8 ≡ b
  packed = omega arith

  packed_bit : (b * 8 + k) % 8 ≡ k
  packed_bit = omega arith

  module _ (hj : j < 8) where
    byte_of : (b * 64 + k * 8 + j) / 64 ≡ b
    byte_of = omega arith

    first_of' : (b * 64 + k * 8 + j) / 8 % 8 ≡ k
    first_of' = omega arith

    second_of : (b * 64 + k * 8 + j) % 8 ≡ j
    second_of = omega arith

    bit-with_bit : bit (with_bit b k) j ≡ (if j == k then 1 else bit b j)
    bit-with_bit =
        rw (byte_of, first_of', second_of) at
          (table_eq 16384 _ _ (b * 64 + k * 8 + j) set_table (omega arith))

    bit-without_bit : bit (without_bit b k) j ≡ (if j == k then 0 else bit b j)
    bit-without_bit =
        rw (byte_of, first_of', second_of) at
          (table_eq 16384 _ _ (b * 64 + k * 8 + j) clear_table (omega arith))

  byte_bounds : (ltb (with_bit b k) 256 && ltb (without_bit b k) 256) ≡ true
  byte_bounds = rw (packed, packed_bit) at (table_entry 2048 _ (b * 8 + k) byte_table (omega arith))

  undo_bit : bit b k ≡ 0 → without_bit (with_bit b k) k ≡ b
  undo_bit e =
      ground
        (arith, rw (packed, packed_bit) at (table_eq 2048 _ _ (b * 8 + k) undo_table (omega arith)))

-- Every element is a byte.
abbrev pub IsBytes : List ℕ → Type 0
IsBytes [] = Unit {0}
IsBytes (b ∷ bm) = (b < 256) × IsBytes bm

get_or-byte : (bm : List ℕ) (i : ℕ) → IsBytes bm → get_or bm i 0 < 256
get_or-byte [] i h = omega arith
get_or-byte (b ∷ bm) zero h = h.0
get_or-byte (b ∷ bm) (suc i) h = get_or-byte bm i h.1

set-IsBytes : (bm : List ℕ) (i v : ℕ) → IsBytes bm → v < 256 → IsBytes (set bm i v)
set-IsBytes [] i v h p = tt
set-IsBytes (b ∷ bm) zero v h p = (p, h.1)
set-IsBytes (b ∷ bm) (suc i) v h p = (h.0, set-IsBytes bm i v h.1 p)

pub replicate-IsBytes : (n : ℕ) → IsBytes (replicate n 255)
replicate-IsBytes zero = tt
replicate-IsBytes (suc n) = (omega arith, replicate-IsBytes n)

set-set_self : (bm : List ℕ) (i v : ℕ) → set (set bm i v) i (get_or bm i 0) ≡ bm
set-set_self [] i v = refl
set-set_self (b ∷ bm) zero v = refl
set-set_self (b ∷ bm) (suc i) v = ap (λ t. b ∷ t) (set-set_self bm i v)

set-set : (bm : List ℕ) (i v w : ℕ) → set (set bm i v) i w ≡ set bm i w
set-set [] i v w = refl
set-set (b ∷ bm) zero v w = refl
set-set (b ∷ bm) (suc i) v w = ap (λ t. b ∷ t) (set-set bm i v w)

set-get : (bm : List ℕ) (i : ℕ) → set bm i (get_or bm i 0) ≡ bm
set-get [] i = refl
set-get (b ∷ bm) zero = refl
set-get (b ∷ bm) (suc i) = ap (λ t. b ∷ t) (set-get bm i)

-- Two pages of one byte, and of two bytes.
same_page : (j i : ℕ) → j / 8 ≡ i / 8 → (j % 8 == i % 8) ≡ (j == i)
same_page j i q = ground arith

other_byte : (j i : ℕ) → (j / 8 == i / 8) ≡ false → i / 8 ≢ j / 8
other_byte j i e = ground arith

other_page : (j i : ℕ) → (j / 8 == i / 8) ≡ false → (j == i) ≡ false
other_page j i e = ground arith

le_lt_256 : (b k : ℕ) → b < 256 → b / 2 ^ k < 256
le_lt_256 b k h = grind arith

module _ (bm : List ℕ) (i : ℕ) (h : IsBytes bm) where
  pub bitmap_set-IsBytes : IsBytes (bitmap_set bm i)
  unfolding bitmap_set
  bitmap_set-IsBytes =
      set-IsBytes bm (i / 8) _ h
        (ground (arith, byte_bounds (get_or bm (i / 8) 0) (i % 8) 0 (get_or-byte bm (i / 8) h)))

  pub bitmap_clear-IsBytes : IsBytes (bitmap_clear bm i)
  unfolding bitmap_clear
  bitmap_clear-IsBytes =
      set-IsBytes bm (i / 8) _ h
        (ground (arith, byte_bounds (get_or bm (i / 8) 0) (i % 8) 0 (get_or-byte bm (i / 8) h)))

  module _ (inside : i / 8 < length bm) (j : ℕ) where
    -- Setting a page sets its bit and no other.
    pub bitmap_test-set : bitmap_test (bitmap_set bm i) j ≡ (if j == i then 1 else bitmap_test bm j)
    unfolding bitmap_set bitmap_test
    bitmap_test-set = elim (Bool-cases (j / 8 == i / 8)) [
      | inl e ↦
          let q = (==_iff (j / 8) (i / 8)).0 e in
          rw
            (
              q,
              get_or-set_self bm (i / 8) (with_bit (get_or bm (i / 8) 0) (i % 8)) 0 inside,
              ← same_page j i q,
            )
            (bit-with_bit (get_or bm (i / 8) 0) (i % 8) (j % 8) (get_or-byte bm (i / 8) h)
              (omega arith) (omega arith))
      | inr e ↦ rw (
        get_or-set_ne bm (i / 8) (j / 8) (with_bit (get_or bm (i / 8) 0) (i % 8)) 0
            (other_byte j i e),
        other_page j i e,
      )
    ]

    pub bitmap_test-clear :
        bitmap_test (bitmap_clear bm i) j ≡ (if j == i then 0 else bitmap_test bm j)
    unfolding bitmap_clear bitmap_test
    bitmap_test-clear = elim (Bool-cases (j / 8 == i / 8)) [
      | inl e ↦
          let q = (==_iff (j / 8) (i / 8)).0 e in
          rw
            (
              q,
              get_or-set_self bm (i / 8) (without_bit (get_or bm (i / 8) 0) (i % 8)) 0 inside,
              ← same_page j i q,
            )
            (bit-without_bit (get_or bm (i / 8) 0) (i % 8) (j % 8) (get_or-byte bm (i / 8) h)
              (omega arith) (omega arith))
      | inr e ↦ rw (
        get_or-set_ne bm (i / 8) (j / 8) (without_bit (get_or bm (i / 8) 0) (i % 8)) 0
            (other_byte j i e),
        other_page j i e,
      )
    ]

  -- Clearing a page undoes setting it, to the byte.
  pub clear-set : bitmap_test bm i ≡ 0 → i / 8 < length bm → bitmap_clear (bitmap_set bm i) i ≡ bm
  unfolding bitmap_clear bitmap_set bitmap_test
  clear-set e inside =
      rw
        (
          get_or-set_self bm (i / 8) (with_bit (get_or bm (i / 8) 0) (i % 8)) 0 inside,
          set-set,
          undo_bit (get_or bm (i / 8) 0) (i % 8) 0 (get_or-byte bm (i / 8) h) (omega arith) e,
        )
        (set-get bm (i / 8))

-- A bit is 0 or 1.
test_table : all_below 256 (λ b. ltb (bit_and b 1) 2) ≡ true
unfolding all_below
test_table = refl

pub bitmap_test-lt : (bm : List ℕ) (i : ℕ) → IsBytes bm → bitmap_test bm i < 2
unfolding bitmap_test
bitmap_test-lt bm i h = ltb→lt _ _ (
    table_entry 256 (λ b. ltb (bit_and b 1) 2) _ test_table
      (le_lt_256 _ (i % 8) (get_or-byte bm (i / 8) h)))

get_or-replicate : (n i v : ℕ) → i < n → get_or (replicate n v) i 0 ≡ v
get_or-replicate zero i v h = elim h [ ]
get_or-replicate (suc n) zero v h = refl
get_or-replicate (suc n) (suc i) v h = get_or-replicate n i v (omega arith)

full_table : all_below 8 (λ k. bit 255 k == 1) ≡ true
unfolding all_below
full_table = refl

-- A bitmap of bytes 0xFF has every page used.
pub bitmap_test-full : (n i : ℕ) → i < n * 8 → bitmap_test (replicate n 255) i ≡ 1
unfolding bitmap_test
bitmap_test-full n i h =
    rw (get_or-replicate n (i / 8) 255 (omega arith))
      (table_eq 8 (bit 255) (λ _. 1) (i % 8) full_table (omega arith))
