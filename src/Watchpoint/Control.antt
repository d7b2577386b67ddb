-- ===== src/Watchpoint/Control.antt =====
-- What the control register of a watchpoint in source/watchpoint.c makes the processor watch.
use iosdbg.Base.{
  ℕ, ◌+◌, ◌-◌, ◌*◌, ◌/◌, ◌%◌, ◌^◌, ◌≤◌, ◌<◌, ◌≡◌, refl, Bool, true, false, ◌&&◌, not, passes,
  passes_lem, ltb, leb, ◌==◌, arith,
}
use Prim.Native.Nat.{bit_or}
use iosdbg.Watchpoint.{wcr_value}

-- The register for an address whose offset in its double word is `off`.
abbrev wcr_at : (off len lsc : ℕ) → ℕ
wcr_at off len lsc = bit_or (bit_or (bit_or ((2 ^ len - 1) * 2 ^ off * 2 ^ 5) (lsc * 8)) 4) 1

-- Two tests have one outcome.
abbrev agree : Bool → Bool → Bool
agree true b = b
agree false b = not b

agree_sound : (a b : Bool) → agree a b ≡ true → a ≡ b
agree_sound a b h = ground arith

-- The checks at an offset, a length and an access, and at a byte of the double word.
byte_ok : (off len lsc b : ℕ) → Bool
byte_ok off len lsc b =
    agree (wcr_at off len lsc / 2 ^ (5 + b) % 2 == 1) (leb off b && ltb b (off + len))

fields_ok : (off len lsc : ℕ) → Bool
fields_ok off len lsc =
    agree (ltb (wcr_at off len lsc) (2 ^ 13)) (leb (off + len) 8)
    && (wcr_at off len lsc % 2 ^ 5 == lsc * 8 + 5)

-- E is bit 0, PAC for user mode is 0b10 in bits 1 and 2, LSC is in bits 3 and 4, and BAS from bit 5
-- on has `len` bits from that of the first byte on.
abbrev pub user_watch : (location len access : ℕ) → ℕ
user_watch location len access =
    1 + 2 * 2 ^ 1 + access * 2 ^ 3 + (2 ^ len - 1) * 2 ^ (5 + location % 8)

sum_ok : (off len lsc : ℕ) → Bool
sum_ok off len lsc =
    wcr_at off len lsc == 1 + 2 * 2 ^ 1 + lsc * 2 ^ 3 + (2 ^ len - 1) * 2 ^ (5 + off)

sum_table : passes (λ off. passes (λ len. passes (sum_ok off len) 4) 9) 8 ≡ true
unfolding passes sum_ok
sum_table = refl

byte_table :
    passes (λ off. passes (λ len. passes (λ lsc. passes (byte_ok off len lsc) 8) 4) 9) 8 ≡ true
unfolding passes byte_ok
byte_table = refl

field_table : passes (λ off. passes (λ len. passes (fields_ok off len) 4) 9) 8 ≡ true
unfolding passes fields_ok
field_table = refl

module _ (location len lsc : ℕ) (short : len ≤ 8) (access : lsc < 4) where
  pub wcr_value-user_watch : wcr_value location len (lsc * 8) ≡ user_watch location len lsc
  unfolding wcr_value sum_ok
  wcr_value-user_watch =
      let ok = passes_lem _ 4 lsc access (
        passes_lem _ 9 len (omega arith) (passes_lem _ 8 (location % 8) (omega arith) sum_table)) in
      ground (arith, ok)

  -- For a length of at most 8 bytes and an access below 4, the processor watches exactly the bytes
  -- of the double word at the aligned address that lie in the `len` bytes from the address on: byte
  -- `b` has bit `5 + b` of the register.
  pub wcr_value-watches :
      (b : ℕ)
      → b < 8
      → (wcr_value location len (lsc * 8) / 2 ^ (5 + b) % 2 == 1)
        ≡ (leb (location % 8) b && ltb b (location % 8 + len))
  unfolding wcr_value byte_ok
  wcr_value-watches b hb = agree_sound _ _ (
      passes_lem _ 8 b hb (
        passes_lem _ 4 lsc access (
          passes_lem _ 9 len (omega arith)
            (passes_lem _ 8 (location % 8) (omega arith) byte_table))))

  -- For a length of at most 8 bytes and an access below 4, the register is enabled for user mode
  -- with the access that was asked for; and its other fields, from bit 13 on, are clear exactly
  -- when the watched bytes do not pass the end of the double word.
  pub wcr_value-fields :
      (ltb (wcr_value location len (lsc * 8)) (2 ^ 13) ≡ leb (location % 8 + len) 8)
      × (wcr_value location len (lsc * 8) % 2 ^ 5 ≡ lsc * 8 + 5)
  unfolding wcr_value fields_ok
  wcr_value-fields =
      let both = passes_lem _ 4 lsc access (
        passes_lem _ 9 len (omega arith)
          (passes_lem _ 8 (location % 8) (omega arith) field_table)) in
      (agree_sound _ _ (ground arith), ground arith)
