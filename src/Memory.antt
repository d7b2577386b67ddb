-- ===== src/Memory.antt =====
-- source/memutils.c: `read_memory_at_location` and `write_memory_to_location`, over the calls of
-- the kernel, and the byte order of an instruction.
pub mod Read
pub mod Swap
mod Tests
use iosdbg.Base.{
  ℕ, zero, suc, ◌+◌, ◌-◌, ◌*◌, ◌/◌, ◌%◌, ◌^◌, Bool, true, false, ◌&&◌, Option, none, some, List, [],
  ◌∷◌, ◌++◌, ◌==◌, ltb, if◌then◌else◌, take, drop, length,
}
use iosdbg.Debuggee.{Kernel}

-- `vm_address_t`
abbrev pub addr_mod : ℕ
addr_mod = 2 ^ 64

-- The first `n` bytes of a number, lowest first.
abbrev pub le_bytes : ℕ → ℕ → List ℕ
le_bytes zero x = []
le_bytes (suc n) x = (x % 256) ∷ le_bytes n (x / 256)

abbrev pub of_le_bytes : List ℕ → ℕ
of_le_bytes [] = 0
of_le_bytes (b ∷ bs) = b + 256 * of_le_bytes bs

-- `bs` is stored into the buffer from index `i` on.
unfoldable pub put_bytes : List ℕ → ℕ → List ℕ → List ℕ
put_bytes buf i bs = take i buf ++ (bs ++ drop (i + length bs) buf)

abbrev pub min_chunk : ℕ → ℕ
min_chunk left = if ltb left 0x100 then left else 0x100

module _ {W : Type 0} (k : Kernel W) (w : W) where
  -- The loop of `read_memory_at_location`; `none` is a loop that has run out of its rounds.
  unfoldable pub read_loop :
      ℕ → (kret current_loc end bytes_read bytes_left : ℕ) → List ℕ → Option (List ℕ)
  read_loop zero kret current_loc end bytes_read bytes_left buf = none
  read_loop (suc r) kret current_loc end bytes_read bytes_left buf =
      let (kret', bs) = k.vm_read w current_loc (min_chunk bytes_left) in
      let rest =
        read_loop r kret' ((current_loc + length bs) % addr_mod) end (bytes_read + length bs)
          (bytes_left - length bs) (put_bytes buf bytes_read bs) in
      if ltb current_loc end && (kret == 0) then rest else some buf

  -- The status that is returned, which is KERN_SUCCESS, and the buffer.
  unfoldable pub read_memory_at_location : ℕ → List ℕ → ℕ → Option (ℕ × List ℕ)
  read_memory_at_location location buf len =
      elim (read_loop (len + 1) 0 location ((location + len) % addr_mod) 0 len buf) [
        | none ↦ none
        | some buf' ↦ some (0, buf')
      ]

  abbrev pub prot_rwc : ℕ
  prot_rwc = 0x13

  -- The status and the state of the kernel after the call.
  unfoldable pub write_memory_to_location : ℕ → ℕ → ℕ → ℕ × W
  write_memory_to_location location value size =
      let (ret, protection) = k.vm_region w location in
      if ret == 0
      then (let w₁ = k.vm_protect w location size prot_rwc in
          let (ret', w₂) = k.vm_write w₁ location (le_bytes size value) in
          (ret', k.vm_protect w₂ location size protection))
      else (ret, w)

-- `CFSwapInt32`, its masks and shifts on a number below 2 ^ 32.
pub cf_swap_int32 : ℕ → ℕ
cf_swap_int32 arg =
    arg % 256 * 2 ^ 24
    + arg / 2 ^ 8 % 256 * 2 ^ 16
    + arg / 2 ^ 16 % 256 * 2 ^ 8
    + arg / 2 ^ 24 % 256

-- `CFSwapInt64`: the two halves, swapped each and exchanged.
pub cf_swap_int64 : ℕ → ℕ
unfolding cf_swap_int32
cf_swap_int64 arg = cf_swap_int32 (arg / 2 ^ 32) + cf_swap_int32 (arg % 2 ^ 32) * 2 ^ 32
