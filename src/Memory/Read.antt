-- ===== src/Memory/Read.antt =====
-- What `read_memory_at_location` of source/memutils.c stores and returns.
use iosdbg.Base.{
  ℕ, zero, suc, ◌+◌, ◌-◌, ◌%◌, ◌≤◌, ◌<◌, ◌≡◌, ◌≢◌, refl, false, some, List, [], ◌∷◌, ◌++◌, ◌==◌,
  ltb, take-append-drop, drop, length, arith, ap, sym, Bool-cases, inl, inr,
}
use Prim.Native.Nat.add
use native.Mathlib.Nat.{add-zero}
use mathlib.Core.List.{append_assoc}
use iosdbg.Base.Slices.{take-append_exact, drop-append_exact, drop-drop}
use iosdbg.Debuggee.{Kernel}
use iosdbg.Memory.{addr_mod, put_bytes, min_chunk, read_loop, read_memory_at_location}

-- The `n` bytes of a memory from an address on.
abbrev pub bytes_at : (ℕ → ℕ) → ℕ → ℕ → List ℕ
bytes_at mem a zero = []
bytes_at mem a (suc n) = mem a ∷ bytes_at mem (a + 1) n

length-bytes_at : (mem : ℕ → ℕ) (a n : ℕ) → length (bytes_at mem a n) ≡ n
length-bytes_at mem a zero = refl
length-bytes_at mem a (suc n) = ap suc (length-bytes_at mem (a + 1) n)

bytes_at-add :
    (mem : ℕ → ℕ) (a n m : ℕ) → bytes_at mem a (n + m) ≡ bytes_at mem a n ++ bytes_at mem (a + n) m
bytes_at-add mem a zero m = rw (add.zero, add-zero)
bytes_at-add mem a (suc n) m =
    let e : a + 1 + n ≡ a + suc n = omega arith in
    rw (add.suc, bytes_at-add mem (a + 1) n m, e) refl

-- The next chunk goes behind the bytes that are there.
put_chunk :
    (mem : ℕ → ℕ) (a i c : ℕ) (buf : List ℕ)
    → put_bytes (bytes_at mem a i ++ drop i buf) i (bytes_at mem (a + i) c)
      ≡ bytes_at mem a (i + c) ++ drop (i + c) buf
unfolding put_bytes
put_chunk mem a i c buf =
    let xs = bytes_at mem a i in
    let bs = bytes_at mem (a + i) c in
    let size = length-bytes_at mem a i in
    rw
      (
        length-bytes_at mem (a + i) c,
        take-append_exact i xs (drop i buf) size,
        drop-append_exact i c xs (drop i buf) size,
        drop-drop i c buf,
        bytes_at-add mem a i c,
      )
      (sym (append_assoc xs bs (drop (i + c) buf)))

module _ {W : Type 0} (k : Kernel W) (w : W) (mem : ℕ → ℕ) (location len : ℕ)
    (served : (a n : ℕ)
      → n ≤ 0x100
      → location ≤ a
      → a + n ≤ location + len
      → k.vm_read w a n ≡ (0, bytes_at mem a n))
    (fits : location + len < addr_mod) where
  read_loop-bytes_at :
      (r i : ℕ) (buf : List ℕ)
      → i ≤ len
      → len - i < r
      → read_loop k w r 0
          (location + i)
          (location + len)
          i
          (len - i)
          (bytes_at mem location i ++ drop i buf)
        ≡ some (bytes_at mem location len ++ drop len buf)
  unfolding read_loop
  read_loop-bytes_at zero i buf h fuel = absurd (omega arith)
  read_loop-bytes_at (suc r) i buf h fuel =
      elim (Bool-cases (ltb (location + i) (location + len))) [
        | inl more ↦
            let c = min_chunk (len - i) in
            let c_le : c ≤ len - i = ground arith in
            let c_pos : 0 < c = ground arith in
            let c_max : c ≤ 0x100 = ground arith in
            let e₁ : (location + i + c) % addr_mod ≡ location + (i + c) = omega arith in
            let e₂ : len - i - c ≡ len - (i + c) = omega arith in
            rw
              (
                more,
                served (location + i) c c_max (omega arith) (omega arith),
                length-bytes_at mem (location + i) c,
                put_chunk mem location i c buf,
                e₁,
                e₂,
              )
              (read_loop-bytes_at r (i + c) buf (omega arith) (omega arith))
        | inr end ↦ let e : i ≡ len = ground arith in rw (end, e) refl
      ]

  -- Where the kernel serves every chunk of at most 0x100 bytes inside `location`, `location + len`
  -- from a memory, and the range does not wrap, the rounds suffice, and
  -- `read_memory_at_location` stores exactly the `len` bytes of the memory at the front of the
  -- buffer, and leaves the rest of the buffer.
  pub read_memory_at_location-bytes_at :
      (buf : List ℕ)
      → read_memory_at_location k w location buf len
        ≡ some (0, bytes_at mem location len ++ drop len buf)
  unfolding read_memory_at_location
  read_memory_at_location-bytes_at buf =
      let e₁ : (location + len) % addr_mod ≡ location + len = omega arith in
      let e₂ : location + 0 ≡ location = omega arith in
      let e₃ : len - 0 ≡ len = omega arith in
      let ran = read_loop-bytes_at (len + 1) 0 buf (omega arith) (omega arith) in
      rw (e₁, read_memory_at_location) (rw (rw (e₂, e₃) at ran) refl)

put_nothing : (buf : List ℕ) (i : ℕ) → put_bytes buf i [] ≡ buf
unfolding put_bytes
put_nothing buf i = rw add-zero (take-append-drop i buf)

module _ {W : Type 0} (k : Kernel W) (w : W) (status : ℕ) (ne : status ≢ 0)
    (refuses : (a n : ℕ) → k.vm_read w a n ≡ (status, [])) where
  stop_after :
      (r current end i left : ℕ) (buf : List ℕ)
      → read_loop k w (suc r) status current end i left buf ≡ some buf
  unfolding read_loop
  stop_after r current end i left buf =
      let z : (status == 0) ≡ false = ground (arith, ne) in
      elim (Bool-cases (ltb current end)) [ inl e ↦ rw (e, z) refl | inr e ↦ rw e refl ]

  read_loop-refused :
      (r current end i left : ℕ) (buf : List ℕ)
      → read_loop k w (suc (suc r)) 0 current end i left buf ≡ some buf
  unfolding read_loop
  read_loop-refused r current end i left buf = elim (Bool-cases (ltb current end)) [
    | inl e ↦
        rw (e, refuses current (min_chunk left), put_nothing buf i)
          (stop_after r ((current + 0) % addr_mod) end (i + 0) (left - 0) buf)
    | inr e ↦ rw e refl
  ]

  read_loop-past :
      (r current end : ℕ) (buf : List ℕ)
      → ltb current end ≡ false
      → read_loop k w (suc r) 0 current end 0 0 buf ≡ some buf
  unfolding read_loop
  read_loop-past r current end buf e = rw e refl

  -- Where the kernel refuses every read, with a status that is not KERN_SUCCESS,
  -- `read_memory_at_location` still returns KERN_SUCCESS, and the buffer is what it was.
  pub read_memory_at_location-refused :
      (location len : ℕ) (buf : List ℕ)
      → read_memory_at_location k w location buf len ≡ some (0, buf)
  unfolding read_memory_at_location
  read_memory_at_location-refused location zero buf =
      let end = (location + 0) % addr_mod in
      let e : ltb location end ≡ false = ground arith in
      rw (read_memory_at_location, read_loop-past 0 location end buf e) refl
  read_memory_at_location-refused location (suc len) buf =
      let e : suc len + 1 ≡ suc (suc len) = omega arith in
      rw (read_memory_at_location, e)
        (rw (read_loop-refused len location ((location + suc len) % addr_mod) 0 (suc len) buf) refl)
