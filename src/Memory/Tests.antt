-- ===== src/Memory/Tests.antt =====
-- source/memutils.c at a concrete kernel.
use iosdbg.Base.{◌≡◌, refl, some, [], ◌∷◌, ◌++◌, drop, arith}
use iosdbg.Memory.{read_memory_at_location, write_memory_to_location, cf_swap_int32, cf_swap_int64}
use iosdbg.Memory.Read.{bytes_at, read_memory_at_location-bytes_at, read_memory_at_location-refused}
use iosdbg.Memory.Swap.{cf_swap_int32-involutive}
use iosdbg.Samples.{sample, refusing, sample_bytes, machine}

-- Two chunks.
read_memory_at_location-bytes_at_example :
    read_memory_at_location sample machine 4096 (9 ∷ []) 300
    ≡ some (0, bytes_at sample_bytes 4096 300 ++ drop 300 (9 ∷ []))
read_memory_at_location-bytes_at_example =
    read_memory_at_location-bytes_at sample machine sample_bytes 4096 300 (λ a n _ _ _. refl)
      (omega arith) (9 ∷ [])

read_memory_at_location-refused_example :
    read_memory_at_location refusing machine 4096 (9 ∷ 9 ∷ []) 2 ≡ some (0, 9 ∷ 9 ∷ [])
read_memory_at_location-refused_example =
    read_memory_at_location-refused refusing machine 1 (λ e. omega (arith, e)) (λ a n. refl) 4096 2
      (9 ∷ 9 ∷ [])

swapped_twice : cf_swap_int32 (cf_swap_int32 0xd4200000) ≡ 0xd4200000
swapped_twice = cf_swap_int32-involutive 0xd4200000 (omega arith)

swap_double_word : cf_swap_int64 0x0102030405060708 ≡ 0x0807060504030201
unfolding cf_swap_int64 cf_swap_int32
swap_double_word = refl

write_word : write_memory_to_location sample machine 4096 0xd4200000 4 ≡ (0, machine)
unfolding write_memory_to_location
write_word = refl
