-- ===== src/Sigsupport.antt =====
-- source/sigsupport.c: how each signal is handled. The table `SETTINGS` is an argument, by signal
-- number. A pointer argument is the value that it points to, and NULL is `none`.
pub mod Settings
mod Tests
use iosdbg.Base.{
  ℕ, Bool, true, false, not, ◌&&◌, ◌||◌, Option, none, some, List, ◌==◌, leb, if◌then◌else◌, length,
  get_elem?, set, replicate, ◌⊎◌, inl, inr,
}
use iosdbg.Base.Int.{ℤ, pos, negsuc}

pub record Setting : Type 0 where
  pub notify : Bool
  pub pass : Bool
  pub stop : Bool

abbrev pub initial_settings : List Setting
initial_settings = replicate 32 (record { notify = true; pass = true; stop = true })

pub data SignalError : Type 0 where
  unknown_signal : ℤ → SignalError
  null_pointers : SignalError

-- The values behind the three pointers, if none of them is NULL.
abbrev pub pointed : (notify pass stop : Option Bool) → Option Setting
pointed none pass stop = none
pointed (some n) none stop = none
pointed (some n) (some p) none = none
pointed (some n) (some p) (some s) = some (record { notify = n; pass = p; stop = s })

-- With a signal number that is in the table.
unfoldable pub settings_at :
    ℕ → Option Setting → Bool → List Setting → Option ((SignalError ⊎ Setting) × List Setting)
settings_at n none false table = some (inl null_pointers, table)
settings_at n none true table = none
settings_at n (some given) false table = elim (get_elem? table n) [
  | none ↦ none
  | some current ↦ some (inr current, table)
]
settings_at n (some given) true table = some (inr given, set table n given)

-- The error or the values behind the pointers after the call, and the table. `none` is a write
-- through NULL.
unfoldable pub sigsettings :
    ℤ
    → (notify pass stop : Option Bool) → Bool
    → List Setting
    → Option ((SignalError ⊎ Setting) × List Setting)
unfolding settings_at
sigsettings (negsuc n) notify pass stop write table = some (inl (unknown_signal (negsuc n)), table)
sigsettings (pos n) notify pass stop write table =
    if (n == 0) || leb (length table) n
    then some (inl (unknown_signal (pos n)), table)
    else settings_at n (pointed notify pass stop) write table
