-- ===== src/Sigsupport/Tests.antt =====
-- source/sigsupport.c with its initial settings.
use iosdbg.Base.{◌≡◌, refl, true, false, none, some, List, ◌==◌, if◌then◌else◌, inl, inr, arith}
use iosdbg.Base.Int.{pos}
use iosdbg.Sigsupport.{
  Setting, initial_settings, unknown_signal, null_pointers, sigsettings, settings_at,
}
use iosdbg.Sigsupport.Settings.{asked, sigsettings-asked}

-- SIGINT is passed on and not shown.
abbrev silent : Setting
silent = record { notify = false; pass = true; stop = false }

sigsettings-asked_example :
    (table' : List Setting) × (sigsettings
        (pos 2)
        (some false)
        (some true)
        (some false)
        true
        initial_settings
      ≡ some (inr silent, table'))
    × (asked (pos 3) table' ≡ (if 3 == 2 then some silent else asked (pos 3) initial_settings))
sigsettings-asked_example =
    sigsettings-asked 2 3 silent initial_settings (λ e. omega (arith, e)) (omega arith)
      (λ e. omega (arith, e))

errors :
    (sigsettings (pos 32) (some true) (some true) (some true) false initial_settings
      ≡ some (inl (unknown_signal (pos 32)), initial_settings))
    × (sigsettings (pos 2) none (some true) (some true) false initial_settings
        ≡ some (inl null_pointers, initial_settings))
    × (sigsettings (pos 2) none (some true) (some true) true initial_settings ≡ none)
unfolding sigsettings settings_at
errors = (refl, refl, refl)
