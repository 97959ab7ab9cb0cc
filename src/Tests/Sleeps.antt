-- ===== src/Tests/Sleeps.antt =====
-- Sleeps of the hosted platform on Windows at concrete inputs.
use grippers.Prelude.{◌≡◌, refl, some, true, false, List, [], ◌∷◌}
use grippers.StdPlatform.{TimerRound, sleep_on_windows}
use grippers.StdPlatform.Sleeps.{WindowsAnswer, sleep_on_windows-WindowsAnswer}

-- The timer fires early, then cannot be armed again.
abbrev early_then_lost : List TimerRound
early_then_lost = record { now = 1000; waited = true } ∷ record { now = 1900; waited = false } ∷ []

falls_back : sleep_on_windows true 2000 early_then_lost (1950 ∷ 2001 ∷ []) ≡ some (50 ∷ [])
unfolding sleep_on_windows
falls_back = refl

sleep_on_windows-WindowsAnswer_example :
    WindowsAnswer true 2000 early_then_lost
      (1950 ∷ 2001 ∷ [])
      (sleep_on_windows true 2000 early_then_lost (1950 ∷ 2001 ∷ []))
sleep_on_windows-WindowsAnswer_example =
    sleep_on_windows-WindowsAnswer true 2000 early_then_lost (1950 ∷ 2001 ∷ [])
