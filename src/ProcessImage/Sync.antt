-- ===== src/ProcessImage/Sync.antt =====
-- When a waiter on the image returns, and with what.
use grippers.Prelude.{
  ℕ, ◌≤◌, ◌<◌, ◌≡◌, refl, ◌⊎◌, inl, inr, true, false, Option, none, some, List, [], ◌∷◌, arith,
  Bool-cases,
}
use grippers.ProcessImage.{StampedExchange, Wake, keeps_waiting, sync}

-- What ends a wait: a newer exchange, a closed image, or the deadline.
abbrev pub Ends : ℕ → ℕ → Wake → Type 0
Ends count deadline w =
    (count < w.image.stamped.exchange_count) ⊎ ((w.image.closed ≡ true) ⊎ (deadline ≤ w.now))

-- No wake of the list ends the wait.
abbrev pub NoneEnds : ℕ → ℕ → List Wake → Type 0
NoneEnds count deadline [] = Unit {0}
NoneEnds count deadline (w ∷ ws) = ¬ (Ends count deadline w) × NoneEnds count deadline ws

-- The wait returns at `w`, the first wake that ends it.
pub data FirstEnd (count deadline : ℕ) : List Wake → Wake → Type 0 where
  at_once : {w : Wake} {ws : List Wake} → Ends count deadline w → FirstEnd count deadline (w ∷ ws) w
  later :
      {w found : Wake} {ws : List Wake}
      → ¬ (Ends count deadline w)
      → FirstEnd count deadline ws found
      → FirstEnd count deadline (w ∷ ws) found

-- sync() waits on exactly when no wake ends the wait, and otherwise returns the record that the
-- image holds at the first wake that does.
abbrev pub SyncAnswer : ℕ → ℕ → List Wake → Option StampedExchange → Type 0
SyncAnswer count deadline ws none = NoneEnds count deadline ws
SyncAnswer count deadline ws (some e) =
    (w : Wake) × FirstEnd count deadline ws w × (e ≡ w.image.stamped)

waits_on :
    (count deadline : ℕ) (w : Wake)
    → keeps_waiting count deadline w ≡ true
    → ¬ (Ends count deadline w)
unfolding keeps_waiting
waits_on count deadline w h e = ground arith

stops :
    (count deadline : ℕ) (w : Wake) → keeps_waiting count deadline w ≡ false → Ends count deadline w
unfolding keeps_waiting
stops count deadline w h = ground arith

after_wake :
    (count deadline : ℕ) (w : Wake) (ws : List Wake) (r : Option StampedExchange)
    → ¬ (Ends count deadline w)
    → SyncAnswer count deadline ws r
    → SyncAnswer count deadline (w ∷ ws) r
after_wake count deadline w ws none not_yet a = (not_yet, a)
after_wake count deadline w ws (some e) not_yet (found, first, same) =
    (found, later not_yet first, same)

-- sync() waits on exactly while neither a newer exchange, nor a close, nor the deadline was seen at
-- a wake; at the first wake that shows one it returns the record of that moment.
pub sync-SyncAnswer :
    (count deadline : ℕ) (w : Wake) (ws : List Wake)
    → SyncAnswer count deadline (w ∷ ws) (sync count deadline w ws)
unfolding sync
sync-SyncAnswer count deadline w [] = elim (Bool-cases (keeps_waiting count deadline w)) [
  | inl more ↦ rw more (waits_on count deadline w more, tt)
  | inr done ↦ rw done (w, at_once (stops count deadline w done), refl)
]
sync-SyncAnswer count deadline w (next ∷ ws) = elim (Bool-cases (keeps_waiting count deadline w)) [
  | inl more ↦ rw more (
      after_wake count deadline w (next ∷ ws) (sync count deadline next ws)
        (waits_on count deadline w more) (sync-SyncAnswer count deadline next ws))
  | inr done ↦ rw done (w, at_once (stops count deadline w done), refl)
]
