-- ===== src/FakeGripper/Syncs.antt =====
-- The waits of the composed program are the waits of the process image.
use grippers.Prelude.{
  inl, inr, ltb, if◌then◌else◌, Bool-cases, ℕ, ◌≡◌, true, false, some, List, [], ◌∷◌, arith,
}
use grippers.RegisterModel.{RegisterModel}
use grippers.ModbusClient.{Nmbs}
use grippers.ProcessImage.{StampedExchange, Wake}
use grippers.GripperState.{wait_for_exchange}
use grippers.FakeGripper.{step, Run, wait_run, wait_on, System, woken, waits}

module _ (n : Nmbs RegisterModel) (desired deadline : ℕ) where
  -- What a waiter would see at each step of the thread before the deadline, whether it still waits
  -- or not, and then at the deadline.
  abbrev pub wakes : List ℕ → System → List Wake
  wakes [] s = woken (record s { clock = deadline }) ∷ []
  wakes (t ∷ ts) s =
      let later = wakes ts (step n t s) in
      if ltb t deadline
      then woken (step n t s) ∷ later
      else woken (record s { clock = deadline }) ∷ []

  abbrev Returns : List Wake → System → StampedExchange → Type 0
  Returns looks s e = wait_for_exchange desired deadline (woken s) looks ≡ some e

  at_once :
      (looks : List Wake) (s : System)
      → waits desired deadline s ≡ false
      → Returns looks s s.state.image.stamped
  unfolding waits wait_for_exchange
  at_once [] s stop = ground arith
  at_once (look ∷ looks) s stop = ground arith

  by_deadline :
      (s : System)
      → waits desired deadline s ≡ true
      → Returns (woken (record s { clock = deadline }) ∷ []) s s.state.image.stamped
  unfolding waits wait_for_exchange
  by_deadline s more = ground arith

  after_step :
      (looks : List Wake) (s s1 : System) (e : StampedExchange)
      → waits desired deadline s ≡ true
      → Returns looks s1 e
      → Returns (woken s1 ∷ looks) s e
  unfolding waits wait_for_exchange
  after_step looks s s1 e more r = ground (arith, r)

  wait_on-Returns :
      (ts : List ℕ) (s : System)
      → Returns (wakes ts s) s (wait_on n desired deadline ts s).state.image.stamped
  unfolding wait_on
  wait_on-Returns [] s = elim (Bool-cases (waits desired deadline s)) [
    | inl more ↦ rw more (by_deadline s more)
    | inr stop ↦ rw stop (at_once _ s stop)
  ]
  wait_on-Returns (t ∷ ts) s = elim (Bool-cases (waits desired deadline s)) [
    | inr stop ↦ rw stop (at_once (wakes (t ∷ ts) s) s stop)
    | inl more ↦ elim (Bool-cases (ltb t deadline)) [
      | inl soon ↦
          rw (more, soon) (after_step _ s (step n t s) _ more (wait_on-Returns ts (step n t s)))
      | inr late ↦ rw (more, late) (by_deadline s more)
    ]
  ]

  -- However the thread's steps come, the exchange that a wait of the program over the fake device
  -- returns is the one that GripperState's waitForExchange() returns when it is woken at each step
  -- before the deadline and then at the deadline.
  pub wait_run-sync :
      (w : Run)
      → wait_for_exchange desired deadline (woken w.system) (wakes w.schedule w.system)
        ≡ some (wait_run n desired deadline w).0
  unfolding wait_run
  wait_run-sync w = wait_on-Returns w.schedule w.system
