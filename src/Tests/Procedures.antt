-- ===== src/Tests/Procedures.antt =====
-- The waits and the activation, on a gripper that answers at once.
use grippers.Prelude.{
  false, ℕ, ◌+◌, ◌<◌, ◌≡◌, refl, min, true, some, List, [], ◌∷◌, arith, if◌then◌else◌, ◌==◌,
}
use grippers.Command.{GripperCommand, zero_command}
use grippers.Status.{GripperStatus, zero_status}
use grippers.ProcessImage.{StampedExchange}
use grippers.ActivationResult.{ActivationResult}
use grippers.Polling.{Sample, PollAnswer, poll_until, poll_until-PollAnswer}
use grippers.Gripper.{Handle, wait_loop, wait_round, wait_for_exchange_after, run_activate}
use grippers.Gripper.Waits.{Laws, top, LoopAnswer, wait_for_exchange_after-LoopAnswer}

-- A clock that moves with each reading, and the commands set.
record Prompt : Type 0 where
  clock : ℕ
  history : List GripperCommand

-- A device that is activated as soon as rACT is set.
abbrev shown : GripperCommand → GripperStatus
shown c = record zero_status {
  gripper_status = record { raw = if c.action.value == 0 then 0 else 0x31 };
}

-- Every wait brings the exchange that it asks for, up to number 99.
abbrev stamped : ℕ → Prompt → StampedExchange
stamped count w = record {
  metadata = record { exchange_count = min count 99; timestamp = w.clock };
  command = top w.history;
  status = shown (top w.history);
}

abbrev prompt : Handle Prompt
prompt = record {
  now = λ w. (w.clock, record w { clock = w.clock + 1 });
  stamped_exchange = λ w. (stamped 0 w, w);
  wait_for_exchange = λ desired deadline w. (stamped desired w, w);
  command = λ w. (top w.history, w);
  set_command = λ c w. record w { history = c ∷ w.history };
}

count-lt : (n : ℕ) → min n 99 < 100
count-lt n = omega arith

limit_fits : 100 < 18446744073709551616
limit_fits = omega arith

abbrev prompt-Laws : Laws prompt
prompt-Laws = record {
  sent = λ w. w.history;
  limit = 100;
  limit_fits = limit_fits;
  now_sent = λ w. refl;
  stamped_sent = λ w. refl;
  wait_sent = λ desired deadline w. refl;
  command_top = λ w. refl;
  command_sent = λ w. refl;
  set_sent = λ c w. refl;
  stamped_below = λ w. count-lt 0;
  wait_below = λ desired deadline w. count-lt desired;
}

abbrev fresh : Prompt
fresh = record { clock = 0; history = zero_command ∷ [] }

activates : (run_activate prompt 200 1000 fresh).0 ≡ some ActivationResult.activated
unfolding run_activate wait_loop wait_round
activates = refl

wait_for_exchange_after-LoopAnswer_example :
    LoopAnswer prompt prompt-Laws
      (λ e. e.exchange_count == 7)
      4
      (zero_command ∷ [])
      (wait_for_exchange_after prompt 200 3 (λ e. e.exchange_count == 7) 1000 fresh)
wait_for_exchange_after-LoopAnswer_example =
    wait_for_exchange_after-LoopAnswer prompt prompt-Laws 200 3 (λ e. e.exchange_count == 7) 1000
      fresh (omega arith) (omega arith)

-- A command that asks for a motion and the emergency release.
abbrev moving : GripperCommand
moving = record zero_command { action = record { value = 0x19 }; position_request = 90 }

-- The predicate holds only after the deadline, at a round that was under way by then.
abbrev polled : List Sample
polled = record { holds = false; now = 99 } ∷ record { holds = true; now = 120 } ∷ []

poll_until-PollAnswer_example : PollAnswer 100 polled (poll_until 100 polled)
poll_until-PollAnswer_example = poll_until-PollAnswer 100 polled
