-- ===== src/Tests/Cycle.antt =====
-- The process image and the exchange thread.
use grippers.Prelude.{◌≡◌, refl, ◌⊎◌, ◌||◌, true, false, some, List, [], ◌∷◌, arith}
use grippers.Command.{zero_command, defaults}
use grippers.Status.{GripperStatus, zero_status}
use grippers.ProcessImage.{publish, Wake, new_image, sync}
use grippers.ProcessImage.History.{
  apply, ImageCall, sets, publishes, closes, after, newest, commanded, has_closed, after_lem,
}
use grippers.ProcessImage.Sync.{SyncAnswer, sync-SyncAnswer}
use grippers.Throttle.{Spaced, executed, executed-Spaced, execute_if_allowed}
use grippers.GripperState.{
  GripperState, operational, answered, failed, Round, run_rounds, initialize_image,
  set_state_command,
}
use grippers.GripperState.Failures.{Degraded, failures, failures-Degraded, Paced, run_rounds-Paced}
use grippers.GripperState.Seeding.{Connects, initialize_image-Connects}
use grippers.GripperState.Threads.{
  answer, copied, Threads, idle, turned, announced, Reach, here, next, Step, copy, reset_count,
  turn, announce, app_sets, Announces, Reach-Announces,
}

abbrev shown : GripperStatus
shown = record zero_status { gripper_status = record { raw = 0x39 }; position_request_echo = 120 }

abbrev calls : List ImageCall
calls = closes ∷ publishes defaults shown 70 ∷ sets defaults ∷ publishes zero_command shown 40 ∷ []

after_lem_example :
    ((after calls new_image).stamped ≡ newest new_image.stamped calls)
    × ((after calls new_image).next_command ≡ commanded zero_command calls)
    × ((after calls new_image).closed ≡ (has_closed calls || false))
after_lem_example = after_lem calls new_image (omega arith)

-- Nothing new at the first wake, an exchange at the second.
abbrev quiet : Wake
quiet = record { image = new_image; now = 10 }

abbrev woken : Wake
woken = record { image = after (publishes defaults shown 20 ∷ []) new_image; now = 21 }

sync-SyncAnswer_example : SyncAnswer 0 100 (quiet ∷ woken ∷ []) (sync 0 100 quiet (woken ∷ []))
sync-SyncAnswer_example = sync-SyncAnswer 0 100 quiet (woken ∷ [])

executed-Spaced_example :
    Spaced 1000 0 (executed (record { period = 1000; last = 0 }) (5 ∷ 1200 ∷ 1900 ∷ 2300 ∷ []))
executed-Spaced_example =
    executed-Spaced (record { period = 1000; last = 0 }) 0 (5 ∷ 1200 ∷ 1900 ∷ 2300 ∷ [])
      (omega arith) (omega arith)

at_most_once_a_period :
    executed (record { period = 1000; last = 0 }) (5 ∷ 1200 ∷ 1900 ∷ 2300 ∷ []) ≡ 1200 ∷ 2300 ∷ []
unfolding execute_if_allowed
at_most_once_a_period = refl

abbrev live : GripperState
live = record {
  failure_log_throttle = record { period = 1000000000; last = 0 };
  period = 10000000;
  image = new_image;
  connection_state = operational;
  running = true;
  consecutive_failures = 0;
  log = [];
}

failures-Degraded_example : Degraded live (failures 5 live) 5
failures-Degraded_example = failures-Degraded 5 live refl refl

abbrev rounds : List Round
rounds =
    record { outcome = answered shown 3; log_now = 3; now = 4 }
    ∷ record { outcome = failed; log_now = 50000000; now = 50000001 }
    ∷ []

run_rounds-Paced_example : Paced 10000000 0 rounds (run_rounds rounds 0 live).1
run_rounds-Paced_example = run_rounds-Paced rounds 0 live

initialize_image-Connects_example :
    Connects live (some (shown, 9)) (initialize_image (failed ∷ answered shown 9 ∷ []) live)
initialize_image-Connects_example = initialize_image-Connects (failed ∷ answered shown 9 ∷ []) live

abbrev at_rest : Threads
at_rest = record { state = live; place = idle }

-- A cycle with a command set by the application while the exchange is in flight.
abbrev before_announce : Threads
before_announce = record {
  state = record (unfold set_state_command in set_state_command defaults live) {
    consecutive_failures = 0;
    connection_state = operational;
  };
  place = turned zero_command shown 5 false;
}

reached : Reach at_rest before_announce
unfolding set_state_command
reached =
    next
      (next (next (next here (copy live)) (app_sets live _ defaults))
        (reset_count _ zero_command shown 5))
      (turn _ zero_command shown 5)

abbrev after_announce : Threads
after_announce = record {
  state = record before_announce.state {
    image = after (publishes zero_command shown 5 ∷ []) before_announce.state.image;
  };
  place = announced false;
}

announcing : Step before_announce after_announce
unfolding set_state_command apply publish
announcing = announce _ zero_command shown 5 false

Reach-Announces_example :
    (after_announce.state.image.stamped ≡ before_announce.state.image.stamped)
    ⊎ Announces after_announce (copied reached) (answer reached)
Reach-Announces_example = Reach-Announces {t = at_rest} refl reached announcing
