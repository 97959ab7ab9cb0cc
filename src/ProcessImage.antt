-- ===== src/ProcessImage.antt =====
-- sdk_cpp/src/process_image.hpp and sdk_cpp/src/process_image.cpp, with the stamped records of
-- sdk_cpp/include/Robotiq/gripper/stamped_exchange.hpp. Every method holds the lock for its whole
-- body, so a method is one function; sync() gives the lock up while it waits. Times are counts of
-- nanoseconds.
pub mod History
pub mod Sync
use grippers.Prelude.{
  ℕ, ◌+◌, Bool, true, false, not, ◌&&◌, Option, none, some, List, [], ◌∷◌, ltb, leb, if◌then◌else◌,
}
use grippers.Byte.{u64}
use grippers.Command.{GripperCommand, zero_command}
use grippers.Status.{GripperStatus, zero_status}

pub record ExchangeMetadata : Type 0 where
  pub exchange_count : ℕ
  pub timestamp : ℕ

pub record StampedExchange : Type 0 where
  pub metadata : ExchangeMetadata
  pub open metadata use *
  pub command : GripperCommand
  pub status : GripperStatus

pub record ProcessImage : Type 0 where
  pub next_command : GripperCommand
  pub stamped : StampedExchange
  pub closed : Bool

abbrev pub new_image : ProcessImage
new_image = record {
  next_command = zero_command;
  stamped = record {
    metadata = record { exchange_count = 0; timestamp = 0 };
    command = zero_command;
    status = zero_status;
  };
  closed = false;
}

unfoldable pub seed : GripperStatus → ℕ → GripperCommand → ProcessImage → ProcessImage
seed status at command p = record p {
  stamped = record {
    metadata = record { exchange_count = 0; timestamp = at };
    command = command;
    status = status;
  };
  next_command = command;
}

unfoldable pub set_command : GripperCommand → ProcessImage → ProcessImage
set_command command p = record p { next_command = command }

unfoldable pub publish : GripperCommand → GripperStatus → ℕ → ProcessImage → ProcessImage
publish command status completed_at p = record p {
  stamped = record {
    metadata = record {
      exchange_count = u64 (p.stamped.exchange_count + 1);
      timestamp = completed_at;
    };
    command = command;
    status = status;
  };
}

unfoldable pub close : ProcessImage → ProcessImage
close p = record p { closed = true }

-- The image and the clock as a waiter finds them when it holds the lock again.
pub record Wake : Type 0 where
  pub image : ProcessImage
  pub now : ℕ

-- The test of the waiting loop.
unfoldable pub keeps_waiting : ℕ → ℕ → Wake → Bool
keeps_waiting count deadline w =
    leb w.image.stamped.exchange_count count && not w.image.closed && ltb w.now deadline

-- sync() over the wakes that the condition variable hands it, the first being the call itself.
-- `none` means that it waits on after the last of them.
unfoldable pub sync : ℕ → ℕ → Wake → List Wake → Option StampedExchange
unfolding keeps_waiting
sync count deadline w [] = if keeps_waiting count deadline w then none else some w.image.stamped
sync count deadline w (next ∷ later) =
    let rest = sync count deadline next later in
    if keeps_waiting count deadline w then rest else some w.image.stamped
