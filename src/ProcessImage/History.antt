-- ===== src/ProcessImage/History.antt =====
-- The image as a view of the history of calls made on it.
use grippers.Prelude.{ℕ, suc, ◌+◌, ◌<◌, ◌≡◌, refl, Bool, true, false, ◌||◌, List, [], ◌∷◌, arith}
use grippers.Byte.{u64}
use grippers.Command.{GripperCommand}
use grippers.Status.{GripperStatus}
use grippers.ProcessImage.{StampedExchange, ProcessImage, set_command, publish, close}

pub data ImageCall : Type 0 where
  sets : GripperCommand → ImageCall
  publishes : GripperCommand → GripperStatus → ℕ → ImageCall
  closes : ImageCall

unfoldable pub apply : ImageCall → ProcessImage → ProcessImage
unfolding set_command publish close
apply (sets c) p = set_command c p
apply (publishes c s at) p = publish c s at p
apply closes p = close p

-- The image after the calls, the newest first.
abbrev pub after : List ImageCall → ProcessImage → ProcessImage
after [] p = p
after (c ∷ earlier) p = apply c (after earlier p)

-- How many exchanges the calls published.
abbrev pub published : List ImageCall → ℕ
published [] = 0
published (sets c ∷ earlier) = published earlier
published (publishes c s at ∷ earlier) = suc (published earlier)
published (closes ∷ earlier) = published earlier

-- The record that a history leaves: of the newest published exchange its command, status and
-- time together, numbered by how many there were; the record from before if there was none.
abbrev pub newest : StampedExchange → List ImageCall → StampedExchange
newest before [] = before
newest before (sets c ∷ earlier) = newest before earlier
newest before (publishes c s at ∷ earlier) = record {
  metadata = record {
    exchange_count = u64 (before.exchange_count + suc (published earlier));
    timestamp = at;
  };
  command = c;
  status = s;
}
newest before (closes ∷ earlier) = newest before earlier

-- The command that the next exchange takes: the newest one set.
abbrev pub commanded : GripperCommand → List ImageCall → GripperCommand
commanded before [] = before
commanded before (sets c ∷ earlier) = c
commanded before (publishes c s at ∷ earlier) = commanded before earlier
commanded before (closes ∷ earlier) = commanded before earlier

abbrev pub has_closed : List ImageCall → Bool
has_closed [] = false
has_closed (sets c ∷ earlier) = has_closed earlier
has_closed (publishes c s at ∷ earlier) = has_closed earlier
has_closed (closes ∷ earlier) = true

count-after :
    (calls : List ImageCall) (p : ProcessImage)
    → p.stamped.exchange_count < 18446744073709551616
    → (after calls p).stamped.exchange_count ≡ u64 (p.stamped.exchange_count + published calls)
unfolding apply
count-after [] p h = omega arith
count-after (sets c ∷ earlier) p h = count-after earlier p h
count-after (publishes c s at ∷ earlier) p h = omega (arith, count-after earlier p h)
count-after (closes ∷ earlier) p h = count-after earlier p h

-- After any calls in any order on an image whose count fits 64 bits, the record is that of the
-- newest published exchange, never a mix of two, and its count grew by one, in 64 bits, for each
-- exchange published; the command is the newest set; and an image once closed stays closed.
pub after_lem :
    (calls : List ImageCall) (p : ProcessImage)
    → p.stamped.exchange_count < 18446744073709551616
    → ((after calls p).stamped ≡ newest p.stamped calls)
      × ((after calls p).next_command ≡ commanded p.next_command calls)
      × ((after calls p).closed ≡ (has_closed calls || p.closed))
unfolding apply
after_lem [] p h = (refl, refl, refl)
after_lem (sets c ∷ earlier) p h =
    let (stamp, command, shut) = after_lem earlier p h in (stamp, refl, shut)
after_lem (publishes c s at ∷ earlier) p h =
    let (stamp, command, shut) = after_lem earlier p h in
    (ground (arith, count-after earlier p h), command, shut)
after_lem (closes ∷ earlier) p h =
    let (stamp, command, shut) = after_lem earlier p h in (stamp, command, refl)
