-- ===== src/Tests/Tasks.antt =====
-- The platform over ThreadX, on a semaphore that is a number.
use grippers.Prelude.{ℕ, zero, suc, ◌+◌, ◌<◌, ◌≡◌, refl, Option, none, some, arith}
use grippers.ThreadX.{
  Semaphore, Counts, Condition, new_condition, register, come_back, leave, load, put_token,
  Accesses, registers, takes, leaves, puts, here, next,
}
use grippers.ThreadX.Notifications.{Quiet, still, then_puts, Provided, load-Provided}

abbrev take_one : ℕ → Option ℕ
take_one zero = none
take_one (suc s) = some s

abbrev number : Semaphore ℕ
number = record { created = 0; get = take_one; put = λ s. s + 1 }

get_number : (s : ℕ) → 0 < s → (s' : ℕ) × (take_one s ≡ some s')
get_number zero p = absurd (omega arith)
get_number (suc s) p = (s, refl)

got_number : (s s' : ℕ) → take_one s ≡ some s' → s ≡ s' + 1
got_number s s' e = ground (arith, e)

abbrev number-Counts : Counts number
number-Counts = record {
  available = λ s. s;
  available-created = refl;
  available-put = λ s. refl;
  available-get = got_number;
  get_available = get_number;
}

-- Two callers wait when the notification comes.
two_wait :
    Accesses number
      (new_condition number)
      (register number (register number (new_condition number)))
two_wait = next (next here registers) registers

abbrev notified : Condition ℕ
notified = load number (register number (register number (new_condition number)))

one_put : Quiet number number-Counts notified (put_token number notified)
unfolding load register new_condition
one_put = then_puts still (omega arith)

load-Provided_example :
    Provided number number-Counts (put_token number notified)
    × ((put_token number notified).pending ≡ 0
        → 0 < (put_token number notified).in_get
        → (s : ℕ) × (take_one (put_token number notified).semaphore ≡ some s))
load-Provided_example = load-Provided number number-Counts two_wait one_put

-- A caller that comes back, registers again and comes back again takes both tokens of a
-- notification: the other one, registered before it, waits on with none left.
stolen :
    (c : Condition ℕ) × Accesses number notified c
    × (c.pending ≡ 0)
    × (c.in_get ≡ 1)
    × (take_one c.semaphore ≡ none)
unfolding load register new_condition put_token come_back leave
stolen = (
  _,
  next
      (next
        (next
          (next (next (next here (puts (omega arith))) (puts (omega arith)))
            (takes {s = 1} (omega arith) refl))
          (leaves (omega arith)))
        registers)
      (takes {s = 0} (omega arith) refl),
  refl,
  refl,
  refl,
)
