-- ===== src/SerialPort/Bounds.antt =====
-- What the loops of the serial port return.
use grippers.Prelude.{
  refl, ◌==◌, ◌+◌, ◌-◌, take, length-append, length-take-le, leb, Bool-cases, ℕ, ◌≤◌, ◌<◌, ◌≡◌, ◌⊎◌,
  inl, inr, Bool, true, false, Option, none, some, List, [], ◌∷◌, length, arith,
}
use grippers.SerialPort.{
  moved, nothing, signalled, would_block, transfer_fails, raises, again, await_output, write_next,
  write_more, write_loop, write, read_more, Next, read_next, read_loop, read, go_on, Transfer,
  Result, ok, throws, timed_out, poll_timeout, wait_ready, Turn, returns, await_input,
}

-- A wait that has time left never polls with a zero timeout, which would spin until the deadline.
pub poll_timeout_pos :
    (left : ℕ) → 0 < left → (0 < poll_timeout left) × (poll_timeout left ≤ 2147483647)
unfolding poll_timeout
poll_timeout_pos left h = omega arith

abbrev pub Any {ℓ} : {A : Type ℓ} → (A → Type 0) → List A → Type 0
Any P [] = ⊥
Any P (x ∷ xs) = P x ⊎ Any P xs

-- At this turn the loop gave up: the deadline had passed, or poll() timed out.
abbrev pub GivesUp : {A : Type 0} → ℕ → Bool → ℕ → Turn A → Type 0
GivesUp eio unbounded deadline t =
    ((unbounded ≡ false) × (deadline ≤ t.now)) ⊎ (wait_ready eio t.poll ≡ ok timed_out)

-- A transfer that moved no byte, because none was buffered.
abbrev pub Dry : {A : Type 0} → Transfer A → Type 0
Dry (moved bytes) = ⊥
Dry nothing = Unit {0}
Dry signalled = ⊥
Dry would_block = Unit {0}
Dry (transfer_fails e) = ⊥

-- At this turn read() gave up, with nothing buffered.
abbrev pub GivesUpDry : ℕ → ℕ → Turn (List ℕ) → Type 0
GivesUpDry eio deadline t = Dry t.transfer × GivesUp eio false deadline t

-- What read() returned: no more than was asked for, and less only if it gave up at a turn.
abbrev pub ReadAnswer : ℕ → ℕ → ℕ → List (Turn (List ℕ)) → Option (Result (List ℕ)) → Type 0
ReadAnswer eio size deadline turns none = Unit {0}
ReadAnswer eio size deadline turns (some (throws e)) = Unit {0}
ReadAnswer eio size deadline turns (some (ok bytes)) =
    (length bytes ≤ size) × ((length bytes ≡ size) ⊎ Any (GivesUpDry eio deadline) turns)

await_input_returns :
    (eio deadline : ℕ) (t : Turn (List ℕ))
    → await_input eio deadline t.now t.poll ≡ returns
    → GivesUp eio false deadline t
unfolding await_input
await_input_returns eio deadline t e = ground arith

later_turn :
    (eio size deadline : ℕ) (t : Turn (List ℕ)) (ts : List (Turn (List ℕ)))
    (r : Option (Result (List ℕ)))
    → ReadAnswer eio size deadline ts r
    → ReadAnswer eio size deadline (t ∷ ts) r
later_turn eio size deadline t ts none a = tt
later_turn eio size deadline t ts (some (throws e)) a = tt
later_turn eio size deadline t ts (some (ok bytes)) (a, inl full) = (a, inl full)
later_turn eio size deadline t ts (some (ok bytes)) (a, inr gave) = (a, inr (inr gave))

next_read_returns :
    (eio deadline : ℕ) (polled : Bool) (t : Turn (List ℕ)) (x : Transfer (List ℕ))
    → read_next eio deadline polled t x ≡ returns
    → Dry x × GivesUp eio false deadline t
unfolding read_next
next_read_returns eio deadline polled t (moved bytes) e = absurd (ground (arith, e))
next_read_returns eio deadline polled t signalled e = absurd (ground (arith, e))
next_read_returns eio deadline polled t (transfer_fails c) e = absurd (ground (arith, e))
next_read_returns eio deadline polled t would_block e = (tt, await_input_returns eio deadline t e)
next_read_returns eio deadline true t nothing e = absurd (ground (arith, e))
next_read_returns eio deadline false t nothing e = (tt, await_input_returns eio deadline t e)

length-read_more :
    (size : ℕ) (received : List ℕ) (x : Transfer (List ℕ))
    → length received ≤ size
    → length (read_more size received x) ≤ size
length-read_more size received (moved bytes) h = omega (
  arith,
  length-append received (take (size - length received) bytes),
  length-take-le (size - length received) bytes,
)
length-read_more size received nothing h = h
length-read_more size received signalled h = h
length-read_more size received would_block h = h
length-read_more size received (transfer_fails e) h = h

go_on-ReadAnswer :
    (eio size deadline : ℕ) (t : Turn (List ℕ)) (ts : List (Turn (List ℕ))) (received : List ℕ)
    (rest : Bool → Option (Result (List ℕ))) (next : Next)
    → length received ≤ size
    → (next ≡ returns → GivesUpDry eio deadline t)
    → ((b : Bool) → ReadAnswer eio size deadline ts (rest b))
    → ReadAnswer eio size deadline (t ∷ ts) (go_on received rest next)
unfolding go_on
go_on-ReadAnswer eio size deadline t ts received rest returns h gave later =
    (h, inr (inl (gave refl)))
go_on-ReadAnswer eio size deadline t ts received rest (raises e) h gave later = tt
go_on-ReadAnswer eio size deadline t ts received rest (again polled) h gave later =
    later_turn eio size deadline t ts (rest polled) (later polled)

read_loop-ReadAnswer :
    (eio size deadline : ℕ) (turns : List (Turn (List ℕ))) (received : List ℕ) (polled : Bool)
    → length received ≤ size
    → ReadAnswer eio size deadline turns (read_loop eio size deadline turns received polled)
unfolding read_loop
read_loop-ReadAnswer eio size deadline [] received polled h =
    elim (Bool-cases (leb size (length received))) [
      | inl full ↦ rw full (h, inl (ground arith))
      | inr short ↦ rw short tt
    ]
read_loop-ReadAnswer eio size deadline (t ∷ later) received polled h =
    elim (Bool-cases (leb size (length received))) [
      | inl full ↦ rw full (h, inl (ground arith))
      | inr short ↦ rw short (
          go_on-ReadAnswer eio size deadline t later received _ _ h
            (next_read_returns eio deadline polled t t.transfer)
            λ b.
              read_loop-ReadAnswer eio size deadline later (read_more size received t.transfer) b
                (length-read_more size received t.transfer h))
    ]

-- A read never returns more than it was asked for, whatever the system calls answer, and it returns
-- less only where, at a turn that found nothing buffered, the deadline had passed or poll() timed
-- out.
pub read-ReadAnswer :
    (eio size now timeout : ℕ) (turns : List (Turn (List ℕ)))
    → ReadAnswer eio size (now + timeout) turns (read eio size now timeout turns)
unfolding read
read-ReadAnswer eio size now timeout turns =
    read_loop-ReadAnswer eio size (now + timeout) turns [] false (omega arith)

-- What write() returned: no more than it was given, and less only if it gave up at a turn.
abbrev pub WriteAnswer : ℕ → ℕ → Bool → ℕ → List (Turn ℕ) → Option (Result ℕ) → Type 0
WriteAnswer eio size unbounded deadline turns none = Unit {0}
WriteAnswer eio size unbounded deadline turns (some (throws e)) = Unit {0}
WriteAnswer eio size unbounded deadline turns (some (ok sent)) =
    (sent ≤ size) × ((sent ≡ size) ⊎ Any (GivesUp eio unbounded deadline) turns)

next_write_returns :
    (eio : ℕ) (unbounded : Bool) (deadline : ℕ) (t : Turn ℕ) (x : Transfer ℕ)
    → write_next eio unbounded deadline t x ≡ returns
    → GivesUp eio unbounded deadline t
unfolding write_next await_output
next_write_returns eio unbounded deadline t x e = ground arith

write_more-le : (size sent : ℕ) (x : Transfer ℕ) → sent ≤ size → write_more size sent x ≤ size
write_more-le size sent (moved count) h = omega arith
write_more-le size sent nothing h = h
write_more-le size sent signalled h = h
write_more-le size sent would_block h = h
write_more-le size sent (transfer_fails e) h = h

later_write :
    (eio size : ℕ) (unbounded : Bool) (deadline : ℕ) (t : Turn ℕ) (ts : List (Turn ℕ))
    (r : Option (Result ℕ))
    → WriteAnswer eio size unbounded deadline ts r
    → WriteAnswer eio size unbounded deadline (t ∷ ts) r
later_write eio size unbounded deadline t ts none a = tt
later_write eio size unbounded deadline t ts (some (throws e)) a = tt
later_write eio size unbounded deadline t ts (some (ok sent)) (a, inl full) = (a, inl full)
later_write eio size unbounded deadline t ts (some (ok sent)) (a, inr gave) = (a, inr (inr gave))

go_on-WriteAnswer :
    (eio size : ℕ) (unbounded : Bool) (deadline : ℕ) (t : Turn ℕ) (ts : List (Turn ℕ)) (sent : ℕ)
    (rest : Bool → Option (Result ℕ)) (next : Next)
    → sent ≤ size
    → (next ≡ returns → GivesUp eio unbounded deadline t)
    → ((b : Bool) → WriteAnswer eio size unbounded deadline ts (rest b))
    → WriteAnswer eio size unbounded deadline (t ∷ ts) (go_on sent rest next)
unfolding go_on
go_on-WriteAnswer eio size unbounded deadline t ts sent rest returns h gave later =
    (h, inr (inl (gave refl)))
go_on-WriteAnswer eio size unbounded deadline t ts sent rest (raises e) h gave later = tt
go_on-WriteAnswer eio size unbounded deadline t ts sent rest (again b) h gave later =
    later_write eio size unbounded deadline t ts (rest b) (later b)

write_loop-WriteAnswer :
    (eio size : ℕ) (unbounded : Bool) (deadline : ℕ) (turns : List (Turn ℕ)) (sent : ℕ)
    → sent ≤ size
    → WriteAnswer eio size unbounded deadline turns
        (write_loop eio size unbounded deadline turns sent)
unfolding write_loop
write_loop-WriteAnswer eio size unbounded deadline [] sent h = elim (Bool-cases (leb size sent)) [
  | inl full ↦ rw full (h, inl (ground arith))
  | inr short ↦ rw short tt
]
write_loop-WriteAnswer eio size unbounded deadline (t ∷ later) sent h =
    elim (Bool-cases (leb size sent)) [
      | inl full ↦ rw full (h, inl (ground arith))
      | inr short ↦ rw short (
          go_on-WriteAnswer eio size unbounded deadline t later sent _ _ h
            (next_write_returns eio unbounded deadline t t.transfer)
            λ b.
              write_loop-WriteAnswer eio size unbounded deadline later
                (write_more size sent t.transfer) (write_more-le size sent t.transfer h))
    ]

-- A write never counts more bytes than it was given, whatever the system calls answer, and it
-- counts less only where poll() timed out or, with a timeout that is not zero, the deadline had
-- passed.
pub write-WriteAnswer :
    (eio size now timeout : ℕ) (turns : List (Turn ℕ))
    → WriteAnswer eio size (timeout == 0) (now + timeout) turns (write eio size now timeout turns)
unfolding write
write-WriteAnswer eio size now timeout turns =
    write_loop-WriteAnswer eio size (timeout == 0) (now + timeout) turns 0 (omega arith)
