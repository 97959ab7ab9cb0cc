-- ===== src/ThreadX/Notifications.antt =====
-- When the condition variable over ThreadX loses no notification.
use grippers.Prelude.{◌+◌, ◌≤◌, ◌<◌, ◌≡◌, refl, some, arith}
use grippers.ThreadX.{
  Semaphore, Counts, Condition, new_condition, register, come_back, leave, load, put_token, Access,
  Accesses, registers, takes, times_out, leaves, loads, puts, here, next,
}

module _ {S : Type 0} (k : Semaphore S) (l : Counts k) where
  open l use {available}

  -- The atomic counts the callers that have registered and not left.
  abbrev pub Counted : Condition S → Type 0
  Counted c = c.waiters ≡ c.in_get + c.back

  Access-Counted : {c d : Condition S} → Access k c d → Counted c → Counted d
  unfolding register come_back leave load put_token
  Access-Counted registers h = omega arith
  Access-Counted (takes p g) h = omega arith
  Access-Counted (times_out p) h = omega arith
  Access-Counted (leaves p) h = omega arith
  Access-Counted loads h = h
  Access-Counted (puts p) h = h

  Accesses-Counted : {c d : Condition S} → Accesses k c d → Counted c → Counted d
  Accesses-Counted here h = h
  Accesses-Counted (next r a) h = Access-Counted a (Accesses-Counted r h)

  -- Accesses among which no caller registers.
  pub data Quiet (c : Condition S) : Condition S → Type 0 where
    still : Quiet c c
    then_takes :
        {d : Condition S} {s : S}
        → Quiet c d
        → 0 < d.in_get
        → k.get d.semaphore ≡ some s
        → Quiet c (come_back k s d)
    then_times_out :
        {d : Condition S} → Quiet c d → 0 < d.in_get → Quiet c (come_back k d.semaphore d)
    then_leaves : {d : Condition S} → Quiet c d → 0 < d.back → Quiet c (leave k d)
    then_loads : {d : Condition S} → Quiet c d → Quiet c (load k d)
    then_puts : {d : Condition S} → Quiet c d → 0 < d.pending → Quiet c (put_token k d)

  -- There is a token, or one to come, for each caller that waits.
  abbrev pub Provided : Condition S → Type 0
  Provided c = c.in_get ≤ available c.semaphore + c.pending

  Quiet-Provided : {c d : Condition S} → Quiet c d → Provided c → Provided d
  unfolding register come_back leave load put_token
  Quiet-Provided still h = h
  Quiet-Provided (then_takes {d} {s} q p g) h =
      omega (arith, l.available-get d.semaphore s g, Quiet-Provided q h)
  Quiet-Provided (then_times_out q p) h = omega (arith, Quiet-Provided q h)
  Quiet-Provided (then_leaves q p) h = Quiet-Provided q h
  Quiet-Provided (then_loads q) h = omega (arith, Quiet-Provided q h)
  Quiet-Provided (then_puts {d} q p) h =
      omega (arith, l.available-put d.semaphore, Quiet-Provided q h)

  -- Over a semaphore that counts as documented: from a new condition variable, through any
  -- accesses, a notifyAll() that reads the count of waiters provides for every caller that waits
  -- then, through any accesses that follow as long as no caller registers: once the tokens are put,
  -- a caller that still waits gets one at once.
  pub load-Provided :
      {c d : Condition S}
      → Accesses k (new_condition k) c
      → Quiet (load k c) d
      → Provided d × (d.pending ≡ 0 → 0 < d.in_get → (s : S) × (k.get d.semaphore ≡ some s))
  unfolding load new_condition
  load-Provided {c} {d} r q =
      let counted : Counted c = Accesses-Counted r refl in
      let h : Provided d = Quiet-Provided q (omega (arith, counted)) in
      (h, λ z p. l.get_available d.semaphore (omega (arith, h)))
