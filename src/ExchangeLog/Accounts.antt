-- ===== src/ExchangeLog/Accounts.antt =====
-- The rows and the warnings account for every exchange.
use grippers.Prelude.{
  Option, none, some, ltb, ℕ, ◌+◌, ◌-◌, ◌≤◌, ◌<◌, ◌≡◌, refl, Bool, true, false, List, [], ◌∷◌, ◌++◌,
  arith, Bool-cases, inl, inr, ◌==◌, if◌then◌else◌,
}
use grippers.Byte.{u64}
use grippers.ProcessImage.{StampedExchange}
use grippers.Gripper.{Handle, wait_for_exchange_count, deadline_after}
use grippers.Gripper.Waits.{Laws}
use grippers.ExchangeLog.{
  take_exchange, record_from, run_recorder, Turn, cycle_timeout, Entry, row, fell_behind,
  write_error, Recorder, note_gap, write_exchange, check_stream,
}

-- From one count to another, the entries tell of each exchange once, in their order: a row of the
-- next count, or a warning of one or more from the next count on.
abbrev pub Tells : ℕ → List Entry → ℕ → Type 0
Tells from [] to = from ≡ to
Tells from (row e ∷ later) to = (e.exchange_count ≡ from + 1) × Tells e.exchange_count later to
Tells from (fell_behind a b ∷ later) to = (a ≡ from + 1) × (a ≤ b) × Tells b later to
Tells from (write_error k ∷ later) to = Tells from later to

Tells-append :
    (from mid to : ℕ) (es more : List Entry)
    → Tells from es mid
    → Tells mid more to
    → Tells from (es ++ more) to
Tells-append from mid to [] more t u = rw t u
Tells-append from mid to (row e ∷ es) more t u =
    (t.0, Tells-append e.exchange_count mid to es more t.1 u)
Tells-append from mid to (fell_behind a b ∷ es) more t u =
    (t.0, t.1, Tells-append b mid to es more t.2 u)
Tells-append from mid to (write_error k ∷ es) more t u = Tells-append from mid to es more t u

-- The row whose write failed is in no total.
abbrev pub lost : Bool → ℕ
lost failed = if failed then 1 else 0

-- Since the first exchange, and up to the one that it wrote last.
pub record Accounts (first : ℕ) (r : Recorder) : Type 0 where
  pub tells : Tells first r.entries r.written
  pub totals : first + r.rows + r.skipped + lost r.write_failed ≡ r.written

-- Before its row is in a total.
record Pending (first : ℕ) (r : Recorder) : Type 0 where
  tells : Tells first r.entries r.written
  totals : first + r.rows + r.skipped + 1 ≡ r.written
  sound : r.write_failed ≡ false

-- The warning and the row of an exchange that is newer than the one written last.
write_exchange-Pending :
    (first : ℕ) (e : StampedExchange) (r : Recorder)
    → Accounts first r
    → r.write_failed ≡ false
    → r.written < e.exchange_count
    → e.exchange_count < 18446744073709551616
    → Pending first (write_exchange e r)
unfolding write_exchange note_gap
write_exchange-Pending first e r a sound newer small =
    let count = e.exchange_count in
    let u : u64 (r.written + 1) ≡ r.written + 1 = omega arith in
    let before : first + r.rows + r.skipped ≡ r.written = ground (arith, a.totals, sound) in
    elim (Bool-cases (count == r.written + 1)) [
      | inl next ↦
          rw (u, next)
            (record {
              tells =
                  Tells-append first r.written count r.entries (row e ∷ []) a.tells
                    (ground (arith, next), refl);
              totals = ground (arith, next, before);
              sound = sound;
            })
      | inr missed ↦
          let v : u64 (r.skipped + (count + (18446744073709551615 - r.written)))
              ≡ r.skipped + (count - r.written - 1) =
            omega (arith, before, newer, small) in
          let c : u64 (count + 18446744073709551615) ≡ count - 1 = omega (arith, newer, small) in
          let gap : Tells r.written (fell_behind (r.written + 1) (count - 1) ∷ []) (count - 1) =
            (refl, ground (arith, missed), refl) in
          rw (u, missed, v, c)
            (record {
              tells =
                  Tells-append first (count - 1) count
                    (r.entries ++ (fell_behind (r.written + 1) (count - 1) ∷ [])) (row e ∷ [])
                    (Tells-append first r.written (count - 1) r.entries _ a.tells gap)
                    (omega arith, refl);
              totals = ground (arith, missed, before);
              sound = sound;
            })
    ]

-- The state of the loop, and what it leaves when it returns.
record Loops (first limit : ℕ) (r : Recorder) : Type 0 where
  accounts : Accounts first r
  sound : r.write_failed ≡ false
  below : r.written < limit

check_stream-Accounts :
    (ok : Bool) (first limit : ℕ) (r : Recorder)
    → limit < 18446744073709551616
    → Pending first r
    → r.written < limit
    → (let (goes_on, r1) = check_stream ok r in
        Accounts first r1 × (goes_on ≡ true → Loops first limit r1))
unfolding check_stream
check_stream-Accounts true first limit r fits p below =
    let u : u64 (r.rows + 1) ≡ r.rows + 1 = omega (arith, p.totals) in
    let a : Accounts first (record r { rows = u64 (r.rows + 1) }) = record {
      tells = p.tells;
      totals = rw (u, p.sound) (omega (arith, p.totals));
    } in
    (a, λ e. record { accounts = a; sound = p.sound; below = below })
check_stream-Accounts false first limit r fits p below = (
  record {
    tells = Tells-append first r.written r.written r.entries (write_error r.rows ∷ []) p.tells refl;
    totals = p.totals;
  },
  λ e. absurd (ground (arith, e)),
)

-- What waitForExchangeCount() answers.
abbrev Newer : ℕ → ℕ → Option StampedExchange → Type 0
Newer desired limit none = Unit {0}
Newer desired limit (some e) = (desired ≤ e.exchange_count) × (e.exchange_count < limit)

take_exchange-Accounts :
    (ok : Bool) (first limit : ℕ) (o : Option StampedExchange) (r : Recorder)
    → limit < 18446744073709551616
    → Loops first limit r
    → Newer (u64 (r.written + 1)) limit o
    → (let (goes_on, r1) = take_exchange ok o r in
        Accounts first r1 × (goes_on ≡ true → Loops first limit r1))
unfolding take_exchange
take_exchange-Accounts ok first limit none r fits l newer = (l.accounts, λ e. l)
take_exchange-Accounts ok first limit (some e) r fits l newer =
    check_stream-Accounts ok first limit (write_exchange e r) fits
      (write_exchange-Pending first e r l.accounts l.sound (omega (arith, newer.0, l.below))
        (omega (arith, newer.1)))
      (unfold write_exchange in newer.1)

module _ {W : Type 0} (h : Handle W) (laws : Laws h) where
  wait_for_exchange_count-Newer :
      (desired timeout : ℕ) (w : W)
      → Newer desired laws.limit (wait_for_exchange_count h desired timeout w).0
  unfolding wait_for_exchange_count
  wait_for_exchange_count-Newer desired timeout w =
      let w1 = (h.now w).1 in
      let fresh = (h.wait_for_exchange desired (deadline_after timeout (h.now w).0) w1).0 in
      elim (Bool-cases (ltb fresh.exchange_count desired)) [
        | inl stale ↦ rw stale tt
        | inr new ↦ rw new (ground (arith, new), laws.wait_below _ _ w1)
      ]

  record_from-Accounts :
      (first : ℕ) (turns : List Turn) (r : Recorder) (w : W)
      → Loops first laws.limit r
      → Accounts first (record_from h turns r w).0
  unfolding record_from
  record_from-Accounts first [] r w l = l.accounts
  record_from-Accounts first (turn ∷ later) r w l =
      let wait = wait_for_exchange_count h (u64 (r.written + 1)) cycle_timeout w in
      let (a, goes_on) =
        take_exchange-Accounts turn.stream_ok first laws.limit wait.0 r laws.limit_fits l
          (wait_for_exchange_count-Newer (u64 (r.written + 1)) cycle_timeout w) in
      let next = take_exchange turn.stream_ok wait.0 r in
      elim (Bool-cases turn.stop) [
        | inl stop ↦ simp (stop) (l.accounts)
        | inr on ↦ elim (Bool-cases next.0) [
          | inl more ↦
              simp (on, more) (record_from-Accounts first later next.1 wait.1 (goes_on more))
          | inr over ↦ simp (on, over) a
        ]
      ]

  -- For a gripper that keeps the laws of its waits, whatever the turns of the recorder meet:
  -- stalls, exchanges missed, a write that fails, a stop. The rows and the warnings, in their
  -- order, tell of every exchange since the first exactly once, up to the one written last; and the
  -- totals of rows and of skipped exchanges add up to their number, with the row whose write
  -- failed, if one did.
  pub run_recorder-Accounts :
      (turns : List Turn) (w : W)
      → Accounts (h.stamped_exchange w).0.exchange_count (run_recorder h turns w).0
  unfolding run_recorder
  run_recorder-Accounts turns w =
      let first = (h.stamped_exchange w).0.exchange_count in
      record_from-Accounts first turns _ (h.stamped_exchange w).1 (record {
        accounts = record { tells = refl; totals = omega arith };
        sound = refl;
        below = laws.stamped_below w;
      })
