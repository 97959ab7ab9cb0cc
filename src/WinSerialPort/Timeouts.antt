-- ===== src/WinSerialPort/Timeouts.antt =====
-- The driver's timeouts are those of the call that moves bytes.
use grippers.Prelude.{
  ◌==◌, List, some, ℕ, ◌≡◌, refl, sym, ap, ◌∙◌, inl, inr, Bool, true, ◌&&◌, Option, none, arith,
  Bool-cases,
}
use mathlib.Core.Path.{sym, subst}
use grippers.SerialPort.{Result, ok, throws, Call, succeeds, fails}
use grippers.WinSerialPort.{
  new_port, configure, open_port, read, write, WinOpening, transfer, or_close, configured,
  CommTimeouts, WinSerialPort, same_ms, comm_timeouts, set_timeouts, close_port,
}

same_ms_sound : (a b : Option ℕ) → same_ms a b ≡ true → a ≡ b
same_ms_sound a b h = ground arith

-- An open port's driver has the timeouts that the port remembers.
abbrev pub Agrees : WinSerialPort → Type 0
Agrees p = p.told ≡ comm_timeouts p.read_timeout_ms p.write_timeout_ms

-- What setting a pair leaves: the pair, remembered and told; or, on a failure, nothing.
abbrev pub IsTold : Option ℕ → Option ℕ → WinSerialPort → Result (Unit {0}) × WinSerialPort → Type 0
IsTold r w p (throws e, p') = p' ≡ p
IsTold r w p (ok u, p') =
    (p'.told ≡ comm_timeouts r w)
    × (p'.handle ≡ p.handle)
    × (p'.read_timeout_ms ≡ r)
    × (p'.write_timeout_ms ≡ w)

-- The pair is the port's own.
abbrev same_pair : Option ℕ → Option ℕ → WinSerialPort → Bool
same_pair r w p = same_ms r p.read_timeout_ms && same_ms w p.write_timeout_ms

already_set :
    (r w : Option ℕ) (p : WinSerialPort)
    → same_pair r w p ≡ true
    → (r ≡ p.read_timeout_ms → w ≡ p.write_timeout_ms → Agrees p)
    → IsTold r w p (ok tt, p)
already_set r w p e h =
    let er = same_ms_sound r p.read_timeout_ms (ground (arith, e)) in
    let ew = same_ms_sound w p.write_timeout_ms (ground (arith, e)) in
    (
      h er ew ∙ sym (ap (λ x. comm_timeouts x w) er ∙ ap (comm_timeouts p.read_timeout_ms) ew),
      refl,
      sym er,
      sym ew,
    )

set_timeouts-IsTold :
    (call : Call) (r w : Option ℕ) (p : WinSerialPort)
    → (r ≡ p.read_timeout_ms → w ≡ p.write_timeout_ms → Agrees p)
    → IsTold r w p (set_timeouts call r w p)
unfolding set_timeouts
set_timeouts-IsTold succeeds r w p h = elim (Bool-cases (same_pair r w p)) [
  | inl e ↦ rw e (already_set r w p e h)
  | inr e ↦ rw e (refl, refl, refl, refl)
]
set_timeouts-IsTold (fails c) r w p h = elim (Bool-cases (same_pair r w p)) [
  | inl e ↦ rw e (already_set r w p e h)
  | inr e ↦ rw e refl
]

-- A closed port remembers no timeouts; an open one remembers what its driver was told.
abbrev pub CoherentAt : Option ℕ → WinSerialPort → Type 0
CoherentAt none p = (p.read_timeout_ms ≡ none) × (p.write_timeout_ms ≡ none)
CoherentAt (some h) p = Agrees p

abbrev pub Coherent : WinSerialPort → Type 0
Coherent p = CoherentAt p.handle p

closed_Coherent :
    (h : Option ℕ) (p : WinSerialPort)
    → CoherentAt h (record p { handle = h })
    → Coherent (close_port (record p { handle = h }))
unfolding close_port
closed_Coherent none p c = c
closed_Coherent (some h) p c = (refl, refl)

-- Closing an open port needs nothing of it.
shut_Coherent : (h : ℕ) (p : WinSerialPort) → Coherent (close_port (record p { handle = some h }))
unfolding close_port
shut_Coherent h p = (refl, refl)

at_handle : (h : Option ℕ) (p : WinSerialPort) → p.handle ≡ h → CoherentAt h p → Coherent p
at_handle h p e c = subst (λ x. CoherentAt x p) (sym e) c

IsTold-Coherent :
    (h : ℕ) (r w : Option ℕ) (p : WinSerialPort) (x : Result (Unit {0}) × WinSerialPort)
    → p.handle ≡ some h
    → Agrees p
    → IsTold r w p x
    → Coherent x.1
IsTold-Coherent h r w p (throws e, p') o a s =
    at_handle (some h) p' (ap (λ q. q.handle) s ∙ o) (subst Agrees (sym s) a)
IsTold-Coherent h r w p (ok u, p') o a (told, same, er, ew) =
    at_handle (some h) p' (same ∙ o)
      (told ∙ sym (ap (λ x. comm_timeouts x p'.write_timeout_ms) er ∙ ap (comm_timeouts r) ew))

or_close-Coherent :
    (h : ℕ) (p : WinSerialPort) (x : Result (Unit {0}) × WinSerialPort)
    → p.handle ≡ some h
    → IsTold (some 0) (some 0) p x
    → Coherent (or_close x).1
unfolding or_close
or_close-Coherent h p (throws e, p') o s =
    rw (s)
      (subst (λ x. Coherent (close_port (record p { handle = x }))) (sym o) (shut_Coherent h p))
or_close-Coherent h p (ok u, p') o (told, same, er, ew) =
    at_handle (some h) p' (same ∙ o) (
      told
      ∙ sym (ap (λ x. comm_timeouts x p'.write_timeout_ms) er ∙ ap (comm_timeouts (some 0)) ew))

configured-Coherent :
    (o : WinOpening) (p : WinSerialPort) (h : ℕ) (r : Result (Unit {0}))
    → p.handle ≡ some h
    → p.read_timeout_ms ≡ none
    → Coherent (or_close (configured o p r)).1
unfolding configured or_close
configured-Coherent o p h (throws e) q n =
    subst (λ x. Coherent (close_port (record p { handle = x }))) (sym q) (shut_Coherent h p)
configured-Coherent o p h (ok u) q n =
    or_close-Coherent h p (set_timeouts o.set_times (some 0) (some 0) p) q
      (set_timeouts-IsTold o.set_times (some 0) (some 0) p λ e f. absurd (ground (arith, e, n)))

open_port-Coherent :
    (o : WinOpening) (call : Call) (p : WinSerialPort)
    → p.handle ≡ none
    → CoherentAt none p
    → Coherent (open_port o call p).1
unfolding open_port
open_port-Coherent o (fails e) p q c = ground (arith, at_handle none p q c)
open_port-Coherent o succeeds p q c =
    configured-Coherent o (record p { handle = some o.new_handle; told = o.found }) o.new_handle
      (configure o) refl c.0

-- The timeouts that the driver had while bytes moved, if any did, are the wanted ones.
abbrev pub Moved : CommTimeouts → Option CommTimeouts → Type 0
Moved wanted none = Unit {0}
Moved wanted (some used) = used ≡ wanted

transfer-Moved :
    {A : Type 0} (answer : Result A) (h : ℕ) (r w : Option ℕ) (p : WinSerialPort)
    (x : Result (Unit {0}) × WinSerialPort)
    → p.handle ≡ some h
    → Agrees p
    → IsTold r w p x
    → Moved (comm_timeouts r w) (transfer answer x).1 × Coherent (transfer answer x).2
unfolding transfer
transfer-Moved answer h r w p (throws e, p') o a s =
    (tt, IsTold-Coherent h r w p (throws e, p') o a s)
transfer-Moved answer h r w p (ok u, p') o a s = (s.0, IsTold-Coherent h r w p (ok u, p') o a s)

read-Moved :
    (call : Call) (answer : Result (List ℕ)) (size ms h : ℕ) (p : WinSerialPort)
    → p.handle ≡ some h
    → Agrees p
    → Moved (comm_timeouts (some ms) p.write_timeout_ms) (read call answer size ms p).1
      × Coherent (read call answer size ms p).2
unfolding read
read-Moved call answer size ms h p o a = elim (Bool-cases (size == 0)) [
  | inl e ↦ rw e (tt, at_handle (some h) p o a)
  | inr e ↦ rw e (
      transfer-Moved answer h (some ms) p.write_timeout_ms p
        (set_timeouts call (some ms) p.write_timeout_ms p) o a
        (set_timeouts-IsTold call (some ms) p.write_timeout_ms p λ x y. a))
]

write-Moved :
    (call : Call) (answer : Result ℕ) (size ms h : ℕ) (p : WinSerialPort)
    → p.handle ≡ some h
    → Agrees p
    → Moved (comm_timeouts p.read_timeout_ms (some ms)) (write call answer size ms p).1
      × Coherent (write call answer size ms p).2
unfolding write
write-Moved call answer size ms h p o a = elim (Bool-cases (size == 0)) [
  | inl e ↦ rw e (tt, at_handle (some h) p o a)
  | inr e ↦ rw e (
      transfer-Moved answer h p.read_timeout_ms (some ms) p
        (set_timeouts call p.read_timeout_ms (some ms) p) o a
        (set_timeouts-IsTold call p.read_timeout_ms (some ms) p λ x y. a))
]

-- What a program does with a port: it opens a closed one, it reads and writes an open one, and it
-- closes either.
pub data Operation : WinSerialPort → WinSerialPort → Type 0 where
  opens :
      (o : WinOpening) (call : Call) (p : WinSerialPort)
      → p.handle ≡ none
      → Operation p (open_port o call p).1
  closes : (p : WinSerialPort) → Operation p (close_port p)
  reads :
      (call : Call) (answer : Result (List ℕ)) (size ms h : ℕ) (p : WinSerialPort)
      → p.handle ≡ some h
      → Operation p (read call answer size ms p).2
  writes :
      (call : Call) (answer : Result ℕ) (size ms h : ℕ) (p : WinSerialPort)
      → p.handle ≡ some h
      → Operation p (write call answer size ms p).2

pub data Operations (p : WinSerialPort) : WinSerialPort → Type 0 where
  untouched : Operations p p
  next : {q r : WinSerialPort} → Operations p q → Operation q r → Operations p r

Operation-Coherent : {p q : WinSerialPort} → Operation p q → Coherent p → Coherent q
Operation-Coherent (opens o call p e) c =
    open_port-Coherent o call p e (subst (λ x. CoherentAt x p) e c)
Operation-Coherent (closes p) c = closed_Coherent p.handle p c
Operation-Coherent (reads call answer size ms h p e) c =
    (read-Moved call answer size ms h p e (subst (λ x. CoherentAt x p) e c)).1
Operation-Coherent (writes call answer size ms h p e) c =
    (write-Moved call answer size ms h p e (subst (λ x. CoherentAt x p) e c)).1

Operations-Coherent : {p q : WinSerialPort} → Operations p q → Coherent p → Coherent q
Operations-Coherent untouched c = c
Operations-Coherent (next ops op) c = Operation-Coherent op (Operations-Coherent ops c)

-- Whatever a program has done with a port since it was made (opens, closes, reads and writes, any
-- of whose system calls may have failed), if the port is open then a read whose bytes the driver
-- is asked for has the driver under the timeouts of that read and of the last write, and a write
-- under those of that write and of the last read, although the port tells the driver its timeouts
-- only where they change. Times are not negative, and a port is opened only while it is closed.
pub Operations-transfer-Moved :
    (told : CommTimeouts) (q : WinSerialPort)
    → Operations (new_port told) q
    → (call : Call) (bytes : Result (List ℕ)) (sent : Result ℕ) (size ms h : ℕ) → q.handle ≡ some h
    → Moved (comm_timeouts (some ms) q.write_timeout_ms) (read call bytes size ms q).1
      × Moved (comm_timeouts q.read_timeout_ms (some ms)) (write call sent size ms q).1
Operations-transfer-Moved told q ops call bytes sent size ms h e =
    let a = subst (λ x. CoherentAt x q) e (Operations-Coherent ops (refl, refl)) in
    ((read-Moved call bytes size ms h q e a).0, (write-Moved call sent size ms h q e a).0)
