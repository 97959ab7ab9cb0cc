-- ===== src/Polling.antt =====
-- detail::pollUntil of sdk_cpp/include/Robotiq/gripper/wait.hpp, the loop of the waits by polling.
-- What each round saw of the predicate and then of the clock is an argument.
use grippers.Prelude.{
  refl, leb→le, inl, ◌⊎◌, inr, ℕ, ◌≤◌, ◌<◌, ◌≡◌, Bool, true, false, Option, none, some, List, [],
  ◌∷◌, leb, if◌then◌else◌, arith,
}

-- One round: whether the predicate held, and the time where it did not.
pub record Sample : Type 0 where
  pub holds : Bool
  pub now : ℕ

-- none where the rounds ran out: the loop goes on.
unfoldable pub poll_until : ℕ → List Sample → Option Bool
poll_until deadline [] = none
poll_until deadline (s ∷ later) =
    let rest = poll_until deadline later in
    if s.holds then some true else if leb deadline s.now then some false else rest

-- A round that did not end the loop.
abbrev pub Passes : ℕ → Sample → Type 0
Passes deadline s = (s.holds ≡ false) × (s.now < deadline)

-- The answer is that of the first round that does not pass.
abbrev pub PollAnswer : ℕ → List Sample → Option Bool → Type 0
PollAnswer deadline [] none = Unit {0}
PollAnswer deadline [] (some b) = ⊥
PollAnswer deadline (s ∷ ss) none = Passes deadline s × PollAnswer deadline ss none
PollAnswer deadline (s ∷ ss) (some b) =
    ((s.holds ≡ b) × (b ≡ false → deadline ≤ s.now))
    ⊎ (Passes deadline s × PollAnswer deadline ss (some b))

polled_again :
    (deadline : ℕ) (s : Sample) (ss : List Sample) (r : Option Bool)
    → Passes deadline s
    → PollAnswer deadline ss r
    → PollAnswer deadline (s ∷ ss) r
polled_again deadline s ss none p a = (p, a)
polled_again deadline s ss (some b) p a = inr (p, a)

after_clock :
    (deadline : ℕ) (s : Sample) (ss : List Sample) (r : Option Bool) (late : Bool)
    → s.holds ≡ false
    → leb deadline s.now ≡ late
    → PollAnswer deadline ss r
    → PollAnswer deadline (s ∷ ss) (if late then some false else r)
after_clock deadline s ss r true e l a = inl (e, λ q. leb→le deadline s.now l)
after_clock deadline s ss r false e l a = polled_again deadline s ss r (e, ground arith) a

after_predicate :
    (deadline : ℕ) (s : Sample) (ss : List Sample) (r : Option Bool) (held : Bool)
    → s.holds ≡ held
    → PollAnswer deadline ss r
    → PollAnswer deadline
        (s ∷ ss)
        (if held then some true else if leb deadline s.now then some false else r)
after_predicate deadline s ss r true e a = inl (e, λ q. ground arith)
after_predicate deadline s ss r false e a =
    after_clock deadline s ss r (leb deadline s.now) e refl a

-- The loop answers true at the first round in which the predicate holds, past the deadline too,
-- and false at the first round whose time is the deadline or later and in which it does not hold;
-- before that it goes on.
pub poll_until-PollAnswer :
    (deadline : ℕ) (samples : List Sample)
    → PollAnswer deadline samples (poll_until deadline samples)
unfolding poll_until
poll_until-PollAnswer deadline [] = tt
poll_until-PollAnswer deadline (s ∷ ss) =
    after_predicate deadline s ss (poll_until deadline ss) s.holds refl
      (poll_until-PollAnswer deadline ss)
