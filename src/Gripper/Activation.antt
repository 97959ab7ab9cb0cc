-- ===== src/Gripper/Activation.antt =====
-- What the activation procedures send, and what their results mean.
use grippers.Prelude.{ℕ, ◌≤◌, ◌≡◌, ◌⊎◌, List}
use grippers.Command.{GripperCommand}
use grippers.ActivationResult.{ActivationResult}
use grippers.Gripper.{Handle}
use grippers.Gripper.Waits.{Laws}
use grippers.Gripper.Handshakes.{Completes, Handshake}

module _ {W : Type 0} (h : Handle W) (l : Laws h) (fuel : ℕ) (enough : l.limit ≤ fuel) where
  open l use {sent}

  -- A result of activate(), and how it came to it.
  abbrev pub Returned : ℕ → List GripperCommand → ActivationResult → W → Type 0
  Returned deadline before ActivationResult.already_active w' = sent w' ≡ before
  Returned deadline before ActivationResult.fault_latched w' = sent w' ≡ before
  Returned deadline before ActivationResult.activated w' =
      ((w : W) × (sent w ≡ before)
        × Completes h l fuel enough deadline w ActivationResult.activated w'
        × (sent w' ≡ before))
      ⊎ Handshake h l fuel enough deadline before ActivationResult.activated w'
  Returned deadline before ActivationResult.timeout w' =
      (sent w' ≡ before) ⊎ Handshake h l fuel enough deadline before ActivationResult.timeout w'
