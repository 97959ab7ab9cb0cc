-- ===== src/Units.antt =====
-- Registers from physical units and back: sdk_cpp/src/units.cpp and
-- sdk_cpp/include/Robotiq/gripper/units.hpp, device_profile.hpp beside it, and the range of the
-- exchange frequency, sdk_cpp/src/frequency.hpp and exchange_period.hpp. What the machine does with
-- a double is a parameter.
pub mod Normalized
use grippers.Prelude.{
  ℕ, Bool, true, false, not, ◌||◌, Option, none, some, ap, ◌≡◌, ◌≤◌, if◌then◌else◌,
}
use grippers.Byte.{u8}

-- The operations on doubles. of_number is exact on the small numbers of the code; lround is used
-- on doubles that are not below zero.
pub record Doubles (D : Type 0) : Type 0 where
  pub of_number : ℕ → D
  pub tenth : D
  pub less : D → D → Bool
  pub at_most : D → D → Bool
  pub equal : D → D → Bool
  pub is_finite : D → Bool
  pub is_nan : D → Bool
  pub add : D → D → D
  pub sub : D → D → D
  pub mul : D → D → D
  pub div : D → D → D
  pub lround : D → ℕ

pub record DeviceProfile (D : Type 0) : Type 0 where
  pub min_speed : D
  pub max_speed : D
  pub min_opening : D
  pub max_opening : D
  pub open_position : ℕ
  pub closed_position : ℕ

module _ {D : Type 0} (d : Doubles D) where
  -- std::clamp.
  unfoldable pub clamp : D → D → D → D
  clamp v low high = if d.less v low then low else if d.less high v then high else v

  unfoldable pub clamp_fraction : D → D
  unfolding clamp
  clamp_fraction v = clamp v (d.of_number 0) (d.of_number 1)

  unfoldable pub rounded_register : D → ℕ
  rounded_register steps = u8 (d.lround steps)

  unfoldable pub register_from_span : D → D → D → Option ℕ
  unfolding clamp_fraction rounded_register
  register_from_span value minimum maximum =
      if not (d.is_finite value)
        || (d.less value (d.of_number 0)
            || (not (d.is_finite minimum)
                || (not (d.is_finite maximum) || d.at_most maximum minimum)))
      then none
      else (let fraction = clamp_fraction (d.div (d.sub value minimum) (d.sub maximum minimum)) in
          some (rounded_register (d.mul fraction (d.of_number 255))))

  unfoldable pub speed_to_register : D → DeviceProfile D → Option ℕ
  unfolding register_from_span
  speed_to_register speed profile = register_from_span speed profile.min_speed profile.max_speed

  unfoldable pub effort_to_register : D → Option ℕ
  unfolding register_from_span
  effort_to_register effort = register_from_span effort (d.of_number 0) (d.of_number 1)

  -- With whether the clamp was logged.
  unfoldable pub normalized_to_register : D → Option ℕ × Bool
  unfolding clamp_fraction rounded_register
  normalized_to_register value =
      if not (d.is_finite value)
      then (none, false)
      else (let clamped = clamp_fraction value in
          (some (rounded_register (d.mul clamped (d.of_number 255))), not (d.equal clamped value)))

  unfoldable pub normalized_from_register : ℕ → D
  normalized_from_register value = d.div (d.of_number value) (d.of_number 255)

  unfoldable pub register_position_range : DeviceProfile D → D
  register_position_range profile =
      d.sub (d.of_number profile.closed_position) (d.of_number profile.open_position)

  unfoldable pub opening_range : DeviceProfile D → D
  opening_range profile = d.sub profile.max_opening profile.min_opening

  unfoldable pub opening_to_register : D → DeviceProfile D → Option ℕ
  unfolding clamp_fraction rounded_register register_position_range opening_range
  opening_to_register opening profile =
      let span = opening_range profile in
      let band = register_position_range profile in
      if not (d.is_finite opening)
        || (not (d.is_finite span)
            || (d.at_most span (d.of_number 0) || d.at_most band (d.of_number 0)))
      then none
      else (let fraction = clamp_fraction (d.div (d.sub opening profile.min_opening) span) in
          some (
            rounded_register (
              d.add (d.of_number profile.open_position)
                (d.mul (d.sub (d.of_number 1) fraction) band))))

  unfoldable pub opening_from_register : ℕ → DeviceProfile D → Option D
  unfolding clamp_fraction register_position_range opening_range
  opening_from_register value profile =
      let span = opening_range profile in
      let band = register_position_range profile in
      if d.at_most band (d.of_number 0)
        || (not (d.is_finite span) || d.at_most span (d.of_number 0))
      then none
      else (let closed =
            clamp_fraction
              (d.div (d.sub (d.of_number value) (d.of_number profile.open_position)) band) in
          some (d.add profile.min_opening (d.mul (d.sub (d.of_number 1) closed) span)))

  -- None where the code throws.
  unfoldable pub clamp_frequency : D → Option D
  unfolding clamp
  clamp_frequency hz =
      if d.is_nan hz || d.less hz (d.of_number 0)
      then none
      else if d.equal hz (d.of_number 0)
      then some (d.of_number 0)
      else some (clamp hz d.tenth (d.of_number 1000))

  -- The period of a supported frequency, in microseconds.
  unfoldable pub period_of : D → ℕ
  period_of supported =
      if d.equal supported (d.of_number 0)
      then 0
      else d.lround (d.div (d.of_number 1000000) supported)

  unfoldable pub exchange_period_from_frequency : D → Option ℕ
  unfolding clamp_frequency period_of
  exchange_period_from_frequency hz =
      let supported = clamp_frequency hz in
      elim supported [ none ↦ none | some s ↦ some (period_of s) ]
