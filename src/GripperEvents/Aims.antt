-- ===== src/GripperEvents/Aims.antt =====
-- The command that moveTo() sends, and the openings that it reads back.
use grippers.Prelude.{if◌then◌else◌, ℕ, ◌≡◌, refl, Bool, true, false, ◌&&◌, none, some, arith}
use grippers.Byte.{IsByte, AllBytes}
use grippers.Command.{
  auto_release_open_direction, auto_release, GripperCommand, activate, go_to, get, command_data,
}
use grippers.Command.Bits.{get-set_to, set_to-IsByte}
use grippers.RegisterModel.{RegisterModel}
use grippers.ModbusClient.{Nmbs}
use grippers.Units.{
  Doubles, DeviceProfile, opening_to_register, opening_from_register, rounded_register,
}
use grippers.FakeGripper.{Run, gripper}
use grippers.GripperEvents.{Station, aimed}

-- The whole program over the fake device, as the examples see it.
abbrev pub station : Nmbs RegisterModel → Station Run
station n = record {
  handle = gripper n;
  status = λ w. (w.state.image.stamped.status, w);
  connection_state = λ w. (w.state.connection_state, w);
}

-- The command that moveTo() sends keeps its rACT, has rGTO set, and is of bytes.
pub aimed-bytes :
    (position : ℕ) (c : GripperCommand)
    → IsByte position
    → AllBytes (command_data c)
    → AllBytes (command_data (aimed position c))
unfolding aimed command_data
aimed-bytes position c hp h =
    (set_to-IsByte c.action go_to true, (h.1.0, (h.1.1.0, (hp, h.1.1.1.1))))

pub aimed-bits :
    (position : ℕ) (c : GripperCommand)
    → AllBytes (command_data c)
    → get c.action activate ≡ true
    → (get (aimed position c).action activate && get (aimed position c).action go_to) ≡ true
unfolding aimed command_data
aimed-bits position c h up = ground (
  arith,
  get-set_to c.action go_to activate true h.0,
  get-set_to c.action go_to go_to true h.0,
  up,
)

-- What a move asks for beside the command before it: its position, and to go there.
pub record Aims (position : ℕ) (before after : GripperCommand) : Type 0 where
  pub position_asked : after.position_request ≡ position
  pub goes : get after.action go_to ≡ true
  pub same_activate : get after.action activate ≡ get before.action activate
  pub same_release : get after.action auto_release ≡ get before.action auto_release
  pub same_direction :
      get after.action auto_release_open_direction ≡ get before.action auto_release_open_direction
  pub same_speed : after.speed ≡ before.speed
  pub same_force : after.force ≡ before.force

pub aimed-Aims :
    (position : ℕ) (c : GripperCommand)
    → AllBytes (command_data c)
    → Aims position c (aimed position c)
unfolding aimed command_data
aimed-Aims position c h = record {
  position_asked = refl;
  goes = get-set_to c.action go_to go_to true h.0;
  same_activate = get-set_to c.action go_to activate true h.0;
  same_release = get-set_to c.action go_to auto_release true h.0;
  same_direction = get-set_to c.action go_to auto_release_open_direction true h.0;
  same_speed = refl;
  same_force = refl;
}

some_back :
    {D : Type 0} (b : Bool) (x : D) → b ≡ false → (y : D) × ((if b then none else some x) ≡ some y)
some_back b x e = (x, rw e refl)

module _ {D : Type 0} (d : Doubles D) (profile : DeviceProfile D) where
  pub opening_to_register-IsByte :
      (opening : D) (position : ℕ)
      → opening_to_register d opening profile ≡ some position
      → IsByte position
  unfolding opening_to_register rounded_register
  opening_to_register-IsByte opening position e = ground arith

  -- A profile that gives an opening a register gives every register an opening.
  pub opening_back :
      (opening : D) (position register : ℕ)
      → opening_to_register d opening profile ≡ some position
      → (back : D) × (opening_from_register d register profile ≡ some back)
  unfolding opening_to_register opening_from_register
  opening_back opening position register e = some_back _ _ (ground (arith, e))

-- What is left of it for a next move.
pub aimed-activate :
    (position : ℕ) (c : GripperCommand)
    → AllBytes (command_data c)
    → get c.action activate ≡ true
    → get (aimed position c).action activate ≡ true
aimed-activate position c h up = ground (arith, aimed-bits position c h up)
