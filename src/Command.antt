-- ===== src/Command.antt =====
-- The command block: sdk_cpp/include/Robotiq/gripper/command.hpp, over the named bits of
-- sdk_cpp/include/Robotiq/detail/named_bit_array.hpp (at its one instance, a uint8_t).
pub mod Bits
use Prim.Native.Nat.{◌≤◌}
use grippers.Prelude.{
  ℕ, ◌-◌, ◌^◌, ◌<◌, ◌≡◌, bit_and, bit_or, Bool, true, false, not, ◌&&◌, List, [], ◌∷◌, ◌++◌, length,
  get_or, drop, take, replicate, ◌==◌, if◌then◌else◌, arith,
}
use grippers.Byte.{u8, IsByte, AllBytes}
use grippers.RegisterMap.{command_block_bytes, command_documented_bytes}

pub data ActionRequestBit : Type 0 where
  activate go_to auto_release auto_release_open_direction : ActionRequestBit

abbrev pub bit_index : ActionRequestBit → ℕ
bit_index activate = 0
bit_index go_to = 3
bit_index auto_release = 4
bit_index auto_release_open_direction = 5

pub record NamedBitArray : Type 0 where
  pub value : ℕ

-- 1U << bit, as a byte.
mask : ℕ → ℕ
mask i = u8 (2 ^ i)

get_bit : ℕ → ℕ → Bool
unfolding mask
get_bit v i = not (bit_and v (mask i) == 0)

set_bit : ℕ → ℕ → ℕ
unfolding mask
set_bit v i = u8 (bit_or v (mask i))

-- `~mask` is taken on int; on a byte value only its low eight bits matter.
unset_bit : ℕ → ℕ → ℕ
unfolding mask
unset_bit v i = u8 (bit_and v (255 - mask i))

unfoldable pub get : NamedBitArray → ActionRequestBit → Bool
unfolding get_bit
get a bit = get_bit a.value (bit_index bit)

unfoldable pub set : NamedBitArray → ActionRequestBit → NamedBitArray
unfolding set_bit
set a bit = record { value = set_bit a.value (bit_index bit) }

unfoldable pub unset : NamedBitArray → ActionRequestBit → NamedBitArray
unfolding unset_bit
unset a bit = record { value = unset_bit a.value (bit_index bit) }

unfoldable pub set_to : NamedBitArray → ActionRequestBit → Bool → NamedBitArray
unfolding set unset
set_to a bit on = if on then set a bit else unset a bit

pub record GripperCommand : Type 0 where
  pub action : NamedBitArray
  pub reserved1 : ℕ
  pub reserved2 : ℕ
  pub position_request : ℕ
  pub speed : ℕ
  pub force : ℕ
  pub reserved_tail : List ℕ

-- GripperCommand{}: every byte zero.
abbrev pub zero_command : GripperCommand
zero_command = record {
  action = record { value = 0 };
  reserved1 = 0;
  reserved2 = 0;
  position_request = 0;
  speed = 0;
  force = 0;
  reserved_tail = replicate (command_block_bytes - command_documented_bytes) 0;
}

unfoldable pub defaults : GripperCommand
unfolding set
defaults = record zero_command {
  action = set zero_command.action activate;
  speed = 0xFF;
  force = 0xFF;
}

-- data(): the block read byte for byte.
unfoldable pub command_data : GripperCommand → List ℕ
command_data c =
    c.action.value ∷ c.reserved1 ∷ c.reserved2 ∷ c.position_request ∷ c.speed ∷ c.force
    ∷ c.reserved_tail

-- The block that 16 bytes written through data() make.
unfoldable pub command_of_data : List ℕ → GripperCommand
command_of_data b = record {
  action = record { value = get_or b 0 0 };
  reserved1 = get_or b 1 0;
  reserved2 = get_or b 2 0;
  position_request = get_or b 3 0;
  speed = get_or b 4 0;
  force = get_or b 5 0;
  reserved_tail = drop command_documented_bytes b;
}

-- memcmp of two blocks of one length.
unfoldable pub bytes_eq : List ℕ → List ℕ → Bool
bytes_eq [] [] = true
bytes_eq [] (y ∷ ys) = false
bytes_eq (x ∷ xs) [] = false
bytes_eq (x ∷ xs) (y ∷ ys) = x == y && bytes_eq xs ys

unfoldable pub command_eq : GripperCommand → GripperCommand → Bool
unfolding command_data bytes_eq
command_eq a b = bytes_eq (command_data a) (command_data b)

-- Sixteen bytes.
pub record IsBlock (c : GripperCommand) : Type 0 where
  pub bytes : AllBytes (command_data c)
  pub width : length (command_data c) ≡ command_block_bytes
