-- ===== src/Packing.antt =====
-- sdk_cpp/include/Robotiq/detail/byte_packing.hpp: byte 2N of a block is the high byte of
-- register N. The two loops run over the registers left, at index `i`.
pub mod RoundTrip
use grippers.Prelude.{ℕ, zero, suc, ◌+◌, ◌*◌, ◌/◌, bit_and, bit_or, List, [], ◌∷◌, get_or, set}
use grippers.Byte.{u8, u16}

registers_from : ℕ → ℕ → List ℕ → List ℕ
registers_from zero i block = []
registers_from (suc left) i block =
    u16 (bit_or (get_or block (2 * i) 0 * 256) (get_or block (2 * i + 1) 0))
    ∷ registers_from left (i + 1) block

unfoldable pub registers_from_bytes : ℕ → List ℕ → List ℕ
unfolding registers_from
registers_from_bytes count block = registers_from count 0 block

store_register : ℕ → ℕ → List ℕ → List ℕ
store_register i register block =
    set (set block (2 * i) (u8 (register / 256))) (2 * i + 1) (u8 (bit_and register 0xFF))

bytes_from : ℕ → ℕ → List ℕ → List ℕ → List ℕ
unfolding store_register
bytes_from zero i registers block = block
bytes_from (suc left) i registers block =
    bytes_from left (i + 1) registers (store_register i (get_or registers i 0) block)

unfoldable pub bytes_from_registers : ℕ → List ℕ → List ℕ → List ℕ
unfolding bytes_from
bytes_from_registers count registers block = bytes_from count 0 registers block
