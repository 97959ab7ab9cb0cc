-- ===== src/GripperServer.antt =====
-- The fake gripper's transport: sdk_cpp/src/fake/gripper_server.cpp and
-- sdk_cpp/src/fake/gripper_serial.cpp. nanomodbus's server is the parameter `poll`: it takes
-- request bytes, calls the register callbacks and queues the reply.
use grippers.Prelude.{
  ℕ, ◌≡◌, refl, ap, ◌∙◌, Bool, true, false, List, [], ◌∷◌, ◌++◌, min, length, take, drop,
  take-append-drop, arith, ◌==◌, if◌then◌else◌,
}
use mathlib.Core.List.{append_assoc}
use grippers.RegisterModel.{RegisterModel}

pub record GripperServer : Type 0 where
  pub model : RegisterModel
  pub from_client : List ℕ
  pub to_client : List ℕ

-- The callbacks that nanomodbus's server reads and writes bytes through.
unfoldable pub read_from_client : ℕ → GripperServer → List ℕ × GripperServer
read_from_client count s =
    let available = min count (length s.from_client) in
    (take available s.from_client, record s { from_client = drop available s.from_client })

unfoldable pub write_to_client : List ℕ → GripperServer → ℕ × GripperServer
write_to_client bytes s = (length bytes, record s { to_client = s.to_client ++ bytes })

unfoldable pub deliver : (GripperServer → GripperServer) → List ℕ → GripperServer → GripperServer
deliver poll request s = poll (record s { from_client = s.from_client ++ request })

unfoldable pub drain : ℕ → GripperServer → List ℕ × GripperServer
drain max_bytes s =
    let count = min max_bytes (length s.to_client) in
    (take count s.to_client, record s { to_client = drop count s.to_client })

unfoldable pub discard_pending_reply : GripperServer → GripperServer
discard_pending_reply s = record s { to_client = [] }

-- GripperSerial, with the server that it reaches.
pub record GripperSerial : Type 0 where
  pub server : GripperServer
  pub is_open : Bool

unfoldable pub open_serial : GripperSerial → GripperSerial
open_serial g = record g { is_open = true }

unfoldable pub close_serial : GripperSerial → GripperSerial
close_serial g = record g { is_open = false }

unfoldable pub read : ℕ → ℕ → GripperSerial → List ℕ × GripperSerial
unfolding drain
read size timeout g =
    if timeout == 0
    then ([], g)
    else (let (bytes, s) = drain size g.server in (bytes, record g { server = s }))

unfoldable pub write : (GripperServer → GripperServer) → List ℕ → GripperSerial → GripperSerial
unfolding deliver
write poll bytes g = record g { server = deliver poll bytes g.server }

abbrev pub timeout_ms : ℕ
timeout_ms = 100

-- A series of reads, each of a size and with a timeout: all that they return, and the serial.
abbrev pub reads : List (ℕ × ℕ) → GripperSerial → List ℕ × GripperSerial
reads [] g = ([], g)
reads ((size, timeout) ∷ later) g =
    let (bytes, g') = read size timeout g in
    let (rest, g'') = reads later g' in (bytes ++ rest, g'')

read_takes :
    (size timeout : ℕ) (g : GripperSerial)
    → (read size timeout g).0 ++ (read size timeout g).1.server.to_client ≡ g.server.to_client
unfolding read
read_takes size timeout g =
    ground (arith, take-append-drop (min size (length g.server.to_client)) g.server.to_client)

-- However a reply is read, in pieces of any sizes and with drains in between, the pieces and what
-- is still queued make up the reply: no byte is lost, repeated or moved.
pub reads-append :
    (rs : List (ℕ × ℕ)) (g : GripperSerial)
    → (reads rs g).0 ++ (reads rs g).1.server.to_client ≡ g.server.to_client
reads-append [] g = refl
reads-append ((size, timeout) ∷ later) g =
    let (bytes, g') = read size timeout g in
    append_assoc bytes (reads later g').0 (reads later g').1.server.to_client
    ∙ ap (λ r. bytes ++ r) (reads-append later g')
    ∙ read_takes size timeout g
