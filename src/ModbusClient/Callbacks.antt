-- ===== src/ModbusClient/Callbacks.antt =====
-- The serial callbacks keep to the buffer that nanomodbus owns.
use grippers.Prelude.{
  ℕ, zero, suc, ◌≤◌, ◌≡◌, refl, ◌↔◌, List, [], ◌∷◌, ◌++◌, length, take, drop, min, arith,
  take-append-drop,
}
use grippers.ModbusClient.{bytes_read, CallbackResult, transferred, read_serial, LogLine}

length-take : (n : ℕ) (xs : List ℕ) → n ≤ length xs → length (take n xs) ≡ n
length-take zero xs h = refl
length-take (suc n) [] h = absurd (omega arith)
length-take (suc n) (x ∷ xs) h = omega (arith, length-take n xs (omega arith))

-- What a read callback gives back: bytes that fit the request, a prefix of what the serial
-- returned, as many as it reports, and a line in the log exactly when it left some out.
abbrev pub Delivers : ℕ → List ℕ → CallbackResult × List ℕ × List LogLine → Type 0
Delivers count bytes (result, copied, log) =
    (rest : List ℕ) × (result ≡ transferred (length copied))
    × (length copied ≤ count)
    × (bytes ≡ copied ++ rest)
    × ((log ≡ []) ↔ (length bytes ≤ count))

-- A serial that returns more than was asked for cannot overrun nanomodbus's buffer: the callback
-- copies a prefix within the request, reports its length, and logs exactly when bytes were dropped.
pub read_serial-Delivers :
    (count : ℕ) (bytes : List ℕ) → Delivers count bytes (read_serial count (bytes_read bytes))
unfolding read_serial
read_serial-Delivers count bytes =
    let e : length (take (min (length bytes) count) bytes) ≡ min (length bytes) count =
      length-take (min (length bytes) count) bytes (omega arith) in
    (
      drop (min (length bytes) count) bytes,
      rw e,
      omega (arith, e),
      rw (take-append-drop (min (length bytes) count) bytes),
      (ground arith, ground arith),
    )
