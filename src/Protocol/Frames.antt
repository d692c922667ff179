-- ===== src/Protocol/Frames.antt =====
-- `try_unpack_one` of protocol.py: one frame from the bytes that have arrived.
pub mod Laws
pub mod Whole
pub mod Stream
use hermes_channel_octo.Prelude.{
  ℕ, ◌+◌, ◌*◌, ◌/◌, ◌%◌, Bool, ◌||◌, Option, none, some, [], ◌∷◌, length, take, drop, ltb, ◌==◌,
  if◌then◌else◌,
}
use hermes_channel_octo.Protocol.Utf8.{Bytes}

-- PING and PONG, the packets of a single byte.
abbrev pub is_single : ℕ → Bool
is_single header = header / 16 == 8 || header / 16 == 7

-- The loop over the bytes of the remaining length: the position behind it and its value, or none
-- where the bytes end inside it.
unfoldable pub scan_length : Bytes → ℕ → ℕ → ℕ → Option (ℕ × ℕ)
scan_length [] pos rem_length multiplier = none
scan_length (digit ∷ r) pos rem_length multiplier =
    let rem_length' = rem_length + digit % 128 * multiplier in
    let more = scan_length r (pos + 1) rem_length' (multiplier * 128) in
    if digit / 128 % 2 == 0 then some (pos + 1, rem_length') else more

-- Split the buffer behind a frame of this length, if it is all there.
abbrev pub split_frame : ℕ → Bytes → Option Bytes × Bytes
split_frame total_length buf =
    if ltb (length buf) total_length
    then (none, buf)
    else (some (take total_length buf), drop total_length buf)

abbrev pub unpack_at : Option (ℕ × ℕ) → Bytes → Option Bytes × Bytes
unpack_at none buf = (none, buf)
unpack_at (some (pos, rem_length)) buf = split_frame (pos + rem_length) buf

unfoldable pub try_unpack_one : Bytes → Option Bytes × Bytes
unfolding scan_length
try_unpack_one [] = (none, [])
try_unpack_one (header ∷ r) =
    if is_single header
    then (some (header ∷ []), r)
    else unpack_at (scan_length r 1 0 1) (header ∷ r)
