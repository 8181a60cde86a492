-- ===== src/Protocol/Decoder/Machine.antt =====
-- The decoder with no buffer and no counters: a machine that hunts for a flag, then collects the
-- bytes of a frame, and gives its verdict at the next flag. It takes every escape as the code does:
-- an ESC before a flag is dropped, an ESC before another ESC changes nothing, and behind an ESC any
-- other byte stands for its XOR with 0x20. REQ-PR-006 of docs/01_requirements_SWE1/node.md wants
-- a bad escape reported with an error code of its own, which neither the code nor the machine has.
use sharak.Prelude.{
  ℕ, ◌+◌, ◌-◌, List, [], ◌∷◌, ◌++◌, Bool, true, false, length, take, ltb, ◌==◌, if◌then◌else◌, u8,
  bit_xor, ◌≡◌, refl,
}
use sharak.Protocol.Wire.{payload_min, crc_len, frame_inner, flag, esc_byte, esc_xor}
use sharak.Protocol.Crc.Fold.{crc_of}

-- `collecting esc bs`: the bytes `bs` since the last flag, and whether the last one was ESC.
pub data Machine : Type 0 where
  hunting : Machine
  collecting : Bool → List ℕ → Machine

-- What the receiver learns from one byte.
pub data Event : Type 0 where
  more err_len err_crc err_oflow : Event
  message : List ℕ → Event

-- The register after a frame's bytes is zero exactly when its last two are the checksum of the rest.
abbrev pub is_residue : List ℕ → Bool
is_residue bs = crc_of bs == 0

-- The verdict on the bytes between two flags.
unfoldable pub verdict : List ℕ → Event
verdict [] = more
verdict (b ∷ bs) =
    let inner = b ∷ bs in
    if ltb frame_inner (length inner)
    then err_oflow
    else (if ltb (length inner) (payload_min + crc_len)
        then err_len
        else (if is_residue inner then message (take (length inner - crc_len) inner) else err_crc))

-- The event at a flag, and the next state otherwise.
unfoldable pub event : Machine → ℕ → Event
event hunting byte = more
event (collecting esc bs) byte = if byte == flag then verdict bs else more

unfoldable pub step : Machine → ℕ → Machine
step hunting byte = if byte == flag then collecting false [] else hunting
step (collecting esc bs) byte =
    if byte == flag
    then collecting false []
    else (if byte == esc_byte
        then collecting true bs
        else collecting false (bs ++ ((if esc then u8 (bit_xor byte esc_xor) else byte) ∷ [])))

-- Over a stream: the events, and the state behind it.
unfoldable pub events : Machine → List ℕ → List Event
unfolding event step
events m [] = []
events m (b ∷ bs) = event m b ∷ events (step m b) bs

unfoldable pub after : Machine → List ℕ → Machine
unfolding step
after m [] = m
after m (b ∷ bs) = after (step m b) bs

pub step-flag : (m : Machine) → step m flag ≡ collecting false []
unfolding step
step-flag hunting = refl
step-flag (collecting esc bs) = refl
