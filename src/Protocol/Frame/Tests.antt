-- ===== src/Protocol/Frame/Tests.antt =====
-- Frames of concrete messages.
use sharak.Prelude.{
  ◌<◌, ◌⊎◌, take, drop, length, negsuc, ℕ, ◌≡◌, ◌≤◌, arith, List, [], ◌∷◌, ◌++◌, pos, negsuc, some,
  replicate, length, drop,
}
use sharak.Protocol.Frame.{sk_frame_encode}
use sharak.Protocol.Frame.Stuff.{frame}
use sharak.Protocol.Frame.Encode.{sk_frame_encode_outcomes}

-- Version, type and sequence number of a temperature message, with two bytes that are escaped.
abbrev msg : List ℕ
msg = 1 ∷ 2 ∷ 7 ∷ 0 ∷ 0x7e ∷ 0x7d ∷ []

abbrev out : List ℕ
out = replicate 38 0

-- One byte of room is missing.
sk_frame_encode_outcomes_example :
    let f = frame (take 6 msg) in
    let run = sk_frame_encode (some msg) 6 (some out) 9 in
    ((6 ≤ 6)
      × (6 ≤ 16)
      × (length f ≤ 9)
      × (run ≡ some (pos (length f), some (f ++ drop (length f) out))))
    ⊎ (((6 < 6) ⊎ ((16 < 6) ⊎ (9 < length f)))
        × ((out' : List ℕ) × (run ≡ some (negsuc 0, some out')) × (length out' ≡ length out)))
sk_frame_encode_outcomes_example = sk_frame_encode_outcomes msg 6 out 9 (omega arith) (omega arith)
