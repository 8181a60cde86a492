-- ===== src/Protocol/Frame/Whole.antt =====
-- The encoder on a message of 16 bytes and an output of SK_FRAME_MAX bytes, as its callers use it.
use sharak.Prelude.{
  ℕ, ◌≤◌, ◌≡◌, ap, ◌∙◌, arith, List, ◌++◌, pos, some, length, take, drop, take_all,
}
use sharak.Protocol.Wire.{payload_len, frame_max}
use sharak.Protocol.Frame.{sk_frame_encode}
use sharak.Protocol.Frame.Stuff.{frame}
use sharak.Protocol.Frame.Encode.{sk_frame_encode_ok, frame_bounds}

pub sk_frame_encode_whole :
    (msg buf : List ℕ)
    → length msg ≡ payload_len
    → length buf ≡ frame_max
    → sk_frame_encode (some msg) payload_len (some buf) frame_max
      ≡ some (pos (length (frame msg)), some (frame msg ++ drop (length (frame msg)) buf))
sk_frame_encode_whole msg buf size room =
    let whole : take payload_len msg ≡ msg = take_all payload_len msg (omega (arith, size)) in
    let short : length (frame msg) ≤ frame_max =
      (frame_bounds msg (omega (arith, size)) (omega (arith, size))).1 in
    let fits : length (frame (take payload_len msg)) ≤ frame_max = rw whole short in
    sk_frame_encode_ok msg payload_len buf frame_max (omega (arith, size)) (omega arith)
      (omega arith) (omega (arith, room)) fits
    ∙ ap (λ t. some (pos (length (frame t)), some (frame t ++ drop (length (frame t)) buf))) whole
