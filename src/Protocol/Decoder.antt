-- ===== src/Protocol/Decoder.antt =====
-- The incremental decoder of protocol/src/protocol.c: `sk_decoder_init`, `decoder_finish` and
-- `sk_decoder_feed`, a state machine that takes one byte at a time.
pub mod Machine
pub mod Verdict
pub mod Answer
pub mod Finish
pub mod Accumulate
pub mod Refine
pub mod Client
pub mod Stream
pub mod Resync
pub mod Accept
pub mod Feed
pub mod Received
pub mod Unstuff
pub mod Damaged
pub mod Neighbours
pub mod BitErrors
mod Tests
use sharak.Prelude.{
  ℕ, zero, suc, ◌+◌, ◌-◌, List, ℤ, pos, Ptr, Run, none, some, ◌>>=◌, ◌&&◌, ◌||◌, not, load, store,
  ltb, ◌==◌, if◌then◌else◌, u8, u16, ◌<<<◌, bit_or, bit_xor,
}
use sharak.Protocol.Wire.{
  payload_min, crc_len, frame_inner, flag, esc_byte, esc_xor, dec_more, dec_err_len, dec_err_crc,
  dec_err_oflow,
}
use sharak.Protocol.Crc.{crc16_ccitt_false}

-- `sk_decoder_t`
pub record Decoder : Type 0 where
  pub in_frame : ℕ
  pub esc : ℕ
  pub overflow : ℕ
  pub count : ℕ
  pub buf : List ℕ

-- `sk_decoder_init`; the accumulator is not cleared.
unfoldable pub sk_decoder_init : Ptr Decoder → Ptr Decoder
sk_decoder_init none = none
sk_decoder_init (some st) = some (record st { in_frame = 0; esc = 0; overflow = 0; count = 0 })

-- `out[i] = buf[i]`, at index `i` with `payload_len - i` rounds left.
pub deliver_loop : List ℕ → ℕ → ℕ → List ℕ → Run (List ℕ)
deliver_loop buf zero i out = some out
deliver_loop buf (suc left) i out = do
  b ← load buf i
  out' ← store out i b
  deliver_loop buf left (i + 1) out'

-- The end of `decoder_finish`: where the payload goes, once its checksum is right.
pub deliver : List ℕ → ℕ → Ptr (List ℕ) → ℕ → Run (ℤ × Ptr (List ℕ))
unfolding deliver_loop
deliver buf n none cap = some (dec_err_len, none)
deliver buf n (some out) cap =
    if ltb cap n
    then some (dec_err_len, some out)
    else do out' ← deliver_loop buf n 0 out; some (pos n, some out')

-- `decoder_finish`
pub decoder_finish : Decoder → Ptr (List ℕ) → ℕ → Run (ℤ × Ptr (List ℕ))
unfolding deliver
decoder_finish st out cap =
    if not (st.overflow == 0) || ltb frame_inner st.count
    then some (dec_err_oflow, out)
    else (if ltb st.count (payload_min + crc_len) then some (dec_err_len, out) else (do
      let n = st.count - crc_len
      crc ← crc16_ccitt_false (some st.buf) n
      hi ← load st.buf n
      lo ← load st.buf (n + 1)
      if crc == u16 (bit_or (hi <<< 8) lo)
          then deliver st.buf n out cap
          else some (dec_err_crc, out)))

-- The verdict at a flag, if it closes a frame in progress.
pub at_flag : Decoder → Ptr (List ℕ) → ℕ → Run (ℤ × Ptr (List ℕ))
unfolding decoder_finish
at_flag st out cap =
    if not (st.in_frame == 0) && ltb 0 st.count
    then decoder_finish st out cap
    else some (dec_more, out)

-- `st->esc = 0`, and the byte goes into the accumulator if there is room.
pub accumulate : Decoder → ℕ → Run Decoder
accumulate st b =
    if ltb st.count frame_inner
    then (do
      buf ← store st.buf st.count b
      some (record st { esc = 0; count = u16 (st.count + 1); buf = buf }))
    else some (record st { esc = 0; overflow = 1 })

-- The byte is unescaped if the one before it was ESC.
pub collect : Decoder → ℕ → Run Decoder
unfolding accumulate
collect st byte = accumulate st (if st.esc == 0 then byte else u8 (bit_xor byte esc_xor))

-- `sk_decoder_feed`: the return value, the decoder and the output as they are left.
unfoldable pub sk_decoder_feed :
    Ptr Decoder → ℕ → Ptr (List ℕ) → ℕ → Run (ℤ × Ptr Decoder × Ptr (List ℕ))
unfolding at_flag collect crc16_ccitt_false
sk_decoder_feed none byte out cap = some (dec_err_len, none, out)
sk_decoder_feed (some st) byte out cap =
    if byte == flag
    then (do
      (result, out') ← at_flag st out cap
      some (result, some (record st { in_frame = 1; esc = 0; overflow = 0; count = 0 }), out'))
    else (if st.in_frame == 0
        then some (dec_more, some st, out)
        else (if byte == esc_byte
            then some (dec_more, some (record st { esc = 1 }), out)
            else do st' ← collect st byte; some (dec_more, some st', out)))
