-- ===== src/Protocol/Decoder/Tests.antt =====
-- The decoder on concrete streams.
use sharak.Prelude.{
  none, All, IsU8, ℕ, ◌-◌, ◌≡◌, refl, arith, List, [], ◌∷◌, ◌++◌, ℤ, pos, Ptr, some, replicate,
  drop, take, inr, false,
}
use sharak.Protocol.Wire.{flag, dec_err_len, dec_more, dec_err_crc}
use sharak.Protocol.Crc.Fold.{crc_from}
use sharak.Protocol.Frame.{sk_frame_encode}
use sharak.Protocol.Frame.Stuff.{stuff, stuff_byte, sealed}
use sharak.Protocol.Decoder.{Decoder, sk_decoder_feed, sk_decoder_init}
use sharak.Protocol.Decoder.Machine.{verdict, collecting, event, step, hunting}
use sharak.Protocol.Decoder.Answer.{answer}
use sharak.Protocol.Decoder.Refine.{sk_decoder_feed-Simulates}
use sharak.Protocol.Decoder.Accumulate.{Simulates}
use sharak.Protocol.Decoder.Stream.{frames, IsMessage}
use sharak.Protocol.Decoder.Feed.{feed_all, encode_decode_roundtrip}
use sharak.Protocol.Crc.Parity.{flips}
use sharak.Protocol.Decoder.Client.{Call, set_up, feed, run_calls, replay, replayed, decoder_client}
use sharak.Protocol.Decoder.BitErrors.{KeepsEscapes, bit_errors_refused}
use sharak.Protocol.Decoder.Received.{received, stream_received}
use sharak.Protocol.Decoder.Neighbours.{neighbours_refused}
use sharak.Protocol.Decoder.Unstuff.{IsInside}

abbrev msg : List ℕ
msg = 1 ∷ 2 ∷ 7 ∷ 0 ∷ 0x7e ∷ 0x7d ∷ []

abbrev out : List ℕ
out = replicate 16 0

-- A decoder that hunts, one that has just seen a flag, and one in the middle of a frame.
abbrev idle : Decoder
idle = record { in_frame = 0; esc = 0; overflow = 0; count = 0; buf = replicate 18 0 }

abbrev opened : Decoder
opened = record { in_frame = 1; esc = 0; overflow = 0; count = 0; buf = replicate 18 0 }

abbrev midway : Decoder
midway = record { in_frame = 1; esc = 0; overflow = 0; count = 1; buf = 5 ∷ replicate 17 0 }

opened-Simulates : Simulates opened (collecting false [])
opened-Simulates = (refl, refl, refl, refl, refl, refl, tt)

midway-Simulates : Simulates midway (collecting false (5 ∷ []))
midway-Simulates = (refl, refl, refl, refl, refl, refl, (omega arith, tt))

-- A decoder with the whole frame of `msg` in its accumulator.
abbrev loaded : Decoder
loaded = record {
  in_frame = 1;
  esc = 0;
  overflow = 0;
  count = 8;
  buf = 1 ∷ 2 ∷ 7 ∷ 0 ∷ 0x7e ∷ 0x7d ∷ 0xda ∷ 0x72 ∷ replicate 10 0;
}

abbrev inner : List ℕ
inner = 1 ∷ 2 ∷ 7 ∷ 0 ∷ 0x7e ∷ 0x7d ∷ 0xda ∷ 0x72 ∷ []

loaded-Simulates : Simulates loaded (collecting false inner)
loaded-Simulates = (refl, refl, refl, refl, refl, refl, ground arith)

-- Five bytes of room are too few for the six of `msg`.
sk_decoder_feed-Simulates_example :
    (st' : Decoder) × (sk_decoder_feed (some loaded) 0x7e (some (replicate 5 0)) 5
      ≡ some (dec_err_len, some st', some (replicate 5 0)))
    × Simulates st' (collecting false [])
unfolding event step answer verdict crc_from
sk_decoder_feed-Simulates_example =
    sk_decoder_feed-Simulates loaded (collecting false inner) 0x7e (some (replicate 5 0)) 5
      loaded-Simulates (omega arith) (omega arith)

encode_decode_roundtrip_example :
    (n : ℕ) × (sent : List ℕ) × (fresh : Decoder) × (st' : Decoder) × (sk_frame_encode
        (some msg)
        6
        (some (replicate 38 0))
        38
      ≡ some (pos n, some sent))
    × (sk_decoder_init (some midway) ≡ some fresh)
    × (feed_all (some fresh) (take n sent) (some out) 16
        ≡ some (
          replicate (n - 1) (dec_more, some out) ++ ((pos 6, some (msg ++ drop 6 out)) ∷ []),
          some st',
        ))
encode_decode_roundtrip_example =
    encode_decode_roundtrip msg 6 (replicate 38 0) 38 midway out 16 (omega arith) (omega arith)
      (omega arith) (ground arith) (omega arith) (omega arith) refl (omega arith) (omega arith)

msg-IsMessage : IsMessage msg
msg-IsMessage = (omega arith, omega arith)

msg-IsU8 : All IsU8 msg
msg-IsU8 = ground arith

stream_received_example :
    (st' : Decoder) × (rs : List (ℤ × Ptr (List ℕ))) × (before : List (ℤ × Ptr (List ℕ)))
    × (st1 : Decoder) × (feed_all (some midway) ((9 ∷ []) ++ frames (msg ∷ msg ∷ [])) (some out) 16
        ≡ some (rs, some st'))
    × (feed_all (some midway) ((9 ∷ []) ++ (flag ∷ [])) (some out) 16 ≡ some (before, some st1))
    × (received rs ≡ received before ++ (msg ∷ msg ∷ []))
stream_received_example =
    stream_received midway (collecting false (5 ∷ [])) (9 ∷ []) msg (msg ∷ []) out 16
      midway-Simulates (omega arith, tt) (msg-IsMessage, (msg-IsMessage, tt))
      (msg-IsU8, (msg-IsU8, tt)) (omega arith) (omega arith)

-- The checksum of `msg` is 0xDA72, and the message goes as 01 02 07 00 7D 5E 7D 5D DA 72.
sent_msg : stuff (sealed msg) ≡ 1 ∷ 2 ∷ 7 ∷ 0 ∷ 0x7d ∷ 0x5e ∷ 0x7d ∷ 0x5d ∷ 0xda ∷ 0x72 ∷ []
unfolding stuff stuff_byte crc_from
sent_msg = refl

-- The last escaped byte arrives as 5C, so that it stands for 7C, and its neighbour DA as DB.
abbrev got_wrong : List ℕ
got_wrong = 1 ∷ 2 ∷ 7 ∷ 0 ∷ 0x7d ∷ 0x5e ∷ 0x7d ∷ 0x5c ∷ 0xdb ∷ 0x72 ∷ []

neighbours_refused_example :
    (st' : Decoder) × (feed_all (some opened) (got_wrong ++ (flag ∷ [])) (some out) 16
      ≡ some (replicate 10 (dec_more, some out) ++ ((dec_err_crc, some out) ∷ []), some st'))
neighbours_refused_example =
    neighbours_refused opened msg (1 ∷ 2 ∷ 7 ∷ 0 ∷ 0x7d ∷ 0x5e ∷ 0x7d ∷ []) (0x72 ∷ []) 0x5d 0xda
      0x5c 0xdb out 16 opened-Simulates msg-IsMessage msg-IsU8 sent_msg (omega arith, omega arith)
      (omega arith, omega arith) refl refl (inr (λ e. absurd (omega arith))) (omega arith)
      (omega arith)

-- The same bytes differ from what was sent in two bits.
flips-two : flips (stuff (sealed msg)) got_wrong ≡ 2
unfolding flips stuff stuff_byte crc_from
flips-two = refl

got_wrong-KeepsEscapes : KeepsEscapes (stuff (sealed msg)) got_wrong
unfolding stuff stuff_byte crc_from
got_wrong-KeepsEscapes =
    (refl, (refl, (refl, (refl, (refl, (refl, (refl, (refl, (refl, (refl, tt))))))))))

got_wrong-IsInside : All IsInside got_wrong
got_wrong-IsInside = ground arith

bit_errors_refused_example :
    (st' : Decoder) × (feed_all (some opened) (got_wrong ++ (flag ∷ [])) (some out) 16
      ≡ some (replicate 10 (dec_more, some out) ++ ((dec_err_crc, some out) ∷ []), some st'))
bit_errors_refused_example =
    bit_errors_refused opened msg got_wrong out 16 opened-Simulates msg-IsMessage msg-IsU8
      got_wrong-KeepsEscapes got_wrong-IsInside (inr flips-two) (omega arith) (omega arith)

-- A bad escape, ESC before the closing flag, is not reported: the message is handed over.
bad_escape_silent :
    (feed_all (some opened) (stuff (sealed msg) ++ (0x7d ∷ flag ∷ [])) (some out) 16
      ≡ some (
        replicate 11 (dec_more, some out) ++ ((pos 6, some (msg ++ drop 6 out)) ∷ []),
        some (record loaded { count = 0 }),
      ))
unfolding feed_all sk_decoder_feed stuff stuff_byte crc_from
bad_escape_silent = refl

-- Calls with no output and with five bytes of it, and a set-up in the middle of a frame.
abbrev calls : List Call
calls =
    feed 0x7e none 0
    ∷ feed 5 none 0
    ∷ feed 0x7d (some (replicate 5 0)) 5
    ∷ set_up
    ∷ feed 0x7e (some out) 16
    ∷ []

decoder_client_example :
    (end : Decoder) × (run_calls (some (record idle { in_frame = 9; count = 77 })) (set_up ∷ calls)
      ≡ some (replay hunting calls, some end))
    × Simulates end (replayed hunting calls)
decoder_client_example =
    decoder_client (record idle { in_frame = 9; count = 77 }) calls refl
      (
        (omega arith, tt),
        ((omega arith, tt), ((omega arith, omega arith), (tt, ((omega arith, omega arith), tt)))),
      )
