-- ===== src/Fleet/Tests.antt =====
-- Concrete readings, and the server on a small system.
use sharak.Prelude.{
  ◌≢◌, inr, map, ℕ, ◌-◌, ◌%◌, ◌^◌, ◌≡◌, refl, arith, List, [], ◌∷◌, ◌++◌, pos, negsuc, some,
  replicate, take, ◌≤◌, ap, sym, append-nil, ℤ, none, Bool, true, false, min, length, ltb, Ptr,
}
use sharak.Protocol.Wire.{dec_more, type_accel}
use sharak.Protocol.Payload.{Envelope, Axes, sk_payload_unpack}
use sharak.Protocol.Payload.RoundTrip.{assign_envelope, assign_axes}
use sharak.Protocol.Decoder.{Decoder, sk_decoder_init}
use sharak.Protocol.Decoder.Feed.{feed_all}
use sharak.Fleet.Server.{
  Os, Server, count, parse_args, take_option, port_flag, rate_flag, fleet_main, serving,
}
use sharak.Fleet.Server.Messages.{IsSystem}
use sharak.Protocol.Decoder.Received.{received}
use sharak.Protocol.Payload.Values.{unpack_all}
use sharak.Fleet.Server.Arguments.{set_port, set_rate, words, settings, parse_args-words}
use sharak.Fleet.Server.Readings.{client_reads, fleet_readings}
use sharak.Fleet.Server.Client.{IsWilling}
use sharak.Fleet.Server.Serving.{Holds, fleet_main-Holds}
use sharak.Fleet.{fleet_sample, fleet_build_frame}
use sharak.Fleet.Sent.{reading_arrives}

abbrev decoder : Decoder
decoder = record { in_frame = 1; esc = 1; overflow = 1; count = 9; buf = replicate 18 7 }

abbrev env : Envelope
env = record { ver = some 0; type = some 0; seq = some 0 }

abbrev axes : Axes
axes = record { x_mg = some (pos 0); y_mg = some (pos 0); z_mg = some (pos 0) }

-- The sequence number wraps.
late :
    fleet_sample 0x10005
    ≡ some (record { seq = 5; x_mg = negsuc 4; y_mg = negsuc 4; z_mg = pos 1000 })
unfolding fleet_sample
late = refl

reading_arrives_example :
    (n : ℕ) × (sent : List ℕ) × (fresh : Decoder) × (st' : Decoder) × (got : List ℕ)
    × (fleet_build_frame
          (replicate 16 0)
          0x7d7e
          (negsuc 4)
          (pos 8)
          (pos 1000)
          (some (replicate 38 0))
          38
        ≡ some (pos n, some sent))
    × (sk_decoder_init (some decoder) ≡ some fresh)
    × (feed_all (some fresh) (take n sent) (some (replicate 16 0)) 16
        ≡ some (
          replicate (n - 1) (dec_more, some (replicate 16 0)) ++ ((pos 16, some got) ∷ []),
          some st',
        ))
    × (sk_payload_unpack (some got) 16 env axes
        ≡ some (
          pos 0,
          assign_envelope env type_accel 0x7d7e,
          assign_axes axes (negsuc 4) (pos 8) (pos 1000),
        ))
reading_arrives_example =
    reading_arrives (replicate 16 0) 0x7d7e (negsuc 4) (pos 8) (pos 1000) (replicate 38 0) 38
      decoder (replicate 16 0) env axes refl (omega arith) (omega arith) (omega arith) (omega arith)
      (omega arith) (omega arith) refl (omega arith)

-- The options: "--port" "65537", "--rate" " -3", and an option without its value.
options :
    (parse_args
        (port_flag ∷ (54 ∷ 53 ∷ 53 ∷ 51 ∷ 55 ∷ []) ∷ rate_flag ∷ (32 ∷ 45 ∷ 51 ∷ []) ∷ [])
        (record { port = 5555; rate = 100 })
      ≡ some (record { port = 1; rate = 1 }))
    × (parse_args (port_flag ∷ []) (record { port = 5555; rate = 100 }) ≡ none)
unfolding parse_args take_option
options = (refl, refl)

-- A system with one client that takes three bytes a time, as long as it stays.
record Host : Type 0 where
  files : List ℤ
  sent : List ℕ

abbrev behind_first : List ℤ → List ℤ
behind_first [] = []
behind_first (fd ∷ fds) = fds

abbrev push : Bool → Host → List ℕ → ℤ × Host
push true w bytes =
    (pos (min 3 (length bytes)), record w { sent = w.sent ++ take (min 3 (length bytes)) bytes })
push false w bytes = (negsuc 0, w)

abbrev host : (stays : List ℕ → Bool) → Os Host
host stays = record {
  socket = λ w. (pos 3, record w { files = pos 3 ∷ w.files });
  set_reuse = λ w fd. w;
  bind = λ w fd port. (pos 0, w);
  listen = λ w fd. (pos 0, w);
  accept = λ w srv. (pos 4, record { files = pos 4 ∷ w.files; sent = [] });
  interrupted = λ w. false;
  write = λ w fd bytes. push (stays w.sent) w bytes;
  close = λ w fd. record w { files = behind_first w.files };
  usleep = λ w us. w;
}

push_open : (b : Bool) (w : Host) (bytes : List ℕ) → (push b w bytes).1.files ≡ w.files
push_open true w bytes = refl
push_open false w bytes = refl

push_count : (b : Bool) (w : Host) (bytes : List ℕ) → count (push b w bytes).0 ≤ length bytes
push_count true w bytes = omega arith
push_count false w bytes = omega arith

push_sent :
    (b : Bool) (w : Host) (bytes : List ℕ)
    → (push b w bytes).1.sent ≡ w.sent ++ take (count (push b w bytes).0) bytes
push_sent true w bytes = refl
push_sent false w bytes = sym (append-nil w.sent)

never : (A : Type 0) → false ≡ true → A
never A e = cc

abbrev system : (stays : List ℕ → Bool) → IsSystem (host stays)
system stays = record {
  opened = λ w. w.files;
  carried = λ w fd. w.sent;
  socket_open = λ w h. refl;
  socket_fails = λ w h. never _ h;
  reuse_open = λ w fd. refl;
  bind_open = λ w fd port. refl;
  listen_open = λ w fd. refl;
  accept_open = λ w srv h. refl;
  accept_fresh = λ w srv h. refl;
  accept_fails = λ w srv h. never _ h;
  write_open = λ w fd bytes. push_open (stays w.sent) w bytes;
  write_count = λ w fd bytes. push_count (stays w.sent) w bytes;
  write_carried = λ w fd bytes. push_sent (stays w.sent) w bytes;
  close_open = λ w fd rest e. ap behind_first e;
  sleep_open = λ w us. refl;
  sleep_carried = λ w us fd. refl;
}

-- A client that leaves behind 45 bytes.
abbrev for_a_frame : List ℕ → Bool
for_a_frame sent = ltb (length sent) 45

abbrev stack : List ℕ × List ℕ
stack = (replicate 16 9, replicate 38 9)

fleet_main-Holds_example :
    (srv : ℤ) × (s : Server Host) × (fleet_main
        (host for_a_frame)
        []
        (stack ∷ stack ∷ stack ∷ [])
        (record { files = []; sent = [] })
      ≡ some s)
    × Holds (host for_a_frame) (system for_a_frame) srv [] s
fleet_main-Holds_example =
    fleet_main-Holds (host for_a_frame) (system for_a_frame) [] (stack ∷ stack ∷ stack ∷ [])
      (record { files = []; sent = [] }) ((refl, refl), ((refl, refl), ((refl, refl), tt)))

no_options :
    parse_args [] (record { port = 5555; rate = 100 }) ≡ some (record { port = 5555; rate = 100 })
unfolding parse_args
no_options = refl

-- A client that stays.
abbrev always : List ℕ → Bool
always sent = true

host-IsWilling : IsWilling (host always)
host-IsWilling = record {
  sockets = λ w. refl;
  binds = λ w fd port. refl;
  listens = λ w fd. refl;
  accepts = λ w srv. refl;
  writes = λ w fd b bs. omega arith;
}

client_reads_example :
    (cli : ℤ) × (w' : Host) × (fresh : Decoder) × (st' : Decoder) × (rs : List (ℤ × Ptr (List ℕ)))
    × (fleet_main (host always) [] (stack ∷ stack ∷ stack ∷ []) (record { files = []; sent = [] })
        ≡ some (serving cli (2 % 2 ^ 32) w'))
    × (sk_decoder_init (some decoder) ≡ some fresh)
    × (feed_all (some fresh) w'.sent (some (replicate 16 0)) 16 ≡ some (rs, some st'))
    × (unpack_all (received rs) ≡ some (map (λ v. (pos 0, v)) (fleet_readings 0 2)))
client_reads_example =
    client_reads (host always) (system always) host-IsWilling []
      (record { port = 5555; rate = 100 }) stack (stack ∷ stack ∷ [])
      (record { files = []; sent = [] }) decoder (replicate 16 0) 16 no_options
      ((refl, refl), ((refl, refl), tt)) refl (omega arith) (omega arith)

abbrev verbose : List ℕ
verbose = 45 ∷ 45 ∷ 118 ∷ []

not_port : verbose ≢ port_flag
not_port e = cc

not_rate : verbose ≢ rate_flag
not_rate e = cc

-- --rate 0 --port 65537, and then --verbose.
parse_args-words_example :
    (parse_args (words (set_rate 0 ∷ set_port 65537 ∷ [])) (record { port = 5555; rate = 100 })
      ≡ some (record { port = 1; rate = 1 }))
    × (parse_args
          (words (set_rate 0 ∷ set_port 65537 ∷ []) ++ (verbose ∷ (49 ∷ []) ∷ []))
          (record { port = 5555; rate = 100 })
        ≡ none)
unfolding settings
parse_args-words_example =
    parse_args-words (set_rate 0 ∷ set_port 65537 ∷ []) (record { port = 5555; rate = 100 }) verbose
      ((49 ∷ []) ∷ []) (omega arith, (omega arith, tt)) (inr (not_port, not_rate))
