-- ===== src/Fleet/Server/Serving.antt =====
-- What holds in every round of the server.
use sharak.Prelude.{
  ℕ, suc, ◌+◌, ◌/◌, ◌%◌, ◌^◌, ◌≡◌, ◌⊎◌, inl, inr, refl, ap, ap₂, sym, ◌∙◌, arith, List, [], ◌∷◌,
  ◌++◌, ℤ, pos, some, none, Ptr, bind_some, length, u32, true, false, Bool-cases, IsU32, All,
}
use sharak.Protocol.Wire.{payload_len, frame_max}
use sharak.Protocol.Frame.Stuff.{frame}
use sharak.Protocol.Decoder.Stream.{frames, frames-append}
use sharak.Fleet.Server.{
  Os, Options, Server, listening, serving, stopped, is_negative, make_server, send_built,
  stream_round, accept_round, server_round, serve, start_server, fleet_main, parse_args,
}
use sharak.Fleet.Server.Messages.{
  IsSystem, Refused, fleet_message, fleet_messages, write_loop-carries, build-frame,
}

-- The local arrays of a round.
abbrev pub IsStack : List ℕ × List ℕ → Type 0
IsStack (payload, buf) = (length payload ≡ payload_len) × (length buf ≡ frame_max)

pub one_more :
    (q k phase : ℕ) (sent : List ℕ)
    → phase ≡ (q + k) % 2 ^ 32
    → sent ≡ frames (fleet_messages q k)
    → sent ++ frame (fleet_message phase) ≡ frames (fleet_messages q (suc k))
unfolding fleet_messages
one_more q k phase sent at so_far =
    ap₂ (λ t p. t ++ frame (fleet_message p)) so_far at
    ∙ sym (frames-append (fleet_messages q k) (fleet_message ((q + k) % 2 ^ 32)))

module _ {W : Type 0} (os : Os W) (system : IsSystem os) where
  -- `base` are the descriptors that were open before. While a client is served, it has been sent the
  -- frames of the `k` phases since the phase `q` at which it was accepted.
  abbrev pub Holds : ℤ → List ℤ → Server W → Type 0
  Holds srv base (listening phase w) = IsU32 phase × (system.opened w ≡ srv ∷ base)
  Holds srv base (serving cli phase w) =
      (system.opened w ≡ cli ∷ srv ∷ base)
      × (q : ℕ) × (k : ℕ) × IsU32 q
      × (phase ≡ (q + k) % 2 ^ 32)
      × (system.carried w cli ≡ frames (fleet_messages q k))
  Holds srv base (stopped rc w) = system.opened w ≡ base

  accept_round-Holds :
      (srv : ℤ) (base : List ℤ) (phase : ℕ) (w : W)
      → Holds srv base (listening phase w)
      → Holds srv base (accept_round os srv phase w)
  unfolding accept_round
  accept_round-Holds srv base phase w (small, open_before) =
      let (cli, w1) = os.accept w srv in
      elim (Bool-cases (is_negative cli)) [
        | inl fails ↦
            let same = system.accept_fails w srv fails ∙ open_before in
            rw fails (elim (Bool-cases (os.interrupted w1)) [
              | inl again ↦ rw again (small, same)
              | inr over ↦ rw over (system.close_open w1 srv base same)
            ])
        | inr works ↦ rw works (
          system.accept_open w srv works ∙ ap (λ t. cli ∷ t) open_before,
          phase,
          0,
          small,
          omega arith,
          system.accept_fresh w srv works ∙ unfold frames fleet_messages in refl,
        )
      ]

  -- A frame goes out whole, and the next one is due; or the client is closed, and the next one is
  -- waited for.
  pub stream_round_outcome :
      (period : ℕ) (payload buf : List ℕ) (cli : ℤ) (phase : ℕ) (w : W)
      → IsStack (payload, buf)
      → ((w' : W) × (stream_round os period payload buf cli phase w
            ≡ some (serving cli (u32 (phase + 1)) w'))
          × (system.opened w' ≡ system.opened w)
          × (system.carried w' cli ≡ system.carried w cli ++ frame (fleet_message phase)))
        ⊎ ((w' : W) × (stream_round os period payload buf cli phase w
              ≡ some (listening (u32 (phase + 1)) (os.close w' cli)))
            × (system.opened w' ≡ system.opened w)
            × Refused os system cli)
  unfolding stream_round send_built
  stream_round_outcome period payload buf cli phase w (size, room) =
      let msg = fleet_message phase in
      let (r, rest, sampled, built) = build-frame phase payload buf size room in
      let (whole, w1, written, same, ended) =
        write_loop-carries os system (suc (length (frame msg))) cli (frame msg ++ rest) []
          (frame msg) rest (length (frame msg)) 0 w refl refl (omega arith) (omega arith) in
      elim ended [
        | inl (part, refused) ↦ inr (
          w1,
          bind_some _ sampled (bind_some _ built (bind_some _ written (rw part refl))),
          same,
          refused,
        )
        | inr (all, carried) ↦ inl (
          os.usleep w1 (u32 period),
          bind_some _ sampled (bind_some _ built (bind_some _ written (rw all refl))),
          system.sleep_open w1 (u32 period) ∙ same,
          system.sleep_carried w1 (u32 period) cli ∙ carried,
        )
      ]

  stream_round-Holds :
      (srv : ℤ) (base : List ℤ) (period : ℕ) (payload buf : List ℕ) (cli : ℤ) (phase : ℕ) (w : W)
      → IsStack (payload, buf)
      → Holds srv base (serving cli phase w)
      → (s' : Server W) × (stream_round os period payload buf cli phase w ≡ some s')
        × Holds srv base s'
  stream_round-Holds srv base period payload buf cli phase w sizes
        (open_now, q, k, small, at, sent) =
      elim (stream_round_outcome period payload buf cli phase w sizes) [
        | inl (w', run, same, carried) ↦ (
          serving cli (u32 (phase + 1)) w',
          run,
          (
            same ∙ open_now,
            q,
            suc k,
            small,
            omega (arith, at),
            carried ∙ one_more q k phase (system.carried w cli) at sent,
          ),
        )
        | inr (w', run, same, _) ↦ (
          listening (u32 (phase + 1)) (os.close w' cli),
          run,
          (omega arith, system.close_open w' cli (srv ∷ base) (same ∙ open_now)),
        )
      ]

  serve-Holds :
      (srv : ℤ) (base : List ℤ) (period : ℕ) (stacks : List (List ℕ × List ℕ)) (s : Server W)
      → All IsStack stacks
      → Holds srv base s
      → (s' : Server W) × (serve os srv period stacks s ≡ some s') × Holds srv base s'
  unfolding serve server_round
  serve-Holds srv base period [] s sizes h = (s, refl, h)
  serve-Holds srv base period (stack ∷ stacks) (listening phase w) (size, sizes) h =
      serve-Holds srv base period stacks (accept_round os srv phase w) sizes
        (accept_round-Holds srv base phase w h)
  serve-Holds srv base period ((payload, buf) ∷ stacks) (serving cli phase w) (size, sizes) h =
      let (s1, one, h1) = stream_round-Holds srv base period payload buf cli phase w size h in
      let (s', more, h') = serve-Holds srv base period stacks s1 sizes h1 in
      (s', bind_some _ one more, h')
  serve-Holds srv base period (stack ∷ stacks) (stopped rc w) (size, sizes) h =
      serve-Holds srv base period stacks (stopped rc w) sizes h

  -- A server socket, or an error with every descriptor closed again.
  make_server-open :
      (port : ℕ) (w : W)
      → let (srv, w1) = make_server os port w in
        ((is_negative srv ≡ true) × (system.opened w1 ≡ system.opened w))
        ⊎ ((is_negative srv ≡ false) × (system.opened w1 ≡ srv ∷ system.opened w))
  unfolding make_server
  make_server-open port w =
      let (fd, w1) = os.socket w in
      let w2 = os.set_reuse w1 fd in
      let (bound, w3) = os.bind w2 fd port in
      let (queued, w4) = os.listen w3 fd in
      elim (Bool-cases (is_negative fd)) [
        | inl fails ↦ rw fails (inl (refl, system.socket_fails w fails))
        | inr works ↦
            let one : system.opened w3 ≡ fd ∷ system.opened w =
              system.bind_open w2 fd port
              ∙ (system.reuse_open w1 fd ∙ system.socket_open w works) in
            let two : system.opened w4 ≡ fd ∷ system.opened w = system.listen_open w3 fd ∙ one in
            rw works (elim (Bool-cases (is_negative bound)) [
              | inl fails ↦ rw fails (inl (refl, system.close_open w3 fd (system.opened w) one))
              | inr binds ↦ rw binds (elim (Bool-cases (is_negative queued)) [
                | inl fails ↦ rw fails (inl (refl, system.close_open w4 fd (system.opened w) two))
                | inr listens ↦ rw listens (inr (works, two))
              ])
            ])
      ]

  start_server-Holds :
      (o : Ptr Options) (stacks : List (List ℕ × List ℕ)) (w : W)
      → All IsStack stacks
      → (srv : ℤ) × (s : Server W) × (start_server os o stacks w ≡ some s)
        × Holds srv (system.opened w) s
  unfolding start_server
  start_server-Holds none stacks w sizes = (pos 0, stopped 2 w, refl, refl)
  start_server-Holds (some o) stacks w sizes =
      let (srv, w1) = make_server os o.port w in
      elim (make_server-open o.port w) [
        | inl (fails, same) ↦ (srv, stopped 1 w1, rw fails refl, same)
        | inr (works, open_now) ↦
            let (s, run, h) =
              serve-Holds srv (system.opened w) (1000000 / o.rate) stacks (listening 0 w1) sizes
                (omega arith, open_now) in
            (srv, s, rw works run, h)
      ]

  -- Whatever the arguments and however the calls of the operating system end: for any number of
  -- rounds of its loops, `main` makes no access out of range. The descriptors that are open are those
  -- from before, with the server socket, and while a client is served with the client's; when `main`
  -- has returned, by any of its paths, they are those from before. What a client that is served has
  -- been sent is the frames of the consecutive phases since it was accepted, and nothing else,
  -- however the writes were cut.
  pub fleet_main-Holds :
      (args : List (List ℕ)) (stacks : List (List ℕ × List ℕ)) (w : W)
      → All IsStack stacks
      → (srv : ℤ) × (s : Server W) × (fleet_main os args stacks w ≡ some s)
        × Holds srv (system.opened w) s
  unfolding fleet_main
  fleet_main-Holds args stacks w sizes =
      start_server-Holds (parse_args args (record { port = 5555; rate = 100 })) stacks w sizes
