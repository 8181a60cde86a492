-- ===== src/Fleet/Server.antt =====
-- The TCP server of sim/fleet_main.c: the command line, the listening socket, and the loops that
-- accept clients and stream frames to them. The operating system is a parameter; messages on the
-- error stream have no effect and are left out.
pub mod Messages
pub mod Serving
pub mod Client
pub mod Readings
pub mod Decimal
pub mod Arguments
use sharak.Prelude.{
  ℕ, zero, suc, ◌+◌, ◌-◌, ◌*◌, ◌/◌, ◌%◌, ◌^◌, List, [], ◌∷◌, ℤ, pos, negsuc, Ptr, Run, none, some,
  ◌>>=◌, if◌then◌else◌, ◌==◌, ltb, leb, ◌&&◌, ◌||◌, Bool, true, false, take, drop, length, u16, u32,
}
use sharak.Protocol.Wire.{frame_max}
use sharak.Fleet.{Reading, fleet_sample, fleet_build_frame}

-- The calls of the operating system, over what they change. `accept` and the others return a
-- negative number on an error, and `interrupted` is the test `errno == EINTR`.
pub record Os (W : Type 0) : Type 0 where
  pub socket : W → ℤ × W
  pub set_reuse : W → ℤ → W
  pub bind : W → ℤ → ℕ → ℤ × W
  pub listen : W → ℤ → ℤ × W
  pub accept : W → ℤ → ℤ × W
  pub interrupted : W → Bool
  pub write : W → ℤ → List ℕ → ℤ × W
  pub close : W → ℤ → W
  pub usleep : W → ℕ → W

-- `fd < 0`
abbrev pub is_negative : ℤ → Bool
is_negative (pos n) = false
is_negative (negsuc n) = true

-- `strcmp(a, b) == 0`, of strings without their NUL.
abbrev same_text : List ℕ → List ℕ → Bool
same_text [] [] = true
same_text (x ∷ xs) (y ∷ ys) = x == y && same_text xs ys
same_text _ _ = false

-- `strtoul` and `strtol` of C for base 10, where a `long` has 64 bits: white space, a sign, digits.
abbrev skip_space : List ℕ → List ℕ
skip_space [] = []
skip_space (c ∷ cs) =
    let rest = skip_space cs in if c == 32 || (leb 9 c && leb c 13) then rest else c ∷ cs

abbrev digits_of : List ℕ → ℕ → ℕ
digits_of [] n = n
digits_of (c ∷ cs) n =
    let more = digits_of cs (n * 10 + (c - 48)) in if leb 48 c && leb c 57 then more else n

-- Whether there is a minus sign, and the number behind the sign.
abbrev signed_digits : List ℕ → Bool × ℕ
signed_digits [] = (false, 0)
signed_digits (c ∷ cs) =
    if c == 45
    then (true, digits_of cs 0)
    else (if c == 43 then (false, digits_of cs 0) else (false, digits_of (c ∷ cs) 0))

abbrev strtoul : List ℕ → ℕ
strtoul text =
    let (negative, n) = signed_digits (skip_space text) in
    if ltb n (2 ^ 64) then (if negative then (2 ^ 64 - n) % 2 ^ 64 else n) else 2 ^ 64 - 1

abbrev minus : ℕ → ℤ
minus zero = pos 0
minus (suc n) = negsuc n

abbrev strtol : List ℕ → ℤ
strtol text =
    let (negative, n) = signed_digits (skip_space text) in
    if negative
    then (if ltb n (2 ^ 63) then minus n else negsuc (2 ^ 63 - 1))
    else (if ltb n (2 ^ 63) then pos n else pos (2 ^ 63 - 1))

-- "--port" and "--rate".
abbrev pub port_flag : List ℕ
port_flag = 45 ∷ 45 ∷ 112 ∷ 111 ∷ 114 ∷ 116 ∷ []

abbrev pub rate_flag : List ℕ
rate_flag = 45 ∷ 45 ∷ 114 ∷ 97 ∷ 116 ∷ 101 ∷ []

pub record Options : Type 0 where
  pub port : ℕ
  pub rate : ℕ

-- `if (rate < 1) rate = 1`
abbrev at_least_one : ℤ → ℕ
at_least_one (pos (suc n)) = suc n
at_least_one _ = 1

-- An option with its value; `none` is the usage message.
unfoldable pub take_option : List ℕ → List ℕ → Options → Ptr Options
take_option flag value o =
    if same_text flag port_flag
    then some (record o { port = u16 (strtoul value) })
    else (if same_text flag rate_flag
        then some (record o { rate = at_least_one (strtol value) })
        else none)

-- The arguments behind the name of the program.
unfoldable pub parse_args : List (List ℕ) → Options → Ptr Options
unfolding take_option
parse_args [] o = some o
parse_args (flag ∷ []) o = none
parse_args (flag ∷ value ∷ rest) o = do o' ← take_option flag value o; parse_args rest o'

-- Where `main` stands: in front of `accept`, in front of a frame to a client, or behind its return.
pub data Server (W : Type 0) : Type 0 where
  listening : ℕ → W → Server W
  serving : ℤ → ℕ → W → Server W
  stopped : ℕ → W → Server W

-- `w <= 0` fails; the count of a `write` otherwise.
abbrev pub count : ℤ → ℕ
count (pos n) = n
count (negsuc n) = 0

module _ {W : Type 0} (os : Os W) where
  pub make_server : ℕ → W → ℤ × W
  make_server port w =
      let (fd, w1) = os.socket w in
      let (bound, w2) = os.bind (os.set_reuse w1 fd) fd port in
      let (queued, w3) = os.listen w2 fd in
      if is_negative fd
      then (negsuc 0, w1)
      else (if is_negative bound
          then (negsuc 0, os.close w2 fd)
          else (if is_negative queued then (negsuc 0, os.close w3 fd) else (fd, w3)))

  -- The loop that writes the frame from `off` on, for less than `fuel` rounds: whether the whole
  -- frame went out.
  pub write_loop : (fuel : ℕ) → ℤ → List ℕ → ℕ → ℕ → W → Run (Bool × W)
  write_loop zero cli frame n off w = none
  write_loop (suc fuel) cli frame n off w =
      let (r, w1) = os.write w cli (take (n - off) (drop off frame)) in
      let rest = write_loop fuel cli frame n (off + count r) w1 in
      if ltb off n
      then (if leb n (length frame)
          then (if ltb 0 (count r) then rest else some (false, w1))
          else none)
      else some (true, w)

  -- A frame that was built, or the error of the encoder. Each write takes a byte at least, so that
  -- `n + 1` rounds are enough.
  pub send_built : (period : ℕ) → ℤ → List ℕ → ℤ → ℕ → W → Run (Server W)
  unfolding write_loop
  send_built period (negsuc e) frame cli phase w = some (listening phase (os.close w cli))
  send_built period (pos n) frame cli phase w = do
    (whole, w1) ← write_loop (suc n) cli frame n 0 w
    if whole
        then some (serving cli phase (os.usleep w1 (u32 period)))
        else some (listening phase (os.close w1 cli))

  -- A round of the inner loop. `payload` and `frame` hold whatever the stack holds.
  pub stream_round : (period : ℕ) → List ℕ → List ℕ → ℤ → ℕ → W → Run (Server W)
  unfolding send_built fleet_sample fleet_build_frame
  stream_round period payload frame cli phase w = do
    r ← fleet_sample phase
    (n, out) ← fleet_build_frame payload r.seq r.x_mg r.y_mg r.z_mg (some frame) frame_max
    built ← out
    send_built period n built cli (u32 (phase + 1)) w

  -- A round of the outer loop up to its inner loop.
  pub accept_round : ℤ → ℕ → W → Server W
  accept_round srv phase w =
      let (cli, w1) = os.accept w srv in
      if is_negative cli
      then (if os.interrupted w1 then listening phase w1 else stopped 0 (os.close w1 srv))
      else serving cli phase w1

  pub server_round : ℤ → ℕ → List ℕ × List ℕ → Server W → Run (Server W)
  unfolding stream_round accept_round
  server_round srv period stack (listening phase w) = some (accept_round srv phase w)
  server_round srv period (payload, frame) (serving cli phase w) =
      stream_round period payload frame cli phase w
  server_round srv period stack (stopped rc w) = some (stopped rc w)

  -- The rounds of the two loops, each with what the stack holds in it.
  pub serve : ℤ → ℕ → List (List ℕ × List ℕ) → Server W → Run (Server W)
  unfolding server_round
  serve srv period [] s = some s
  serve srv period (stack ∷ stacks) s = do
    s' ← server_round srv period stack s
    serve srv period stacks s'

  -- What follows the command line.
  pub start_server : Ptr Options → List (List ℕ × List ℕ) → W → Run (Server W)
  unfolding make_server
  start_server none stacks w = some (stopped 2 w)
  start_server (some o) stacks w =
      let (srv, w1) = make_server o.port w in
      let run = serve srv (1000000 / o.rate) stacks (listening 0 w1) in
      if is_negative srv then some (stopped 1 w1) else run

  -- `main` with the arguments behind its name, for as many rounds as there are stacks.
  pub fleet_main : List (List ℕ) → List (List ℕ × List ℕ) → W → Run (Server W)
  unfolding parse_args start_server
  fleet_main args stacks w =
      start_server (parse_args args (record { port = 5555; rate = 100 })) stacks w
