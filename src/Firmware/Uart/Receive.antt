-- ===== src/Firmware/Uart/Receive.antt =====
-- What `uart_try_getc` takes from the receiver, while bytes arrive between its calls.
use mathlib.Core.Path.{subst}
use sharak.Prelude.{
  ◌+◌, length-append, All, IsU8, ℕ, zero, suc, ◌%◌, ◌^◌, ◌≡◌, refl, ap, sym, ◌∙◌, arith, List, [],
  ◌∷◌, ◌++◌, append_assoc, append-nil, ℤ, pos, negsuc, true, false, ◌==◌, bit_and, length,
  replicate, none_left, ◌-◌, ◌≤◌,
}
use sharak.Prelude.Bits.{bit_and_mask}
use sharak.Firmware.Device.{Device}
use sharak.Firmware.Uart.{uart_fr, uart_dr, fr_rxfe, uart_try_getc}

-- The depth of the receive FIFO of the LM3S6965.
abbrev pub fifo_depth : ℕ
fifo_depth = 16

-- The documented behaviour of the receiver: `pending` are the bytes in its FIFO. The empty flag tells
-- whether there are any, and a poll of it takes none. A read of DR takes the oldest one, which stands
-- in the low eight bits, below error flags. Bytes that arrive go behind the others, as far as the
-- FIFO has room for them; nothing is said of a FIFO that overruns.
pub record IsReceiver {D : Type 0} (dev : Device D) : Type 0 where
  pub pending : D → List ℕ
  pub arrive : List ℕ → D → D
  pub arrive_pending :
      (bs : List ℕ) (d : D)
      → All IsU8 bs
      → length (pending d) + length bs ≤ fifo_depth
      → pending (arrive bs d) ≡ pending d ++ bs
  pub poll_empty :
      (d : D) → pending d ≡ [] → (bit_and (dev.read32 d uart_fr).0 fr_rxfe == 0) ≡ false
  pub poll_some :
      (d : D) (b : ℕ) (bs : List ℕ)
      → pending d ≡ b ∷ bs
      → (bit_and (dev.read32 d uart_fr).0 fr_rxfe == 0) ≡ true
  pub poll_pending : (d : D) → pending (dev.read32 d uart_fr).1 ≡ pending d
  pub take_byte :
      (d : D) (b : ℕ) (bs : List ℕ) → pending d ≡ b ∷ bs → (dev.read32 d uart_dr).0 % 2 ^ 8 ≡ b
  pub take_pending :
      (d : D) (b : ℕ) (bs : List ℕ) → pending d ≡ b ∷ bs → pending (dev.read32 d uart_dr).1 ≡ bs

-- The bytes among the return values.
unfoldable pub bytes_of : List ℤ → List ℕ
bytes_of [] = []
bytes_of (pos c ∷ cs) = c ∷ bytes_of cs
bytes_of (negsuc e ∷ cs) = bytes_of cs

unfoldable pub joined : List (List ℕ) → List ℕ
joined [] = []
joined (bs ∷ more) = bs ++ joined more

joined-replicate : (n : ℕ) → joined (replicate n []) ≡ []
unfolding joined
joined-replicate zero = refl
joined-replicate (suc n) = joined-replicate n

-- The FIFO does not overrun: `n` bytes wait, the batches arrive one by one, and behind each of them
-- one byte is taken, if any waits.
abbrev pub Fits : List (List ℕ) → ℕ → Type 0
Fits [] n = n ≤ fifo_depth
Fits (bs ∷ more) n = (n + length bs ≤ fifo_depth) × Fits more (n + length bs - 1)

no_bytes-Fits : (k n : ℕ) → n ≤ fifo_depth → Fits (replicate k []) n
no_bytes-Fits zero n h = h
no_bytes-Fits (suc k) n h = (omega arith, no_bytes-Fits k (n + 0 - 1) (omega arith))

no_bytes : (n : ℕ) → All (All IsU8) (replicate n [])
no_bytes zero = tt
no_bytes (suc n) = (tt, no_bytes n)

module _ {D : Type 0} (dev : Device D) (line : IsReceiver dev) where
  -- One call after each arrival: the return values, and what is left.
  unfoldable pub try_all : List (List ℕ) → D → List ℤ × D
  unfolding uart_try_getc
  try_all [] d = ([], d)
  try_all (bs ∷ more) d =
      let (c, d1) = uart_try_getc dev (line.arrive bs d) in
      let (cs, d2) = try_all more d1 in (c ∷ cs, d2)

  try_getc-empty :
      (d : D)
      → line.pending d ≡ []
      → ((uart_try_getc dev d).0 ≡ negsuc 0) × (line.pending (uart_try_getc dev d).1 ≡ [])
  unfolding uart_try_getc
  try_getc-empty d e = rw (line.poll_empty d e) (refl, line.poll_pending d ∙ e)

  try_getc-some :
      (d : D) (b : ℕ) (bs : List ℕ)
      → line.pending d ≡ b ∷ bs
      → ((uart_try_getc dev d).0 ≡ pos b) × (line.pending (uart_try_getc dev d).1 ≡ bs)
  unfolding uart_try_getc
  try_getc-some d b bs e =
      let d1 = (dev.read32 d uart_fr).1 in
      let kept = line.poll_pending d ∙ e in
      rw (line.poll_some d b bs e) (
        ap pos (bit_and_mask 8 (dev.read32 d1 uart_dr).0 ∙ line.take_byte d1 b bs kept),
        line.take_pending d1 b bs kept,
      )

  -- A call takes the oldest byte, if there is one: nothing is lost before what comes later.
  call_keeps :
      (d : D) (cs : List ℤ) (left later : List ℕ)
      → let (c, d1) = uart_try_getc dev d in
        bytes_of cs ++ left ≡ line.pending d1 ++ later
        → bytes_of (c ∷ cs) ++ left ≡ line.pending d ++ later
  unfolding bytes_of
  call_keeps d cs left later e = go (line.pending d) refl
    where
      go :
          (p : List ℕ)
          → line.pending d ≡ p
          → bytes_of ((uart_try_getc dev d).0 ∷ cs) ++ left ≡ line.pending d ++ later
      go [] at_p =
          let (none_yet, still) = try_getc-empty d at_p in
          ap (λ c. bytes_of (c ∷ cs) ++ left) none_yet
          ∙ (e ∙ ap (λ t. t ++ later) (still ∙ sym at_p))
      go (b ∷ bs) at_p =
          let (got, rest) = try_getc-some d b bs at_p in
          ap (λ c. bytes_of (c ∷ cs) ++ left) got
          ∙ (ap (λ t. b ∷ t) (e ∙ ap (λ t. t ++ later) rest) ∙ ap (λ t. t ++ later) (sym at_p))

  call_left : (d : D) → length (line.pending (uart_try_getc dev d).1) ≡ length (line.pending d) - 1
  call_left d = go (line.pending d) refl
    where
      go :
          (p : List ℕ)
          → line.pending d ≡ p
          → length (line.pending (uart_try_getc dev d).1) ≡ length (line.pending d) - 1
      go [] at_p = omega (arith, ap length ((try_getc-empty d at_p).1), ap length at_p)
      go (b ∷ bs) at_p = omega (arith, ap length ((try_getc-some d b bs at_p).1), ap length at_p)

  -- What waits behind an arrival and a call.
  left_behind :
      (bs : List ℕ) (d : D)
      → All IsU8 bs
      → length (line.pending d) + length bs ≤ fifo_depth
      → length (line.pending (uart_try_getc dev (line.arrive bs d)).1)
        ≡ length (line.pending d) + length bs - 1
  left_behind bs d hb room =
      let now = line.arrive bs d in
      let total : length (line.pending now) ≡ length (line.pending d) + length bs =
        ap length (line.arrive_pending bs d hb room) ∙ length-append (line.pending d) bs in
      omega (arith, call_left now, total)

  try_all-order :
      (batches : List (List ℕ)) (d : D)
      → All (All IsU8) batches
      → Fits batches (length (line.pending d))
      → let (rs, d1) = try_all batches d in
        (bytes_of rs ++ line.pending d1 ≡ line.pending d ++ joined batches)
        × (length (line.pending d1) ≤ fifo_depth)
  unfolding try_all bytes_of joined
  try_all-order [] d h fits = (sym (append-nil (line.pending d)), fits)
  try_all-order (bs ∷ more) d (hb, h) (room, fits) =
      let now = line.arrive bs d in
      let (c, d1) = uart_try_getc dev now in
      let (cs, d2) = try_all more d1 in
      let (order, small) =
        try_all-order more d1 h (subst (Fits more) (sym (left_behind bs d hb room)) fits) in
      (
        call_keeps now cs (line.pending d2) (joined more) order
            ∙ (ap (λ t. t ++ joined more) (line.arrive_pending bs d hb room)
                ∙ append_assoc (line.pending d) bs (joined more)),
        small,
      )

  -- As many calls as there are bytes, while none arrive.
  try_all-drains :
      (n : ℕ) (d : D)
      → length (line.pending d) ≤ n
      → length (line.pending d) ≤ fifo_depth
      → line.pending (try_all (replicate n []) d).1 ≡ []
  unfolding try_all
  try_all-drains zero d h room = none_left (line.pending d) (omega arith)
  try_all-drains (suc n) d h room =
      let now = line.arrive [] d in
      let left = left_behind [] d tt (omega arith) in
      try_all-drains n (uart_try_getc dev now).1 (omega (arith, left)) (omega (arith, left))

  -- On a receiver that behaves as documented, with a FIFO of 16 bytes: some bytes may be there before,
  -- and bytes may arrive between the calls of `uart_try_getc`, never more than the FIFO has room for.
  -- However many calls there are, the bytes that they return are the first ones of all these, in order;
  -- as many more calls as bytes are left, with no arrival between them, return the others, and then
  -- nothing is left. A FIFO that overruns is not covered.
  pub uart_try_getc-received :
      (batches : List (List ℕ)) (d : D)
      → All (All IsU8) batches
      → Fits batches (length (line.pending d))
      → let (rs, d1) = try_all batches d in
        let (more, d2) = try_all (replicate (length (line.pending d1)) []) d1 in
        (bytes_of rs ++ line.pending d1 ≡ line.pending d ++ joined batches)
        × (bytes_of more ≡ line.pending d1)
        × (line.pending d2 ≡ [])
  uart_try_getc-received batches d h fits =
      let (rs, d1) = try_all batches d in
      let n = length (line.pending d1) in
      let (more, d2) = try_all (replicate n []) d1 in
      let (order, small) = try_all-order batches d h fits in
      let drained = try_all-drains n d1 (omega arith) small in
      let (rest, _) = try_all-order (replicate n []) d1 (no_bytes n) (no_bytes-Fits n n small) in
      (
        order,
        sym (append-nil (bytes_of more))
            ∙ (ap (λ t. bytes_of more ++ t) (sym drained)
                ∙ (rest
                    ∙ (ap (λ t. line.pending d1 ++ t) (joined-replicate n)
                        ∙ append-nil (line.pending d1)))),
        drained,
      )
