-- ===== src/Firmware/Uart/Transmit.antt =====
-- What the transmitter sends, over hardware whose FIFO drains.
use native.Mathlib.Numerals.{add-one}
use mathlib.Core.Path.{subst}
use sharak.Prelude.{
  ℕ, zero, suc, ◌+◌, ◌-◌, ◌≤◌, ◌<◌, ◌≡◌, refl, ap, sym, ◌∙◌, arith, List, [], ◌∷◌, ◌++◌,
  append_assoc, append-nil, some, bind_some, All, IsU8, Bool-cases, inl, inr, true, false, ◌==◌,
  bit_and, u8, ==_iff, length, take, drop, split_at, load_in,
}
use sharak.Firmware.Device.{Device}
use sharak.Firmware.Uart.{
  uart_fr, uart_dr, fr_txff, wait_room, uart_putc, uart_write, uart_write_loop,
}

-- The documented behaviour of the transmitter that the driver relies on: the line carries the bytes
-- written to DR in order; the full flag is up for some number of polls, at most `bound` after a
-- write, and each poll leaves one less; polling sends nothing.
pub record IsTransmitter {D : Type 0} (dev : Device D) (bound : ℕ) : Type 0 where
  pub sent : D → List ℕ
  pub busy : D → ℕ
  pub poll_ready : (d : D) → busy d ≡ 0 → (bit_and (dev.read32 d uart_fr).0 fr_txff == 0) ≡ true
  pub poll_full : (d : D) → 0 < busy d → (bit_and (dev.read32 d uart_fr).0 fr_txff == 0) ≡ false
  pub poll_busy : (d : D) → busy (dev.read32 d uart_fr).1 ≡ busy d - 1
  pub poll_sent : (d : D) → sent (dev.read32 d uart_fr).1 ≡ sent d
  pub push_sent : (d : D) (c : ℕ) → busy d ≡ 0 → sent (dev.write32 d uart_dr c) ≡ sent d ++ (c ∷ [])
  pub push_busy : (d : D) (c : ℕ) → busy d ≡ 0 → busy (dev.write32 d uart_dr c) ≤ bound

some-injective : {x y : ℕ} → some x ≡ some y → x ≡ y
some-injective e = cc

module _ {D : Type 0} (dev : Device D) (bound : ℕ) (line : IsTransmitter dev bound) where
  wait_room-ready :
      (fuel : ℕ) (d : D)
      → line.busy d < fuel
      → (d' : D) × (wait_room dev fuel d ≡ some d')
        × (line.busy d' ≡ 0)
        × (line.sent d' ≡ line.sent d)
  unfolding wait_room
  wait_room-ready zero d h = absurd (omega arith)
  wait_room-ready (suc fuel) d h = elim (Bool-cases (line.busy d == 0)) [
    | inl e ↦
        let idle : line.busy d ≡ 0 = (==_iff (line.busy d) 0).0 e in
        (
          (dev.read32 d uart_fr).1,
          rw (line.poll_ready d idle),
          omega (arith, line.poll_busy d, idle),
          line.poll_sent d,
        )
    | inr n ↦
        let some_left : 0 < line.busy d = ground arith in
        let (d', run, idle, same) =
          wait_room-ready fuel (dev.read32 d uart_fr).1 (omega (arith, line.poll_busy d)) in
        (d', rw (line.poll_full d some_left) run, idle, same ∙ line.poll_sent d)
  ]

  pub uart_putc-sent :
      (fuel : ℕ) (c : ℕ) (d : D)
      → line.busy d ≤ bound
      → bound < fuel
      → IsU8 c
      → (d' : D) × (uart_putc dev fuel c d ≡ some d')
        × (line.busy d' ≤ bound)
        × (line.sent d' ≡ line.sent d ++ (c ∷ []))
  unfolding uart_putc
  uart_putc-sent fuel c d h enough hc =
      let (d1, run, idle, same) = wait_room-ready fuel d (omega arith) in
      let byte : u8 c ≡ c = omega arith in
      (
        dev.write32 d1 uart_dr (u8 c),
        bind_some _ run refl,
        line.push_busy d1 (u8 c) idle,
        line.push_sent d1 (u8 c) idle
            ∙ (ap (λ t. t ++ (u8 c ∷ [])) same ∙ ap (λ b. line.sent d ++ (b ∷ [])) byte),
      )

  uart_write_loop-sent :
      (fuel : ℕ) (bytes : List ℕ) (left i : ℕ) (d : D)
      → i + left ≤ length bytes
      → line.busy d ≤ bound
      → bound < fuel
      → All IsU8 bytes
      → (d' : D) × (uart_write_loop dev fuel bytes left i d ≡ some d')
        × (line.busy d' ≤ bound)
        × (line.sent d' ≡ line.sent d ++ take left (drop i bytes))
  unfolding uart_write_loop
  uart_write_loop-sent fuel bytes zero i d fits h enough hb =
      (d, refl, h, sym (append-nil (line.sent d)))
  uart_write_loop-sent fuel bytes (suc left) i d fits h enough hb =
      let (b, read, rest, taken) = split_at i bytes (omega arith) in
      let (b', read', small) = load_in IsU8 bytes i hb (omega arith) in
      let same : b' ≡ b = some-injective (sym read' ∙ read) in
      let (d1, one, h1, sent1) = uart_putc-sent fuel b d h enough (subst IsU8 same small) in
      let (d2, more, h2, sent2) =
        uart_write_loop-sent fuel bytes left (i + 1) d1 (omega arith) h1 enough hb in
      let tail : b ∷ take left (drop (i + 1) bytes) ≡ take (suc left) (drop i bytes) =
        rw (rest, ← add-one i) refl in
      (
        d2,
        bind_some _ read (bind_some _ one more),
        h2,
        sent2
            ∙ (ap (λ t. t ++ take left (drop (i + 1) bytes)) sent1
                ∙ (append_assoc (line.sent d) (b ∷ []) (take left (drop (i + 1) bytes))
                    ∙ ap (λ t. line.sent d ++ t) tail)),
      )

  -- With more polls than the FIFO needs to drain and a length that fits the buffer, `uart_write`
  -- returns, and the line has carried the bytes of the buffer, in order and behind what it carried
  -- before; the FIFO drains again as before.
  pub uart_write-sent :
      (fuel : ℕ) (bytes : List ℕ) (len : ℕ) (d : D)
      → len ≤ length bytes
      → line.busy d ≤ bound
      → bound < fuel
      → All IsU8 bytes
      → (d' : D) × (uart_write dev fuel bytes len d ≡ some d')
        × (line.busy d' ≤ bound)
        × (line.sent d' ≡ line.sent d ++ take len bytes)
  unfolding uart_write
  uart_write-sent fuel bytes len d fits h enough hb =
      uart_write_loop-sent fuel bytes len 0 d (omega arith) h enough hb
