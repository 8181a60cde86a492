-- ===== src/Firmware/Uart/Text.antt =====
-- Texts and the configuration of the UART: what they put on the line.
use sharak.Prelude.{
  ℕ, ◌≤◌, ◌<◌, ◌≡◌, ◌≢◌, refl, ap, sym, ◌∙◌, arith, List, [], ◌∷◌, ◌++◌, append_assoc, append-nil,
  some, bind_some, All, ◌==◌, false,
}
use sharak.Firmware.Uart.{
  sysctl_rcgc1, uart_ibrd, uart_fbrd, uart_lcrh, uart_ctl, uart_dr, uart_puts, uart_init,
}
use sharak.Firmware.Device.{Device}
use sharak.Firmware.Uart.Transmit.{IsTransmitter, uart_putc-sent}

-- A character of a text: a byte that is not NUL.
abbrev pub IsChar : ℕ → Type 0
IsChar c = (0 < c) × (c < 256)

-- What the configuration relies on besides: no register but DR sends anything or makes the FIFO
-- fuller.
pub record IsQuiet {D : Type 0} (dev : Device D) (bound : ℕ) (line : IsTransmitter dev bound)
    : Type 0 where
  pub read_sent : (d : D) (reg : ℕ) → reg ≢ uart_dr → line.sent (dev.read32 d reg).1 ≡ line.sent d
  pub read_busy : (d : D) (reg : ℕ) → reg ≢ uart_dr → line.busy (dev.read32 d reg).1 ≤ line.busy d
  pub write_sent :
      (d : D) (reg v : ℕ) → reg ≢ uart_dr → line.sent (dev.write32 d reg v) ≡ line.sent d
  pub write_busy :
      (d : D) (reg v : ℕ) → reg ≢ uart_dr → line.busy (dev.write32 d reg v) ≤ line.busy d

module _ {D : Type 0} (dev : Device D) (bound : ℕ) (line : IsTransmitter dev bound) where
  -- A text up to its NUL, whatever stands behind it, is carried without the NUL.
  pub uart_puts-sent :
      (fuel : ℕ) (text rest : List ℕ) (d : D)
      → All IsChar text
      → line.busy d ≤ bound
      → bound < fuel
      → (d' : D) × (uart_puts dev fuel (text ++ (0 ∷ rest)) d ≡ some d')
        × (line.busy d' ≤ bound)
        × (line.sent d' ≡ line.sent d ++ text)
  unfolding uart_puts
  uart_puts-sent fuel [] rest d chars h enough = (d, refl, h, sym (append-nil (line.sent d)))
  uart_puts-sent fuel (c ∷ text) rest d (hc, chars) h enough =
      let printed : (c == 0) ≡ false = ground arith in
      let (d1, one, h1, sent1) = uart_putc-sent dev bound line fuel c d h enough hc.1 in
      let (d2, more, h2, sent2) = uart_puts-sent fuel text rest d1 chars h1 enough in
      (
        d2,
        rw printed (bind_some _ one more),
        h2,
        sent2 ∙ (ap (λ t. t ++ text) sent1 ∙ append_assoc (line.sent d) (c ∷ []) text),
      )

  -- From `d` to `d'` nothing is sent.
  abbrev Silent : D → D → Type 0
  Silent d d' = (line.sent d' ≡ line.sent d) × (line.busy d' ≤ line.busy d)

  Silent-trans : (a b c : D) → Silent a b → Silent b c → Silent a c
  Silent-trans a b c (sent1, busy1) (sent2, busy2) = (sent2 ∙ sent1, omega arith)

  -- The configuration sends nothing.
  pub uart_init-Silent :
      IsQuiet dev bound line
      → (d : D)
      → (line.sent (uart_init dev d) ≡ line.sent d) × (line.busy (uart_init dev d) ≤ line.busy d)
  unfolding uart_init
  uart_init-Silent q d =
      let put = λ (a b : D) (reg v : ℕ) (ne : reg ≢ uart_dr) (h : Silent a b).
        Silent-trans a b (dev.write32 b reg v) h
          (q.write_sent b reg v ne, q.write_busy b reg v ne) in
      let get = λ (a b : D) (reg : ℕ) (ne : reg ≢ uart_dr) (h : Silent a b).
        Silent-trans a b (dev.read32 b reg).1 h (q.read_sent b reg ne, q.read_busy b reg ne) in
      put d _ uart_ctl _ (λ e. absurd (omega arith))
        (put d _ uart_lcrh _ (λ e. absurd (omega arith))
          (put d _ uart_fbrd _ (λ e. absurd (omega arith))
            (put d _ uart_ibrd _ (λ e. absurd (omega arith))
              (put d _ uart_ctl _ (λ e. absurd (omega arith))
                (get d _ sysctl_rcgc1 (λ e. absurd (omega arith))
                  (put d _ sysctl_rcgc1 _ (λ e. absurd (omega arith))
                    (get d d sysctl_rcgc1 (λ e. absurd (omega arith)) (refl, omega arith))))))))
