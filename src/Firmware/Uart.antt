-- ===== src/Firmware/Uart.antt =====
-- The UART driver of firmware/uart.c, over any device.
pub mod Transmit
pub mod Receive
pub mod Text
mod Tests
use sharak.Prelude.{
  load, ℕ, zero, suc, ◌+◌, List, [], ◌∷◌, ℤ, pos, negsuc, Run, none, some, ◌>>=◌, ◌==◌,
  if◌then◌else◌, bit_and, bit_or, u8, ◌<<<◌,
}
use sharak.Firmware.Device.{Device}

abbrev pub uart_base : ℕ
uart_base = 0x4000c000

abbrev pub uart_dr : ℕ
uart_dr = uart_base + 0x000

abbrev pub uart_fr : ℕ
uart_fr = uart_base + 0x018

abbrev pub uart_ibrd : ℕ
uart_ibrd = uart_base + 0x024

abbrev pub uart_fbrd : ℕ
uart_fbrd = uart_base + 0x028

abbrev pub uart_lcrh : ℕ
uart_lcrh = uart_base + 0x02c

abbrev pub uart_ctl : ℕ
uart_ctl = uart_base + 0x030

abbrev pub fr_rxfe : ℕ
fr_rxfe = 0x10

abbrev pub fr_txff : ℕ
fr_txff = 0x20

abbrev pub lcrh_fen : ℕ
lcrh_fen = 1 <<< 4

abbrev pub lcrh_wlen_8 : ℕ
lcrh_wlen_8 = 3 <<< 5

abbrev pub ctl_uarten : ℕ
ctl_uarten = 1 <<< 0

abbrev pub ctl_txe : ℕ
ctl_txe = 1 <<< 8

abbrev pub ctl_rxe : ℕ
ctl_rxe = 1 <<< 9

abbrev pub sysctl_rcgc1 : ℕ
sysctl_rcgc1 = 0x400fe000 + 0x104

abbrev pub rcgc1_uart0 : ℕ
rcgc1_uart0 = 1 <<< 0

abbrev pub ibrd_115200 : ℕ
ibrd_115200 = 6

abbrev pub fbrd_115200 : ℕ
fbrd_115200 = 33

module _ {D : Type 0} (dev : Device D) where
  -- `uart_init`
  unfoldable pub uart_init : D → D
  uart_init d =
      let (gate, d1) = dev.read32 d sysctl_rcgc1 in
      let d2 = dev.write32 d1 sysctl_rcgc1 (bit_or gate rcgc1_uart0) in
      let (ready, d3) = dev.read32 d2 sysctl_rcgc1 in
      let d4 = dev.write32 d3 uart_ctl 0 in
      let d5 = dev.write32 d4 uart_ibrd ibrd_115200 in
      let d6 = dev.write32 d5 uart_fbrd fbrd_115200 in
      let d7 = dev.write32 d6 uart_lcrh (bit_or lcrh_wlen_8 lcrh_fen) in
      dev.write32 d7 uart_ctl (bit_or (bit_or ctl_uarten ctl_txe) ctl_rxe)

  -- The busy-wait of `uart_putc`, for at most `fuel` polls; `none` is a FIFO that stayed full.
  pub wait_room : ℕ → D → Run D
  wait_room zero d = none
  wait_room (suc fuel) d =
      let (flags, d') = dev.read32 d uart_fr in
      let again = wait_room fuel d' in if bit_and flags fr_txff == 0 then some d' else again

  unfoldable pub uart_putc : ℕ → ℕ → D → Run D
  unfolding wait_room
  uart_putc fuel c d = do d' ← wait_room fuel d; some (dev.write32 d' uart_dr (u8 c))

  -- The loop of `uart_write` at index `i`, with `len - i` rounds left.
  pub uart_write_loop : ℕ → List ℕ → ℕ → ℕ → D → Run D
  unfolding uart_putc
  uart_write_loop fuel bytes zero i d = some d
  uart_write_loop fuel bytes (suc left) i d = do
    b ← load bytes i
    d' ← uart_putc fuel b d
    uart_write_loop fuel bytes left (i + 1) d'

  unfoldable pub uart_write : ℕ → List ℕ → ℕ → D → Run D
  unfolding uart_write_loop
  uart_write fuel bytes len d = uart_write_loop fuel bytes len 0 d

  -- `uart_puts` sends the characters in front of the NUL; a string without one is a fault.
  unfoldable pub uart_puts : ℕ → List ℕ → D → Run D
  unfolding uart_putc
  uart_puts fuel [] d = none
  uart_puts fuel (c ∷ s) d =
      if c == 0 then some d else do d' ← uart_putc fuel c d; uart_puts fuel s d'

  -- `uart_try_getc`
  unfoldable pub uart_try_getc : D → ℤ × D
  uart_try_getc d =
      let (flags, d') = dev.read32 d uart_fr in
      if bit_and flags fr_rxfe == 0
      then (let (c, d'') = dev.read32 d' uart_dr in (pos (bit_and c 0xff), d''))
      else (negsuc 0, d')
