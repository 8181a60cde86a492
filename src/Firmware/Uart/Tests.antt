-- ===== src/Firmware/Uart/Tests.antt =====
-- A line whose FIFO is full for two polls after each byte.
use sharak.Prelude.{
  ◌∙◌, length-append, take_all, take, suc, ap, ap₂, All, IsU8, u8, drop, bit_and, true, replicate,
  length, ◌+◌, ◌%◌, ◌^◌, ℕ, ◌-◌, ◌≤◌, ◌<◌, ◌≡◌, refl, arith, List, [], ◌∷◌, ◌++◌, some, ◌==◌,
  if◌then◌else◌, false,
}
use sharak.Firmware.Device.{Device}
use sharak.Firmware.Uart.Receive.{IsReceiver, try_all, bytes_of, joined, uart_try_getc-received}
use sharak.Firmware.Uart.{uart_fr, fr_rxfe, fr_txff, uart_write, uart_puts}
use sharak.Firmware.Uart.Transmit.{IsTransmitter, uart_write-sent}

record Line : Type 0 where
  full : ℕ
  carried : List ℕ

abbrev slow : Device Line
slow = record {
  read32 = λ d reg. (if d.full == 0 then 0 else fr_txff, record d { full = d.full - 1 });
  write32 = λ d reg c. record { full = 2; carried = d.carried ++ (c ∷ []) };
}

some_full : (n : ℕ) → 0 < n → (n == 0) ≡ false
some_full n h = ground arith

abbrev slow_line : IsTransmitter slow 2
slow_line = record {
  sent = λ d. d.carried;
  busy = λ d. d.full;
  poll_ready = λ d e. rw e;
  poll_full = λ d h. rw (some_full d.full h);
  poll_busy = λ d. refl;
  poll_sent = λ d. refl;
  push_sent = λ d c e. refl;
  push_busy = λ d c e. omega arith;
}

-- A string stops at its NUL.
banner :
    uart_puts slow 9 (79 ∷ 75 ∷ 0 ∷ 88 ∷ []) (record { full = 1; carried = [] })
    ≡ some (record { full = 2; carried = 79 ∷ 75 ∷ [] })
unfolding uart_puts
banner = refl

uart_write-sent_example :
    (d' : Line) × (uart_write slow 3
        (0x7e ∷ 0 ∷ 0x7e ∷ 9 ∷ [])
        3
        (record { full = 1; carried = 5 ∷ [] })
      ≡ some d')
    × (d'.full ≤ 2)
    × (d'.carried ≡ (5 ∷ []) ++ (0x7e ∷ 0 ∷ 0x7e ∷ []))
uart_write-sent_example =
    uart_write-sent slow 2 slow_line 3 (0x7e ∷ 0 ∷ 0x7e ∷ 9 ∷ []) 3
      (record { full = 1; carried = 5 ∷ [] }) (omega arith) (omega arith) (omega arith)
      (ground arith)

-- A receiver that sets an error flag above every byte.
abbrev flags_of : List ℕ → ℕ
flags_of [] = fr_rxfe
flags_of (b ∷ bs) = 0

abbrev oldest : List ℕ → ℕ
oldest [] = 0
oldest (b ∷ bs) = 0x400 + u8 b

abbrev noisy : Device (List ℕ)
noisy = record {
  read32 = λ d reg. if reg == uart_fr then (flags_of d, d) else (oldest d, drop 1 d);
  write32 = λ d reg c. d;
}

abbrev u8_all : List ℕ → List ℕ
u8_all [] = []
u8_all (b ∷ bs) = u8 b ∷ u8_all bs

u8_all-append : (xs ys : List ℕ) → All IsU8 ys → u8_all (xs ++ ys) ≡ u8_all xs ++ ys
u8_all-append [] [] h = refl
u8_all-append [] (y ∷ ys) (hy, h) =
    ap₂ (λ (b : ℕ) (bs : List ℕ). b ∷ bs) (omega arith) (u8_all-append [] ys h)
u8_all-append (x ∷ xs) ys h = ap (λ t. u8 x ∷ t) (u8_all-append xs ys h)

length-u8_all : (xs : List ℕ) → length (u8_all xs) ≡ length xs
length-u8_all [] = refl
length-u8_all (x ∷ xs) = ap suc (length-u8_all xs)

-- What the FIFO has no room for is lost.
arrive_noisy :
    (bs d : List ℕ)
    → All IsU8 bs
    → length (u8_all d) + length bs ≤ 16
    → u8_all (take 16 (d ++ bs)) ≡ u8_all d ++ bs
arrive_noisy bs d h room =
    let all_of_it : take 16 (d ++ bs) ≡ d ++ bs =
      take_all 16 (d ++ bs) (omega (arith, length-append d bs, length-u8_all d)) in
    ap u8_all all_of_it ∙ u8_all-append d bs h

poll_empty_noisy : (d : List ℕ) → u8_all d ≡ [] → (bit_and (flags_of d) fr_rxfe == 0) ≡ false
poll_empty_noisy [] e = refl
poll_empty_noisy (b ∷ bs) e = cc

poll_some_noisy :
    (d : List ℕ) (b : ℕ) (bs : List ℕ)
    → u8_all d ≡ b ∷ bs
    → (bit_and (flags_of d) fr_rxfe == 0) ≡ true
poll_some_noisy [] b bs e = cc
poll_some_noisy (x ∷ xs) b bs e = refl

take_noisy :
    (d : List ℕ) (b : ℕ) (bs : List ℕ)
    → u8_all d ≡ b ∷ bs
    → (oldest d % 2 ^ 8 ≡ b) × (u8_all (drop 1 d) ≡ bs)
take_noisy [] b bs e = cc
take_noisy (x ∷ xs) b bs e = let first : u8 x ≡ b = cc in (omega (arith, first), cc)

abbrev noisy_line : IsReceiver noisy
noisy_line = record {
  pending = u8_all;
  arrive = λ bs d. take 16 (d ++ bs);
  arrive_pending = arrive_noisy;
  poll_empty = poll_empty_noisy;
  poll_some = poll_some_noisy;
  poll_pending = λ d. refl;
  take_byte = λ d b bs e. (take_noisy d b bs e).0;
  take_pending = λ d b bs e. (take_noisy d b bs e).1;
}

-- One byte is there; a call after two more, one after none, and one after a fourth.
uart_try_getc-received_example :
    let (rs, d1) = try_all noisy noisy_line ((1 ∷ 2 ∷ []) ∷ [] ∷ (3 ∷ []) ∷ []) (0x17e ∷ []) in
    let (more, d2) = try_all noisy noisy_line (replicate (length (u8_all d1)) []) d1 in
    (bytes_of rs ++ u8_all d1 ≡ 0x7e ∷ 1 ∷ 2 ∷ 3 ∷ [])
    × (bytes_of more ≡ u8_all d1)
    × (u8_all d2 ≡ [])
unfolding joined
uart_try_getc-received_example =
    uart_try_getc-received noisy noisy_line ((1 ∷ 2 ∷ []) ∷ [] ∷ (3 ∷ []) ∷ []) (0x17e ∷ [])
      (ground arith) (omega arith, (omega arith, (omega arith, omega arith)))
