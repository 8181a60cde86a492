-- ===== src/Firmware/Stellaris/Tests.antt =====
-- Masters that are busy for one poll after each write to their registers.
use sharak.Prelude.{
  ℕ, ◌-◌, ◌<◌, ◌≡◌, refl, arith, List, [], ◌∷◌, ◌++◌, some, ◌==◌, if◌then◌else◌, bit_and, take,
  false, ℤ, leb, length, suc, zero, Bool, true, none, ◌%◌, map,
}
use sharak.Firmware.Stellaris.{
  i2c_mdr, stellaris_write_read, i2c_mcs, mcs_busy, i2c_stellaris_init, i2c_msa, mcs_stop,
  mcs_to_status, stellaris_write,
}
use sharak.Firmware.Stellaris.Combined.{pointer_writes, read_writes, IsSending}
use sharak.Firmware.Bus.{is_ok, i2c_err_nack, i2c_ok}
use sharak.Firmware.Stellaris.Refused.{stellaris_write_read-refused}
use sharak.Firmware.Stellaris.Source.{
  word_of, rest_of, word_lem, rest_lem, some_polls, idle_status, Source, source, source_slave,
  source_sending,
}
use sharak.Firmware.Stellaris.Master.{IsAnswering}
use sharak.Firmware.Stellaris.Errors.{stellaris_write-refused}
use sharak.Firmware.Stellaris.Phases.{stellaris_write_read-transfer}
use sharak.Firmware.Device.{Device}
use sharak.Firmware.Stellaris.Wire.{IsAcknowledged, byte_writes}

record Master : Type 0 where
  polls : ℕ
  writes : List (ℕ × ℕ)

-- Bit 5 of the status word says that the bus is idle.
abbrev master : Device Master
master = record {
  read32 = λ d reg. (if d.polls == 0 then 0x20 else 1, record d { polls = d.polls - 1 });
  write32 = λ d reg v. record { polls = 1; writes = d.writes ++ ((reg, v) ∷ []) };
}

abbrev slave : IsAcknowledged master 1
slave = record {
  log = λ d. d.writes;
  busy = λ d. d.polls;
  poll_ready = λ d e. rw e;
  poll_again = λ d h. rw (some_polls d.polls h);
  poll_busy = λ d. refl;
  poll_log = λ d. refl;
  no_error = λ d e. idle_status d.polls e;
  write_log = λ d reg v. refl;
  write_busy = λ d reg v. omega arith;
}

-- The configuration writes the registers in the source's order; every register reads as zero.
abbrev recorder : Device (List (ℕ × ℕ))
recorder = record { read32 = λ d reg. (0, d); write32 = λ d reg v. d ++ ((reg, v) ∷ []) }

configured :
    (i2c_stellaris_init recorder 1 (some (record { write = none; write_read = none })) []).1
    ≡ (0x400fe104, 0x1000)
      ∷ (0x400fe108, 2)
      ∷ (0x40005420, 12)
      ∷ (0x4000550c, 8)
      ∷ (0x4000551c, 12)
      ∷ (0x40020020, 0x10)
      ∷ (0x4002000c, 5)
      ∷ []
unfolding i2c_stellaris_init
configured = refl

-- A master whose slave refuses the second byte of a write: behind five register writes the status
-- word has DATACK.
abbrev refusing : List (ℕ × ℕ) → ℤ
refusing log = if leb 5 (length log) then i2c_err_nack else i2c_ok

abbrev refuser : Device Master
refuser = record {
  read32 = λ d reg. (
    if d.polls == 0 then (if leb 5 (length d.writes) then 0x0a else 0x20) else 1,
    record d { polls = d.polls - 1 },
  );
  write32 = λ d reg v. record { polls = 1; writes = d.writes ++ ((reg, v) ∷ []) };
}

refused_status :
    (n : ℕ) (b : Bool)
    → n ≡ 0
    → mcs_to_status (if n == 0 then (if b then 0x0a else 0x20) else 1)
      ≡ (if b then i2c_err_nack else i2c_ok)
unfolding mcs_to_status
refused_status n true e = rw e
refused_status n false e = rw e

ready_status :
    (n : ℕ) (b : Bool)
    → n ≡ 0
    → (bit_and (if n == 0 then (if b then 0x0a else 0x20) else 1) mcs_busy == 0) ≡ true
ready_status n true e = rw e
ready_status n false e = rw e

abbrev refuser_slave : IsAnswering refuser 1 refusing
refuser_slave = record {
  log = λ d. d.writes;
  busy = λ d. d.polls;
  poll_ready = λ d e. ready_status d.polls (leb 5 (length d.writes)) e;
  poll_again = λ d h. rw (some_polls d.polls h);
  poll_busy = λ d. refl;
  poll_log = λ d. refl;
  answers = λ d e. refused_status d.polls (leb 5 (length d.writes)) e;
  write_log = λ d reg v. refl;
  write_busy = λ d reg v. omega arith;
}

only_first :
    (k : ℕ)
    → k < 1
    → is_ok
        (refusing ([] ++ ((i2c_msa, 0xa6) ∷ byte_writes 3 0 (take (suc k) (0x2d ∷ 8 ∷ 9 ∷ [])))))
      ≡ true
only_first zero h = refl
only_first (suc k) h = absurd (omega arith)

stellaris_write-refused_example :
    (d' : Master) × (stellaris_write refuser 2
        (record { polls = 0; writes = [] })
        0x53
        (some (0x2d ∷ 8 ∷ 9 ∷ []))
        3
      ≡ some (i2c_err_nack, d'))
    × (d'.writes
        ≡ ((i2c_msa, 0xa6) ∷ byte_writes 3 0 (0x2d ∷ 8 ∷ [])) ++ ((i2c_mcs, mcs_stop) ∷ []))
stellaris_write-refused_example =
    stellaris_write-refused refuser 1 refusing refuser_slave 2 (0x2d ∷ 8 ∷ 9 ∷ []) 3 1 0x53
      (record { polls = 0; writes = [] }) (omega arith) (omega arith) (omega arith) only_first refl

-- Two bytes are read, with commands 11 and 5.
stellaris_write_read-transfer_example :
    (d' : Source) × (stellaris_write_read source 2
        (record { polls = 0; writes = []; bytes = 7 ∷ 8 ∷ 9 ∷ [] })
        0x53
        (some (0x32 ∷ []))
        1
        (some (1 ∷ 2 ∷ 3 ∷ []))
        2
      ≡ some (i2c_ok, some (7 ∷ 8 ∷ 3 ∷ []), d'))
    × (d'.writes
        ≡ (i2c_msa, 0xa6)
          ∷ (i2c_mdr, 0x32)
          ∷ (i2c_mcs, 3)
          ∷ (i2c_msa, 0xa7)
          ∷ (i2c_mcs, 11)
          ∷ (i2c_mcs, 5)
          ∷ [])
    × (map (λ b. b % 256) d'.bytes ≡ 9 ∷ [])
stellaris_write_read-transfer_example =
    stellaris_write_read-transfer source 1 source_slave source_sending 2 0x53 1 (0x32 ∷ [])
      (1 ∷ 2 ∷ 3 ∷ []) (7 ∷ 8 ∷ []) (9 ∷ [])
      (record { polls = 0; writes = []; bytes = 7 ∷ 8 ∷ 9 ∷ [] }) (omega arith) (omega arith)
      (omega arith) (omega arith) refl (omega arith)

-- A chip whose second byte is refused: behind six register writes the status word has an error.
abbrev refusing_sixth : List (ℕ × ℕ) → ℤ
refusing_sixth log = if leb 6 (length log) then i2c_err_nack else i2c_ok

abbrev hesitant : Device Source
hesitant = record {
  read32 = λ d reg.
      if reg == i2c_mcs
      then (
        if d.polls == 0 then (if leb 6 (length d.writes) then 0x0a else 0x20) else 1,
        record d { polls = d.polls - 1 },
      )
      else (word_of d.bytes, record d { bytes = rest_of d.bytes });
  write32 = λ d reg v. record d { polls = 1; writes = d.writes ++ ((reg, v) ∷ []) };
}

abbrev hesitant_slave : IsAnswering hesitant 1 refusing_sixth
hesitant_slave = record {
  log = λ d. d.writes;
  busy = λ d. d.polls;
  poll_ready = λ d e. ready_status d.polls (leb 6 (length d.writes)) e;
  poll_again = λ d h. rw (some_polls d.polls h);
  poll_busy = λ d. refl;
  poll_log = λ d. refl;
  answers = λ d e. refused_status d.polls (leb 6 (length d.writes)) e;
  write_log = λ d reg v. refl;
  write_busy = λ d reg v. omega arith;
}

abbrev hesitant_sending : IsSending hesitant 1 refusing_sixth hesitant_slave
hesitant_sending = record {
  supply = λ d. map (λ b. b % 256) d.bytes;
  poll_supply = λ d. refl;
  write_supply = λ d reg v. refl;
  read_byte = λ d b bs e. word_lem d.bytes b bs e;
  read_supply = λ d b bs e. rest_lem d.bytes b bs e;
  read_log = λ d. refl;
}

abbrev wrote_pointer : ℕ → List (ℕ × ℕ)
wrote_pointer k = (i2c_msa, 0xa6) ∷ pointer_writes 0 (take k (0x32 ∷ []))

pointer_accepted : (k : ℕ) → k < 1 → is_ok (refusing_sixth (wrote_pointer (suc k))) ≡ true
pointer_accepted zero h = refl
pointer_accepted (suc k) h = absurd (omega arith)

first_accepted :
    (k : ℕ)
    → k < 1
    → is_ok (refusing_sixth (wrote_pointer 1 ++ ((i2c_msa, 0xa7) ∷ read_writes 3 0 (suc k)))) ≡ true
first_accepted zero h = refl
first_accepted (suc k) h = absurd (omega arith)

stellaris_write_read-refused_example :
    (d' : Source) × (stellaris_write_read hesitant 2
        (record { polls = 0; writes = []; bytes = 7 ∷ 8 ∷ [] })
        0x53
        (some (0x32 ∷ []))
        1
        (some (1 ∷ 2 ∷ 3 ∷ []))
        3
      ≡ some (i2c_err_nack, some (7 ∷ 2 ∷ 3 ∷ []), d'))
    × (d'.writes
        ≡ (wrote_pointer 1 ++ ((i2c_msa, 0xa7) ∷ read_writes 3 0 2)) ++ ((i2c_mcs, mcs_stop) ∷ []))
stellaris_write_read-refused_example =
    stellaris_write_read-refused hesitant 1 refusing_sixth hesitant_slave 2 (omega arith)
      hesitant_sending 0x53 1 3 (0x32 ∷ []) (1 ∷ 2 ∷ 3 ∷ []) (7 ∷ []) (8 ∷ [])
      (record { polls = 0; writes = []; bytes = 7 ∷ 8 ∷ [] }) (omega arith) (omega arith)
      (omega arith) (omega arith) refl pointer_accepted first_accepted refl
