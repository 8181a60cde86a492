-- ===== src/Firmware/Stellaris/Source.antt =====
-- A chip for the tests: it acknowledges everything and has bytes to send.
use sharak.Prelude.{
  ℕ, ◌+◌, ◌-◌, ◌%◌, ◌^◌, ◌<◌, ◌≡◌, refl, ap, arith, List, [], ◌∷◌, ◌++◌, ◌==◌, if◌then◌else◌, map,
  false,
}
use sharak.Firmware.Bus.{i2c_ok}
use sharak.Firmware.Device.{Device}
use sharak.Firmware.Stellaris.{i2c_mcs, mcs_to_status}
use sharak.Firmware.Stellaris.Wire.{IsAcknowledged, acknowledging}
use sharak.Firmware.Stellaris.Combined.{IsSending}

pub some_polls : (n : ℕ) → 0 < n → (n == 0) ≡ false
some_polls n h = ground arith

pub idle_status : (n : ℕ) → n ≡ 0 → mcs_to_status (if n == 0 then 0x20 else 1) ≡ i2c_ok
unfolding mcs_to_status
idle_status n e = rw e

-- A chip that has bytes to send, in words whose upper bits are set.
pub record Source : Type 0 where
  pub polls : ℕ
  pub writes : List (ℕ × ℕ)
  pub bytes : List ℕ

abbrev pub word_of : List ℕ → ℕ
word_of [] = 0
word_of (b ∷ bs) = 256 + b % 256

abbrev pub rest_of : List ℕ → List ℕ
rest_of [] = []
rest_of (b ∷ bs) = bs

abbrev pub source : Device Source
source = record {
  read32 = λ d reg.
      if reg == i2c_mcs
      then (if d.polls == 0 then 0x20 else 1, record d { polls = d.polls - 1 })
      else (word_of d.bytes, record d { bytes = rest_of d.bytes });
  write32 = λ d reg v. record d { polls = 1; writes = d.writes ++ ((reg, v) ∷ []) };
}

abbrev pub source_slave : IsAcknowledged source 1
source_slave = record {
  log = λ d. d.writes;
  busy = λ d. d.polls;
  poll_ready = λ d e. rw e;
  poll_again = λ d h. rw (some_polls d.polls h);
  poll_busy = λ d. refl;
  poll_log = λ d. refl;
  no_error = λ d e. idle_status d.polls e;
  write_log = λ d reg v. refl;
  write_busy = λ d reg v. omega arith;
}

head_or : List ℕ → ℕ
head_or [] = 0
head_or (b ∷ bs) = b

pub word_lem :
    (xs : List ℕ) (b : ℕ) (bs : List ℕ) → map (λ b. b % 256) xs ≡ b ∷ bs → word_of xs % 2 ^ 8 ≡ b
unfolding head_or
word_lem [] b bs e = cc
word_lem (x ∷ xs) b bs e = let same : x % 256 ≡ b = ap head_or e in omega arith

pub rest_lem :
    (xs : List ℕ) (b : ℕ) (bs : List ℕ)
    → map (λ b. b % 256) xs ≡ b ∷ bs
    → map (λ b. b % 256) (rest_of xs) ≡ bs
rest_lem [] b bs e = cc
rest_lem (x ∷ xs) b bs e = ap rest_of e

abbrev pub source_sending : IsSending source 1 (λ log. i2c_ok) (acknowledging source_slave)
source_sending = record {
  supply = λ d. map (λ b. b % 256) d.bytes;
  poll_supply = λ d. refl;
  write_supply = λ d reg v. refl;
  read_byte = λ d b bs e. word_lem d.bytes b bs e;
  read_supply = λ d b bs e. rest_lem d.bytes b bs e;
  read_log = λ d. refl;
}
