-- ===== src/Firmware/Stellaris/Master.antt =====
-- The master of the hardware bus as the backend sees it: busy for a while, then with a status word.
use sharak.Prelude.{
  ap₂, ℕ, zero, suc, ◌-◌, ◌≤◌, ◌<◌, ◌≡◌, refl, ap, ◌∙◌, arith, List, [], ◌∷◌, ◌++◌, append_assoc,
  some, ℤ, bind_some, ◌==◌, ==_iff, Bool-cases, inl, inr, true, false, bit_and,
}
use sharak.Firmware.Bus.{is_ok}
use sharak.Firmware.Device.{Device}
use sharak.Firmware.Stellaris.{
  i2c_mcs, i2c_mdr, mcs_busy, mcs_stop, mcs_to_status, poll, i2c_wait, send_byte,
}

-- `log` are the writes to the registers, in order; the master is busy for some number of polls, at
-- most `bound` after a write, and each poll leaves one less; when it is not, its status word says
-- what `answer` makes of the writes so far.
pub record IsAnswering {D : Type 0} (dev : Device D) (bound : ℕ) (answer : List (ℕ × ℕ) → ℤ)
    : Type 0 where
  pub log : D → List (ℕ × ℕ)
  pub busy : D → ℕ
  pub poll_ready : (d : D) → busy d ≡ 0 → (bit_and (dev.read32 d i2c_mcs).0 mcs_busy == 0) ≡ true
  pub poll_again : (d : D) → 0 < busy d → (bit_and (dev.read32 d i2c_mcs).0 mcs_busy == 0) ≡ false
  pub poll_busy : (d : D) → busy (dev.read32 d i2c_mcs).1 ≡ busy d - 1
  pub poll_log : (d : D) → log (dev.read32 d i2c_mcs).1 ≡ log d
  pub answers : (d : D) → busy d ≡ 0 → mcs_to_status (dev.read32 d i2c_mcs).0 ≡ answer (log d)
  pub write_log : (d : D) (reg v : ℕ) → log (dev.write32 d reg v) ≡ log d ++ ((reg, v) ∷ [])
  pub write_busy : (d : D) (reg v : ℕ) → busy (dev.write32 d reg v) ≤ bound

module _ {D : Type 0} (dev : Device D) (bound : ℕ) (answer : List (ℕ × ℕ) → ℤ)
    (slave : IsAnswering dev bound answer) where
  -- The polls end; what no poll changes is as it was.
  poll-idle :
      {X : Type 0} (view : D → X)
      → ((d : D) → view (dev.read32 d i2c_mcs).1 ≡ view d)
      → (fuel left : ℕ) (d : D) → slave.busy d < left
      → (d' : D) × (poll dev fuel left d ≡ some d') × (slave.busy d' ≡ 0) × (view d' ≡ view d)
  unfolding poll
  poll-idle view keeps fuel zero d h = absurd (omega arith)
  poll-idle view keeps fuel (suc left) d h = elim (Bool-cases (slave.busy d == 0)) [
    | inl e ↦
        let idle : slave.busy d ≡ 0 = (==_iff (slave.busy d) 0).0 e in
        (
          (dev.read32 d i2c_mcs).1,
          rw (slave.poll_ready d idle),
          omega (arith, slave.poll_busy d, idle),
          keeps d,
        )
    | inr n ↦
        let some_left : 0 < slave.busy d = ground arith in
        let (d', run, idle, same) =
          poll-idle view keeps fuel left (dev.read32 d i2c_mcs).1
            (omega (arith, slave.poll_busy d)) in
        (d', rw (slave.poll_again d some_left) run, idle, same ∙ keeps d)
  ]

  -- After a write to a register, `i2c_wait` returns the answer to the writes so far.
  pub i2c_wait-answered :
      {X : Type 0} (view : D → X)
      → ((d : D) → view (dev.read32 d i2c_mcs).1 ≡ view d)
      → (fuel : ℕ) (d : D) → slave.busy d ≤ bound
      → bound < fuel
      → (d' : D) × (i2c_wait dev fuel d ≡ some (answer (slave.log d), d'))
        × (slave.log d' ≡ slave.log d)
        × (view d' ≡ view d)
  unfolding i2c_wait
  i2c_wait-answered {X = X} view keeps fuel d h enough =
      let both : D → List (ℕ × ℕ) × X = λ d. (slave.log d, view d) in
      let (d2, polled, idle, same) =
        poll-idle both (λ d. ap₂ (λ x y. (x, y)) (slave.poll_log d) (keeps d)) fuel fuel d
          (omega arith) in
      let same_log : slave.log d2 ≡ slave.log d = ap (λ p. p.0) same in
      let same_view : view d2 ≡ view d = ap (λ p. p.1) same in
      (
        (dev.read32 d2 i2c_mcs).1,
        bind_some _ polled (rw (slave.answers d2 idle, same_log) refl),
        slave.poll_log d2 ∙ same_log,
        keeps d2 ∙ same_view,
      )

  -- The log behind the data and the command of a byte.
  abbrev pub with_byte : List (ℕ × ℕ) → ℕ → ℕ → List (ℕ × ℕ)
  with_byte log b cmd = log ++ ((i2c_mdr, b) ∷ (i2c_mcs, cmd) ∷ [])

  pub written_byte :
      (b cmd : ℕ) (d : D)
      → slave.log (dev.write32 (dev.write32 d i2c_mdr b) i2c_mcs cmd)
        ≡ with_byte (slave.log d) b cmd
  written_byte b cmd d =
      slave.write_log (dev.write32 d i2c_mdr b) i2c_mcs cmd
      ∙ (ap (λ t. t ++ ((i2c_mcs, cmd) ∷ [])) (slave.write_log d i2c_mdr b)
          ∙ append_assoc (slave.log d) ((i2c_mdr, b) ∷ []) ((i2c_mcs, cmd) ∷ []))

  -- A byte that is accepted.
  pub send_byte-accepted :
      {X : Type 0} (view : D → X)
      → ((d : D) → view (dev.read32 d i2c_mcs).1 ≡ view d)
      → ((d : D) (reg v : ℕ) → view (dev.write32 d reg v) ≡ view d)
      → (fuel b cmd : ℕ) (d : D) → bound < fuel
      → is_ok (answer (with_byte (slave.log d) b cmd)) ≡ true
      → (d' : D) × (send_byte dev fuel b cmd d ≡ some (answer (with_byte (slave.log d) b cmd), d'))
        × (slave.log d' ≡ with_byte (slave.log d) b cmd)
        × (view d' ≡ view d)
  unfolding send_byte
  send_byte-accepted view keeps stays fuel b cmd d h accepted =
      let d1 = dev.write32 (dev.write32 d i2c_mdr b) i2c_mcs cmd in
      let (d2, waited, same, viewed) =
        i2c_wait-answered view keeps fuel d1
          (slave.write_busy (dev.write32 d i2c_mdr b) i2c_mcs cmd) h in
      (
        d2,
        bind_some _ waited (rw (written_byte b cmd d, accepted) refl),
        same ∙ written_byte b cmd d,
        viewed ∙ (stays (dev.write32 d i2c_mdr b) i2c_mcs cmd ∙ stays d i2c_mdr b),
      )

  -- A byte that is refused: the bus is released.
  pub send_byte-refused :
      (fuel b cmd : ℕ) (d : D)
      → bound < fuel
      → is_ok (answer (with_byte (slave.log d) b cmd)) ≡ false
      → (d' : D) × (send_byte dev fuel b cmd d ≡ some (answer (with_byte (slave.log d) b cmd), d'))
        × (slave.log d' ≡ with_byte (slave.log d) b cmd ++ ((i2c_mcs, mcs_stop) ∷ []))
  unfolding send_byte
  send_byte-refused fuel b cmd d h refused =
      let d1 = dev.write32 (dev.write32 d i2c_mdr b) i2c_mcs cmd in
      let (d2, waited, same, viewed) =
        i2c_wait-answered (λ d. tt) (λ d. refl) fuel d1
          (slave.write_busy (dev.write32 d i2c_mdr b) i2c_mcs cmd) h in
      (
        dev.write32 d2 i2c_mcs mcs_stop,
        bind_some _ waited (rw (written_byte b cmd d, refused) refl),
        slave.write_log d2 i2c_mcs mcs_stop
            ∙ ap (λ t. t ++ ((i2c_mcs, mcs_stop) ∷ [])) (same ∙ written_byte b cmd d),
      )
