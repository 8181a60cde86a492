-- ===== src/Firmware/Adxl345/Selftest.antt =====
-- The self test, and what the driver does without a usable bus.
use sharak.Prelude.{
  ℕ, ◌≡◌, ◌⊎◌, inl, inr, refl, List, ℤ, Ptr, Run, none, some, ◌>>=◌, false, Bool-cases,
  if◌then◌else◌, ◌==◌,
}
use sharak.Firmware.Bus.{Bus, is_ok}
use sharak.Firmware.Adxl345.{
  Accel, reg_devid, devid_value, adxl345_ok, e_param, e_wrong_devid, is_set, bus_ok, reg_read,
  configure, adxl345_init, adxl345_read, adxl345_selftest,
}

module _ {S : Type 0} where
  -- The bus is NULL, or one of its methods is.
  abbrev pub IsUnusable : Ptr (Bus S) → Type 0
  IsUnusable none = Unit
  IsUnusable (some bus) = (bus.write ≡ none) ⊎ (bus.write_read ≡ none)

  bus_ok-IsUnusable : (bus : Ptr (Bus S)) → IsUnusable bus → bus_ok bus ≡ false
  unfolding bus_ok is_set
  bus_ok-IsUnusable none h = refl
  bus_ok-IsUnusable (some bus) (inl e) = rw e
  bus_ok-IsUnusable (some bus) (inr e) = elim (Bool-cases (is_set bus.write)) [
    | inl there ↦ rw (there, e)
    | inr null ↦ rw null
  ]

  -- With a NULL bus, or one that lacks a method, every operation of the driver returns
  -- ADXL345_E_PARAM, makes no call, and leaves the caller's sample as it was; so does `adxl345_read`
  -- with a NULL sample, whatever the bus is.
  pub adxl345_refuses :
      (bus any : Ptr (Bus S)) (raw : List ℕ) (out : Ptr Accel) (s : S)
      → IsUnusable bus
      → (adxl345_init bus s ≡ some (e_param, s))
        × (adxl345_read bus raw out s ≡ some (e_param, out, s))
        × (adxl345_selftest bus s ≡ some (e_param, s))
        × (adxl345_read any raw none s ≡ some (e_param, none, s))
  unfolding adxl345_init adxl345_read adxl345_selftest
  adxl345_refuses bus any raw none s h =
      let no_bus = bus_ok-IsUnusable bus h in (rw no_bus, refl, rw no_bus, refl)
  adxl345_refuses bus any raw (some out) s h =
      let no_bus = bus_ok-IsUnusable bus h in (rw no_bus, rw no_bus, rw no_bus, refl)

  identify :
      (m : Run (ℤ × ℕ × S)) (rest : S → Run (ℤ × S))
      → (do
        (rc, devid, s1) ← m
        if is_ok rc
            then (if devid == devid_value then rest s1 else some (e_wrong_devid, s1))
            else some (rc, s1))
        ≡ (do
          (r, s1) ← (do
            (rc, devid, s1) ← m
            if is_ok rc
                then some ((if devid == devid_value then adxl345_ok else e_wrong_devid), s1)
                else some (rc, s1))
          if is_ok r then rest s1 else some (r, s1))
  identify none rest = refl
  identify (some (rc, devid, s1)) rest = elim (Bool-cases (is_ok rc)) [
    | inl works ↦ rw works (elim (Bool-cases (devid == devid_value)) [
      | inl same ↦ rw same refl
      | inr other ↦ rw other refl
    ])
    | inr fails ↦ rw (fails, fails) refl
  ]

  -- `adxl345_init` is the self test followed by the configuration: over every bus, NULL and faulting
  -- ones included, it configures the chip in the state that the self test leaves if that returns
  -- ADXL345_OK, and returns the self test's answer, with no further call, if it does not.
  pub adxl345_init-adxl345_selftest :
      (bus : Ptr (Bus S)) (s : S)
      → adxl345_init bus s
        ≡ (do (r, s1) ← adxl345_selftest bus s; if is_ok r then configure bus s1 else some (r, s1))
  unfolding adxl345_init adxl345_selftest
  adxl345_init-adxl345_selftest bus s = elim (Bool-cases (bus_ok bus)) [
    | inl usable ↦ rw usable (identify (reg_read bus reg_devid 0 s) (configure bus))
    | inr no_bus ↦ rw no_bus refl
  ]
