-- ===== src/Firmware/Adxl345/OnSim.antt =====
-- The driver on the simulated chip.
use mathlib.Core.Path.{subst}
use sharak.Prelude.{
  inr, inl, ap, sym, ◌∙◌, [], ◌∷◌, ℕ, ◌+◌, ◌%◌, ◌≡◌, refl, arith, List, some, bind_some, ℤ, pos,
  load, u32, length, IsI16, Ptr, load-set_self,
}
use sharak.Firmware.Sim.{sim_addr, Sim, wobble, sim_write, sim_write_read}
use sharak.Firmware.Adxl345.Chip.{adxl345_on_chip, Chip}
use sharak.Firmware.Bus.{Bus}
use sharak.Firmware.Sim.Access.{IsValid}
use sharak.Firmware.Sim.Sample.{counts}
use sharak.Firmware.Sim.Burst.{IsMeasuring, sampled, burst_read}
use sharak.Firmware.Sim.Single.{put, put-IsValid, sim_write-put, sim_read-one}
use sharak.Firmware.Adxl345.{
  data_format_config, rate_100hz, reg_data_format, reg_bw_rate, reg_power_ctl, power_ctl_measure,
  reg_devid, devid_value, Accel, to_mg, adxl345_init, adxl345_read, adxl345_ok, adxl345_decode,
}
use sharak.Firmware.Adxl345.Decode.{adxl345_decode-counts}

-- The bus that `i2c_sim_bind` makes.
abbrev pub sim_bus : Bus (Ptr Sim)
sim_bus = record { write = some sim_write; write_read = some sim_write_read }

decode-sampled :
    (x y : ℤ)
    → IsI16 x
    → IsI16 y
    → adxl345_decode (counts x y)
      ≡ some (record { x_mg = to_mg x; y_mg = to_mg y; z_mg = pos 1000 })
unfolding counts to_mg
decode-sampled x y hx hy = adxl345_decode-counts x y (pos 256) hx hy (omega arith)

-- On a simulated chip that measures, `adxl345_read` succeeds, whatever its local buffer held and
-- whatever the caller's struct held: the reading is the wobble at the phase, the wobble four steps
-- on, both in milli-g, and 1000 mg, and the phase goes on by one.
pub adxl345_read_on_sim :
    (s : Sim) (raw : List ℕ) (out : Accel)
    → IsMeasuring s
    → length raw ≡ 6
    → (x : ℤ) × (y : ℤ) × (load wobble (s.phase % 16) ≡ some x)
      × (load wobble (u32 (s.phase + 4) % 16) ≡ some y)
      × (adxl345_read (some sim_bus) raw (some out) (some s)
          ≡ some (
            adxl345_ok,
            some (record { x_mg = to_mg x; y_mg = to_mg y; z_mg = pos 1000 }),
            some (sampled s x y),
          ))
unfolding adxl345_read
adxl345_read_on_sim s raw out m six =
    let (x, y, at_x, at_y, small_x, small_y, burst) = burst_read s raw m six in
    (x, y, at_x, at_y, bind_some _ burst (bind_some _ (decode-sampled x y small_x small_y) refl))

-- The registers that `adxl345_init` leaves.
abbrev pub configured : Sim → Sim
configured s =
    put reg_power_ctl power_ctl_measure
      (put reg_bw_rate rate_100hz (put reg_data_format data_format_config s))

pub some-injective : {s t : Sim} → some s ≡ some t → s ≡ t
some-injective e = cc

abbrev pub after_read : Sim → Sim
after_read s = record s { ptr = 1 }

pub after_read-IsValid : (s : Sim) → IsValid s → IsValid (after_read s)
after_read-IsValid s v = record {
  size = v.size;
  bytes = v.bytes;
  pointer = omega arith;
  phase = v.phase;
}

-- The simulated chip is one that answers.
abbrev pub sim_chip : Chip sim_write sim_write_read
sim_chip = record {
  IsReady = λ p. (s : Sim) × (p ≡ some s) × IsValid s;
  Identifies = λ id p. (s : Sim) × (p ≡ some s) × (load s.regs reg_devid ≡ some id);
  Reads = λ p p'. (s : Sim) × (p ≡ some s) × (p' ≡ some (after_read s));
  Sets = λ reg val p p'. (s : Sim) × (p ≡ some s) × (p' ≡ some (put reg val s));
  read_id = λ p id old (s, at_s, v) (t, at_t, holds).
      let same : t ≡ s = some-injective (sym at_t ∙ at_s) in
      let holds' : load s.regs reg_devid ≡ some id =
        subst (λ u. load u.regs reg_devid ≡ some id) same holds in
      (
        some (after_read s),
        ap (λ q. sim_write_read q sim_addr (some (reg_devid ∷ [])) 1 (some (old ∷ [])) 1) at_s
            ∙ sim_read-one s reg_devid id old holds' (omega arith),
        (s, at_s, refl),
        (after_read s, refl, after_read-IsValid s v),
      );
  set_register = λ p reg val (s, at_s, v) small byte. (
    some (put reg val s),
    ap (λ q. sim_write q sim_addr (some (reg ∷ val ∷ [])) 2) at_s
        ∙ sim_write-put s reg val v (omega arith),
    (s, at_s, refl),
    (put reg val s, refl, put-IsValid s reg val v (omega arith) byte),
  );
}

-- What its transfers leave of a chip that is known.
read_from : (s : Sim) (p p' : Ptr Sim) → p ≡ some s → sim_chip.Reads p p' → p' ≡ some (after_read s)
read_from s p p' at_s (t, at_t, e) =
    e ∙ ap (λ u. some (after_read u)) (some-injective (sym at_t ∙ at_s))

set_on :
    (s : Sim) (reg val : ℕ) (p p' : Ptr Sim)
    → p ≡ some s
    → sim_chip.Sets reg val p p'
    → p' ≡ some (put reg val s)
set_on s reg val p p' at_s (t, at_t, e) =
    e ∙ ap (λ u. some (put reg val u)) (some-injective (sym at_t ∙ at_s))

configured-IsMeasuring : (s : Sim) → IsValid s → IsMeasuring (configured s)
configured-IsMeasuring s v =
    let s1 = after_read s in
    let v1 = after_read-IsValid s v in
    let s2 = put reg_data_format data_format_config s1 in
    let v2 = put-IsValid s1 reg_data_format data_format_config v1 (omega arith) (omega arith) in
    let s3 = put reg_bw_rate rate_100hz s2 in
    let v3 = put-IsValid s2 reg_bw_rate rate_100hz v2 (omega arith) (omega arith) in
    record {
      valid = put-IsValid s3 reg_power_ctl power_ctl_measure v3 (omega arith) (omega arith);
      control = power_ctl_measure;
      has_control = load-set_self s3.regs reg_power_ctl power_ctl_measure (omega (arith, v3.size));
      bit_set = refl;
    }

-- On a well-formed simulated chip whose identification register holds 0xE5, `adxl345_init`
-- succeeds: it leaves 0x0B in DATA_FORMAT, 0x0A in BW_RATE and 0x08 in POWER_CTL, in this order,
-- and the chip measures.
pub adxl345_init_on_sim :
    (s : Sim)
    → IsValid s
    → load s.regs reg_devid ≡ some devid_value
    → (adxl345_init (some sim_bus) (some s) ≡ some (adxl345_ok, some (configured s)))
      × IsMeasuring (configured s)
adxl345_init_on_sim s v id =
    let (p1, reads, outcome) =
      adxl345_on_chip sim_write sim_write_read sim_chip (some s) devid_value (s, refl, v)
        (s, refl, id) in
    elim outcome [
      | inl (_, _, (p4, run, (p2, p3, first, second, third), _)) ↦
          let at1 = read_from s (some s) p1 refl reads in
          let at2 = set_on (after_read s) reg_data_format data_format_config p1 p2 at1 first in
          let at3 = set_on _ reg_bw_rate rate_100hz p2 p3 at2 second in
          let at4 = set_on _ reg_power_ctl power_ctl_measure p3 p4 at3 third in
          (run ∙ ap (λ p. some (adxl345_ok, p)) at4, configured-IsMeasuring s v)
      | inr (other, _, _) ↦ absurd (other refl)
    ]
