-- ===== src/Firmware/Sim/Burst.antt =====
-- Reads of several registers through `sim_write_read`, and the burst that takes a sample.
use sharak.Prelude.{
  get_elem?-take_append, All-append, All-drop, IsU8, All-take, ℕ, ◌+◌, ◌%◌, ◌<◌, ◌≡◌, refl, ap, ap₂,
  sym, ◌∙◌, arith, List, [], ◌∷◌, ◌++◌, some, bind_some, ℤ, load, store, u32, bit_and, ◌==◌, false,
  append_assoc, length, length-append, IsI16, get_elem?-append_self, store-append,
}
use sharak.Firmware.Sim.Sample.{
  counts-IsU8, length-back, length-counts, counts, front, back, length-front,
  sim_refresh_sample_lem,
}
use sharak.Firmware.Bus.{i2c_ok}
use sharak.Protocol.Payload.{le16}
use sharak.Firmware.Sim.{
  Sim, nregs, sim_addr, reg_datax0, reg_power_ctl, power_ctl_measure, wobble, read_loop,
  sim_write_read, write_phase, read_phase, snapshot, write_loop, le16,
}
use sharak.Firmware.Sim.Access.{IsValid, next-below}

-- Reading a stretch of registers that does not reach the last one.
read_loop-stretch :
    (pre vs post done rest : List ℕ) (s : Sim) (p i : ℕ)
    → s.regs ≡ pre ++ (vs ++ post)
    → p ≡ length pre
    → i ≡ length done
    → length vs ≡ length rest
    → p + length vs < nregs
    → read_loop (length vs) i (done ++ rest) (record s { ptr = p })
      ≡ some (done ++ vs, record s { ptr = p + length vs })
unfolding read_loop
read_loop-stretch pre [] post done [] s p i regs at_p at_i same room =
    ap (λ (t : ℕ). some (done ++ [], record s { ptr = t })) (omega arith)
read_loop-stretch pre [] post done (r ∷ rest) s p i regs at_p at_i same room = absurd (omega arith)
read_loop-stretch pre (v ∷ vs) post done [] s p i regs at_p at_i same room = absurd (omega arith)
read_loop-stretch pre (v ∷ vs) post done (r ∷ rest) s p i regs at_p at_i same room =
    let read : load s.regs p ≡ some v =
      ap₂ load regs at_p ∙ get_elem?-append_self pre v (vs ++ post) in
    let wrote : store (done ++ (r ∷ rest)) i v ≡ some ((done ++ (v ∷ [])) ++ rest) =
      ap (λ n. store (done ++ (r ∷ rest)) n v) at_i
      ∙ (store-append done r rest v ∙ ap some (sym (append_assoc done (v ∷ []) rest))) in
    let ih =
      read_loop-stretch (pre ++ (v ∷ [])) vs post (done ++ (v ∷ [])) rest s (p + 1) (i + 1)
        (regs ∙ sym (append_assoc pre (v ∷ []) (vs ++ post)))
        (omega (arith, length-append pre (v ∷ []))) (omega (arith, length-append done (v ∷ [])))
        (omega arith) (omega arith) in
    bind_some _ read (
      bind_some _ wrote (
        rw (next-below p (omega arith)) (
          ih
          ∙ ap₂ (λ (out : List ℕ) (t : ℕ). some (out, record s { ptr = t }))
              (append_assoc done (v ∷ []) vs) (omega arith))))

-- What a burst of the six data registers relies on, and leaves: a well-formed chip that measures.
pub record IsMeasuring (s : Sim) : Type 0 where
  pub valid : IsValid s
  pub control : ℕ
  pub has_control : load s.regs reg_power_ctl ≡ some control
  pub bit_set : (bit_and control power_ctl_measure == 0) ≡ false

-- The chip behind a burst: the new sample in its data registers, the pointer behind them.
abbrev pub sampled : Sim → ℤ → ℤ → Sim
sampled s x y = record {
  regs = front s ++ (counts x y ++ back s);
  ptr = reg_datax0 + 6;
  phase = u32 (s.phase + 1);
}

-- The next burst finds the chip measuring again.
pub sampled-IsMeasuring : (s : Sim) (x y : ℤ) → IsMeasuring s → IsMeasuring (sampled s x y)
sampled-IsMeasuring s x y m =
    let v = m.valid in
    let size : length (front s ++ (counts x y ++ back s)) ≡ nregs = omega (
      arith,
      length-append (front s) (counts x y ++ back s),
      length-append (counts x y) (back s),
      length-front s v,
      length-counts x y,
      length-back s v,
    ) in
    let front_bytes = All-take IsU8 reg_datax0 s.regs v.bytes in
    let back_bytes = All-drop IsU8 0x38 s.regs v.bytes in
    record {
      valid = record {
        size = size;
        bytes =
            All-append IsU8 (front s) (counts x y ++ back s) front_bytes
              (All-append IsU8 (counts x y) (back s) (counts-IsU8 x y) back_bytes);
        pointer = omega arith;
        phase = omega arith;
      };
      control = m.control;
      has_control =
          get_elem?-take_append reg_datax0 reg_power_ctl s.regs (counts x y ++ back s) (omega arith)
            (omega (arith, v.size))
          ∙ m.has_control;
      bit_set = m.bit_set;
    }

read-sampled :
    (s : Sim) (x y : ℤ) (out : List ℕ)
    → IsValid s
    → length out ≡ 6
    → read_loop 6 0 out (record (sampled s x y) { ptr = reg_datax0 })
      ≡ some (counts x y, sampled s x y)
unfolding counts le16
read-sampled s x y out v six =
    read_loop-stretch (front s) (counts x y) (back s) [] out (sampled s x y) reg_datax0 0 refl
      (sym (length-front s v)) refl (sym six) (omega arith)

-- A burst of the six data registers of a measuring chip takes a sample first and returns all of
-- it: the wobble at the phase, the wobble four steps on, and 256 counts. The phase goes on by one.
pub burst_read :
    (s : Sim) (out : List ℕ)
    → IsMeasuring s
    → length out ≡ 6
    → (x : ℤ) × (y : ℤ) × (load wobble (s.phase % 16) ≡ some x)
      × (load wobble (u32 (s.phase + 4) % 16) ≡ some y)
      × IsI16 x
      × IsI16 y
      × (sim_write_read (some s) sim_addr (some (reg_datax0 ∷ [])) 1 (some out) 6
          ≡ some (i2c_ok, some (counts x y), some (sampled s x y)))
unfolding sim_write_read write_phase read_phase snapshot write_loop
burst_read s out m six =
    let start : Sim = record s { ptr = reg_datax0 } in
    let v = m.valid in
    let valid : IsValid start = record {
      size = v.size;
      bytes = v.bytes;
      pointer = omega arith;
      phase = v.phase;
    } in
    let (x, y, at_x, at_y, small_x, small_y, refreshed) = sim_refresh_sample_lem start valid in
    let taken : snapshot 6 start ≡ some (record (sampled s x y) { ptr = reg_datax0 }) =
      bind_some _ m.has_control (rw m.bit_set refreshed) in
    let read : read_phase (some out) 6 start ≡ some (some (counts x y), sampled s x y) =
      bind_some _ taken (bind_some _ (read-sampled s x y out v six) refl) in
    (x, y, at_x, at_y, small_x, small_y, bind_some _ read refl)
