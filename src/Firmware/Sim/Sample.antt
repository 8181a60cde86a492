-- ===== src/Firmware/Sim/Sample.antt =====
-- `sim_refresh_sample` on a well-formed register file.
use sharak.Prelude.{
  ℕ, ◌+◌, ◌%◌, ◌≤◌, ◌≡◌, refl, ap, sym, ◌∙◌, arith, List, ◌++◌, some, bind_some, ℤ, pos, load,
  store_all, store_all-append, u32, i_to_u16, length, take, drop, All, All-append, IsU8, IsI16,
  load_in, length-drop, length-take, take-append-drop, drop-drop, ap₂,
}
use sharak.Prelude.Bits.{bit_and_mask}
use sharak.Protocol.Payload.{le16}
use sharak.Protocol.Payload.Bytes.{le16-IsU8}
use sharak.Firmware.Sim.{Sim, reg_datax0, wobble, sim_refresh_sample}
use sharak.Firmware.Sim.Access.{IsValid}

-- The bytes of a sample of the three axes.
unfoldable pub counts : ℤ → ℤ → List ℕ
counts x y = le16 (i_to_u16 x) ++ (le16 (i_to_u16 y) ++ le16 (i_to_u16 (pos 256)))

pub length-counts : (x y : ℤ) → length (counts x y) ≡ 6
unfolding counts le16
length-counts x y = refl

pub counts-IsU8 : (x y : ℤ) → All IsU8 (counts x y)
unfolding counts
counts-IsU8 x y =
    All-append IsU8 (le16 (i_to_u16 x)) _ (le16-IsU8 _)
      (All-append IsU8 (le16 (i_to_u16 y)) _ (le16-IsU8 _) (le16-IsU8 _))

-- The registers in front of the data registers, and those behind them.
abbrev pub front : Sim → List ℕ
front s = take reg_datax0 s.regs

abbrev pub back : Sim → List ℕ
back s = drop 0x38 s.regs

pub wobble-IsI16 : All IsI16 wobble
wobble-IsI16 = ground arith

pub length-front : (s : Sim) → IsValid s → length (front s) ≡ reg_datax0
length-front s v = length-take reg_datax0 s.regs ∙ omega (arith, v.size)

pub length-back : (s : Sim) → IsValid s → length (back s) ≡ 2
length-back s v = length-drop 0x38 s.regs ∙ omega (arith, v.size)

store-data :
    (s : Sim) (raw : List ℕ)
    → IsValid s
    → length raw ≡ 6
    → store_all s.regs reg_datax0 raw ≡ some (front s ++ (raw ++ back s))
store-data s raw v six =
    let room : length raw ≤ length (drop reg_datax0 s.regs) =
      omega (arith, length-drop reg_datax0 s.regs, v.size, six) in
    let split = take-append-drop reg_datax0 s.regs in
    let stored = store_all-append (front s) (drop reg_datax0 s.regs) raw room in
    let tail = ap (λ k. drop k (drop reg_datax0 s.regs)) six ∙ drop-drop 6 reg_datax0 s.regs in
    ap₂ (λ xs n. store_all xs n raw) (sym split) (sym (length-front s v))
    ∙ stored
    ∙ ap (λ t. some (front s ++ (raw ++ t))) tail

-- On a well-formed register file a new sample replaces the six data registers, and only them.
pub sim_refresh_sample_lem :
    (s : Sim)
    → IsValid s
    → (x : ℤ) × (y : ℤ) × (load wobble (s.phase % 16) ≡ some x)
      × (load wobble (u32 (s.phase + 4) % 16) ≡ some y)
      × IsI16 x
      × IsI16 y
      × (sim_refresh_sample s
          ≡ some (record s { regs = front s ++ (counts x y ++ back s); phase = u32 (s.phase + 1) }))
unfolding sim_refresh_sample counts le16
sim_refresh_sample_lem s v =
    let (x, at_x, small_x) = load_in IsI16 wobble (s.phase % 16) wobble-IsI16 (omega arith) in
    let (y, at_y, small_y) =
      load_in IsI16 wobble (u32 (s.phase + 4) % 16) wobble-IsI16 (omega arith) in
    let stored = store-data s (counts x y) v refl in
    (
      x,
      y,
      at_x,
      at_y,
      small_x,
      small_y,
      rw (bit_and_mask 4 s.phase) (
          rw (bit_and_mask 4 (u32 (s.phase + 4)))
            (bind_some _ at_x (bind_some _ at_y (bind_some _ stored refl)))),
    )
