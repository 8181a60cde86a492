-- ===== src/Firmware/Sim/Access.antt =====
-- The register file stays well formed; when an access is within it, and when it is not.
use native.Mathlib.Decide.{dec_lt}
use sharak.Prelude.{
  ℕ, zero, suc, ◌+◌, ◌-◌, ◌≤◌, ◌<◌, ◌≡◌, refl, ap, sym, ◌∙◌, arith, List, [], ◌∷◌, ◌++◌, none, some,
  ◌>>=◌, bind_some, load, store, set, store-set, store_out, length-set, All-set, load_in, length,
  replicate, All, IsU8, IsU32, ◌==◌, false, load_hit, store-append, append_assoc, true,
  length-append, ◌↔◌, ◌⊎◌, inl, inr,
}
use sharak.Firmware.Bus.{i2c_ok}
use sharak.Firmware.Sim.{
  Sim, nregs, sim_addr, sim_next_ptr, write_loop, write_phase, sim_write, clear_loop, i2c_sim_init,
  devid_value, sim_touches_data, reg_datax0, reg_dataz1,
}

-- 58 registers of a byte each, a pointer to one of them, and a 32-bit phase.
pub record IsValid (s : Sim) : Type 0 where
  pub size : length s.regs ≡ nregs
  pub bytes : All IsU8 s.regs
  pub pointer : s.ptr < nregs
  pub phase : IsU32 s.phase

pub sim_next_ptr-lt : (p : ℕ) → sim_next_ptr p < nregs
unfolding sim_next_ptr
sim_next_ptr-lt p = ground arith

pub next-below : (p : ℕ) → p + 1 < nregs → sim_next_ptr p ≡ p + 1
unfolding sim_next_ptr
next-below p h = ground arith

-- Writes from a pointer in range stay in range, and leave the phase alone.
write_loop-IsValid :
    (bs : List ℕ) (left i : ℕ) (s : Sim)
    → i + left ≤ length bs
    → All IsU8 bs
    → IsValid s
    → (s' : Sim) × (write_loop bs left i s ≡ some s') × IsValid s' × (s'.phase ≡ s.phase)
unfolding write_loop
write_loop-IsValid bs zero i s h hb v = (s, refl, v, refl)
write_loop-IsValid bs (suc left) i s h hb v =
    let (b, read, byte) = load_in IsU8 bs i hb (omega arith) in
    let regs = set s.regs s.ptr b in
    let next : Sim = record s { regs = regs; ptr = sim_next_ptr s.ptr } in
    let valid : IsValid next = record {
      size = length-set s.regs s.ptr b ∙ v.size;
      bytes = All-set IsU8 s.regs s.ptr b v.bytes byte;
      pointer = sim_next_ptr-lt s.ptr;
      phase = v.phase;
    } in
    let (s', run, v', same) = write_loop-IsValid bs left (i + 1) next (omega arith) hb valid in
    (
      s',
      bind_some _ read
          (bind_some _ (store-set s.regs s.ptr b (omega (arith, v.size, v.pointer))) run),
      v',
      same,
    )

-- A transfer of `len` bytes that starts with a register number below 58 is carried out, keeps the
-- chip well formed and leaves the phase alone.
write_phase-IsValid :
    (bs : List ℕ) (len p : ℕ) (s : Sim)
    → load bs 0 ≡ some p
    → 0 < len
    → len ≤ length bs
    → All IsU8 bs
    → p < nregs
    → IsValid s
    → (s' : Sim) × (write_phase bs len s ≡ some s') × IsValid s' × (s'.phase ≡ s.phase)
unfolding write_phase
write_phase-IsValid bs len p s first pos fits hb hp v =
    let start : Sim = record s { ptr = p } in
    let valid : IsValid start = record {
      size = v.size;
      bytes = v.bytes;
      pointer = hp;
      phase = v.phase;
    } in
    let (s', run, v', same) = write_loop-IsValid bs (len - 1) 1 start (omega arith) hb valid in
    (s', bind_some _ first run, v', same)

write_loop_out :
    (bs : List ℕ) (left i b : ℕ) (s : Sim)
    → load bs i ≡ some b
    → length s.regs ≤ s.ptr
    → write_loop bs (suc left) i s ≡ none
unfolding write_loop
write_loop_out bs left i b s read out = bind_some _ read (
    ap
      (λ m. m >>= λ regs.
        write_loop bs left (i + 1) (record s { regs = regs; ptr = sim_next_ptr s.ptr }))
      (store_out s.regs s.ptr b out))

-- A register number behind the register file, with data to write.
write_phase_out :
    (bs : List ℕ) (len p : ℕ) (s : Sim)
    → load bs 0 ≡ some p
    → 2 ≤ len
    → len ≤ length bs
    → length s.regs ≤ p
    → write_phase bs len s ≡ none
unfolding write_phase
write_phase_out bs len p s first two fits out =
    let (b, read) = load_hit bs 1 (omega arith) in
    let rest : len - 1 ≡ suc (len - 2) = omega arith in
    bind_some _ first (rw rest (write_loop_out bs (len - 2) 1 b (record s { ptr = p }) read out))

-- `sim_write` to the chip's address, with at least one byte of data behind the register number: it
-- succeeds and keeps the chip well formed if that number is below 58, and if it is not, it writes
-- outside the register file.
pub sim_write_range :
    (s : Sim) (bs : List ℕ) (len p : ℕ)
    → IsValid s
    → load bs 0 ≡ some p
    → 2 ≤ len
    → len ≤ length bs
    → All IsU8 bs
    → ((p < nregs)
        × ((s' : Sim) × (sim_write (some s) sim_addr (some bs) len ≡ some (i2c_ok, some s'))
            × IsValid s'
            × (s'.phase ≡ s.phase)))
      ⊎ ((nregs ≤ p) × (sim_write (some s) sim_addr (some bs) len ≡ none))
unfolding sim_write
sim_write_range s bs len p v first two fits hb =
    let nonempty : (len == 0) ≡ false = ground arith in
    elim (dec_lt p nregs) [
      | yes hp ↦
          let (s', run, v', same) =
            write_phase-IsValid bs len p s first (omega arith) fits hb hp v in
          inl (hp, (s', rw nonempty (bind_some _ run refl), v', same))
      | no hp ↦
          let fault = write_phase_out bs len p s first two fits (omega (arith, v.size, hp)) in
          inr (omega arith, rw nonempty (ap (λ m. m >>= λ s'. some (i2c_ok, some s')) fault))
    ]

clear_loop-replicate :
    (rest done : List ℕ) (i : ℕ)
    → i ≡ length done
    → clear_loop (length rest) i (done ++ rest) ≡ some (done ++ replicate (length rest) 0)
unfolding clear_loop
clear_loop-replicate [] done i at_i = refl
clear_loop-replicate (r ∷ rest) done i at_i =
    let wrote : store (done ++ (r ∷ rest)) i 0 ≡ some ((done ++ (0 ∷ [])) ++ rest) =
      ap (λ n. store (done ++ (r ∷ rest)) n 0) at_i
      ∙ (store-append done r rest 0 ∙ ap some (sym (append_assoc done (0 ∷ []) rest))) in
    let ih =
      clear_loop-replicate rest (done ++ (0 ∷ [])) (i + 1)
        (omega (arith, length-append done (0 ∷ []))) in
    bind_some _ wrote (ih ∙ ap some (append_assoc done (0 ∷ []) (replicate (length rest) 0)))

-- The chip behind `i2c_sim_init`.
abbrev pub powered : Sim
powered = record { regs = devid_value ∷ replicate 57 0; ptr = 0; phase = 0 }

-- Whatever the memory of the simulator held, `i2c_sim_init` leaves one and the same chip: 0xE5 in
-- the identification register, every other register, the pointer and the phase zero. It is well
-- formed.
pub i2c_sim_init_ok :
    (s : Sim)
    → length s.regs ≡ nregs
    → (i2c_sim_init (some s) ≡ some (some powered)) × IsValid powered
unfolding i2c_sim_init
i2c_sim_init_ok s size = (
  bind_some _
      (ap (λ n. clear_loop n 0 s.regs) (sym size)
        ∙ (clear_loop-replicate s.regs [] 0 refl ∙ ap (λ n. some (replicate n 0)) size))
      refl,
  record { size = refl; bytes = ground arith; pointer = omega arith; phase = omega arith },
)

-- For a read of at least one byte that does not run past the last register, the test of
-- `sim_write_read` holds exactly if the read reaches one of the six data registers.
pub sim_touches_data_iff :
    (ptr rlen : ℕ)
    → 0 < rlen
    → ptr + rlen ≤ nregs
    → (sim_touches_data ptr rlen ≡ true)
      ↔ ((k : ℕ) × (k < rlen) × (reg_datax0 ≤ ptr + k) × (ptr + k ≤ reg_dataz1))
unfolding sim_touches_data
sim_touches_data_iff ptr rlen some_read fits = (
  λ e. (reg_datax0 - ptr, ground arith, ground arith, ground arith),
  λ h. ground (arith, h.1, h.2, h.3),
)
