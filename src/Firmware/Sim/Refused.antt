-- ===== src/Firmware/Sim/Refused.antt =====
-- What the simulated chip refuses, and that it then changes nothing.
use sharak.Prelude.{
  ℕ, ◌<◌, ◌≡◌, ◌≢◌, ◌⊎◌, inl, inr, refl, arith, List, ℤ, Ptr, none, some, ◌>>=◌, Bool, true, false,
  ◌==◌, ltb, ◌&&◌, ◌||◌, if◌then◌else◌, Post, Post-some, Post-bind, Post-if,
}
use sharak.Firmware.Bus.{i2c_err_nack, i2c_err_param, i2c_ok, is_ok}
use sharak.Firmware.Sim.{Sim, sim_addr, sim_write, sim_write_read, write_phase, read_phase, is_null}

-- Why a call is refused for its arguments: a NULL context, or a NULL buffer that data should come
-- from or go to.
abbrev pub IsMissing : Ptr Sim → Ptr (List ℕ) → ℕ → Type 0
IsMissing s buf len = (s ≡ none) ⊎ ((buf ≡ none) × (0 < len))

WriteFails : Ptr Sim → ℕ → Ptr (List ℕ) → ℕ → ℤ × Ptr Sim → Type 0
WriteFails s addr bytes len r =
    is_ok r.0 ≡ false
    → (r.1 ≡ s)
      × (((r.0 ≡ i2c_err_nack) × (addr ≢ sim_addr))
          ⊎ ((r.0 ≡ i2c_err_param) × IsMissing s bytes len))

sim_write-WriteFails :
    (s : Ptr Sim) (addr : ℕ) (bytes : Ptr (List ℕ)) (len : ℕ)
    → Post (WriteFails s addr bytes len) (sim_write s addr bytes len)
unfolding sim_write WriteFails
sim_write-WriteFails none addr bytes len = Post-some _ _ (λ _. (refl, inr (refl, inl refl)))
sim_write-WriteFails (some s) addr none len =
    Post-if _ (addr == sim_addr) _ _
      (λ here.
        Post-if _ (len == 0) (some (i2c_ok, some s)) _
          (λ probe. Post-some _ (i2c_ok, some s) (λ bad. cc))
          (λ more. Post-some _ _ (λ _. (refl, inr (refl, inr (refl, ground arith))))))
      (λ other. Post-some _ _ (λ _. (refl, inl (refl, λ same. ground arith))))
sim_write-WriteFails (some s) addr (some bs) len =
    Post-if _ (addr == sim_addr) _ _
      (λ here.
        Post-if _ (len == 0) (some (i2c_ok, some s))
          (write_phase bs len s >>= λ s'. some (i2c_ok, some s'))
          (λ probe. Post-some _ (i2c_ok, some s) (λ bad. cc))
          (λ more.
            Post-bind _ (write_phase bs len s) (λ s'. some (i2c_ok, some s'))
              (λ s'. Post-some _ (i2c_ok, some s') (λ bad. cc))))
      (λ other. Post-some _ _ (λ _. (refl, inl (refl, λ same. ground arith))))

null_test :
    (buf : Ptr (List ℕ)) (len : ℕ) → (ltb 0 len && is_null buf) ≡ true → (buf ≡ none) × (0 < len)
unfolding is_null
null_test none len e = (refl, ground arith)
null_test (some bs) len e = absurd (ground arith)

ReadFails : Ptr Sim → ℕ → Ptr (List ℕ) → ℕ → Ptr (List ℕ) → ℕ → ℤ × Ptr (List ℕ) × Ptr Sim → Type 0
ReadFails s addr wdata wlen rdata rlen r =
    is_ok r.0 ≡ false
    → (r.1 ≡ rdata)
      × (r.2 ≡ s)
      × (((r.0 ≡ i2c_err_nack) × (addr ≢ sim_addr))
          ⊎ ((r.0 ≡ i2c_err_param) × (IsMissing s wdata wlen ⊎ IsMissing s rdata rlen)))

either : (b c : Bool) → (b || c) ≡ true → (b ≡ true) ⊎ (c ≡ true)
either true c e = inl refl
either false c e = inr e

sim_write_read-ReadFails :
    (s : Ptr Sim) (addr : ℕ) (wdata : Ptr (List ℕ)) (wlen : ℕ) (rdata : Ptr (List ℕ)) (rlen : ℕ)
    → Post (ReadFails s addr wdata wlen rdata rlen) (sim_write_read s addr wdata wlen rdata rlen)
unfolding sim_write_read ReadFails
sim_write_read-ReadFails none addr wdata wlen rdata rlen =
    Post-some _ _ (λ _. (refl, refl, inr (refl, inl (inl refl))))
sim_write_read-ReadFails (some s) addr wdata wlen rdata rlen =
    Post-if _ (addr == sim_addr) _ _
      (λ here.
        Post-if _ (ltb 0 wlen && is_null wdata || ltb 0 rlen && is_null rdata)
          (some (i2c_err_param, rdata, some s)) _
          (λ missing.
            Post-some _ (i2c_err_param, rdata, some s)
              (λ _. (
                refl,
                refl,
                inr (
                  refl,
                  elim (either (ltb 0 wlen && is_null wdata) (ltb 0 rlen && is_null rdata)
                      missing) [
                        | inl w ↦ inl (inr (null_test wdata wlen w))
                        | inr r ↦ inr (inr (null_test rdata rlen r))
                      ],
                ),
              )))
          (λ there.
            Post-bind _ (if ltb 0 wlen then (do bs ← wdata; write_phase bs wlen s) else some s)
              (λ s1. read_phase rdata rlen s1 >>= λ (out, s2). some (i2c_ok, out, some s2))
              (λ s1.
                Post-bind _ (read_phase rdata rlen s1) (λ (out, s2). some (i2c_ok, out, some s2))
                  (λ (out, s2). Post-some _ (i2c_ok, out, some s2) (λ bad. cc)))))
      (λ other. Post-some _ _ (λ _. (refl, refl, inl (refl, λ same. ground arith))))

-- A transfer that does not end with I2C_OK changes nothing: if `sim_write_read` returns another
-- status, whatever its arguments are, the caller's buffer and the chip are as they were, and the
-- status tells why: I2C_ERR_NACK for an address other than the chip's, I2C_ERR_PARAM for a NULL
-- context, or for a NULL buffer where there is something to write or to read.
pub sim_write_read_fails :
    (s : Ptr Sim) (addr : ℕ) (wdata : Ptr (List ℕ)) (wlen : ℕ) (rdata : Ptr (List ℕ)) (rlen : ℕ)
    (rc : ℤ) (rdata' : Ptr (List ℕ)) (s' : Ptr Sim)
    → sim_write_read s addr wdata wlen rdata rlen ≡ some (rc, rdata', s')
    → is_ok rc ≡ false
    → (rdata' ≡ rdata)
      × (s' ≡ s)
      × (((rc ≡ i2c_err_nack) × (addr ≢ sim_addr))
          ⊎ ((rc ≡ i2c_err_param) × (IsMissing s wdata wlen ⊎ IsMissing s rdata rlen)))
unfolding ReadFails
sim_write_read_fails s addr wdata wlen rdata rlen rc rdata' s' e bad =
    sim_write_read-ReadFails s addr wdata wlen rdata rlen (rc, rdata', s') e bad

-- The same of `sim_write`: with another status than I2C_OK the chip is as it was.
pub sim_write_fails :
    (s : Ptr Sim) (addr : ℕ) (bytes : Ptr (List ℕ)) (len : ℕ) (rc : ℤ) (s' : Ptr Sim)
    → sim_write s addr bytes len ≡ some (rc, s')
    → is_ok rc ≡ false
    → (s' ≡ s)
      × (((rc ≡ i2c_err_nack) × (addr ≢ sim_addr)) ⊎ ((rc ≡ i2c_err_param) × IsMissing s bytes len))
unfolding WriteFails
sim_write_fails s addr bytes len rc s' e bad = sim_write-WriteFails s addr bytes len (rc, s') e bad
