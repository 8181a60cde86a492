-- ===== src/Firmware/Stellaris/Bytes.antt =====
-- A loop that sends bytes, one command with each: what the write and the first phase of the combined
-- transfer share.
use sharak.Prelude.{
  ℕ, zero, suc, ◌+◌, ◌≤◌, ◌<◌, ◌≡◌, refl, ap, sym, ◌∙◌, arith, List, [], ◌∷◌, ◌++◌, append_assoc,
  append-nil, ℤ, Run, some, ◌>>=◌, bind_some, load, length, drop, take, split_at, true, false,
  if_then, if_else, if◌then◌else◌,
}
use sharak.Firmware.Bus.{i2c_ok, is_ok}
use sharak.Firmware.Device.{Device}
use sharak.Firmware.Stellaris.{i2c_mcs, i2c_mdr, mcs_stop, send_byte}
use sharak.Firmware.Stellaris.Master.{IsAnswering, send_byte-accepted, send_byte-refused}

-- The register writes of the bytes from index `i` on, with the command of each index.
abbrev pub command_writes : (ℕ → ℕ) → ℕ → List ℕ → List (ℕ × ℕ)
command_writes command i [] = []
command_writes command i (b ∷ bs) =
    (i2c_mdr, b) ∷ (i2c_mcs, command i) ∷ command_writes command (i + 1) bs

-- `loop left i` sends `left` bytes from index `i` on, and returns at the first one that is refused.
pub record IsByteLoop {D : Type 0} (dev : Device D) (fuel : ℕ) (bytes : List ℕ) (command : ℕ → ℕ)
    (loop : ℕ → ℕ → D → Run (ℤ × D)) : Type 0 where
  pub over : (i : ℕ) (d : D) → loop zero i d ≡ some (i2c_ok, d)
  pub more :
      (left i : ℕ) (d : D)
      → loop (suc left) i d ≡ (do
        b ← load bytes i
        (st, d') ← send_byte dev fuel b (command i) d
        if is_ok st then loop left (i + 1) d' else some (st, d'))

module _ {D : Type 0} (dev : Device D) (bound : ℕ) (answer : List (ℕ × ℕ) → ℤ)
    (slave : IsAnswering dev bound answer) (fuel : ℕ) (enough : bound < fuel) (bytes : List ℕ)
    (command : ℕ → ℕ) where
  -- The log behind `k` bytes from index `i` on.
  abbrev pub upto : D → ℕ → ℕ → List (ℕ × ℕ)
  upto d i k = slave.log d ++ command_writes command i (take k (drop i bytes))

  -- One byte more at the front.
  upto-first :
      (i k b : ℕ) (d d1 : D)
      → drop i bytes ≡ b ∷ drop (suc i) bytes
      → slave.log d1 ≡ slave.log d ++ command_writes command i (b ∷ [])
      → upto d1 (i + 1) k ≡ upto d i (suc k)
  upto-first i k b d d1 rest logged =
      let next_index : i + 1 ≡ suc i = omega arith in
      let cut : take (suc k) (drop i bytes) ≡ b ∷ take k (drop (i + 1) bytes) =
        ap (take (suc k)) rest ∙ ap (λ (t : ℕ). b ∷ take k (drop t bytes)) (sym next_index) in
      ap (λ t. t ++ command_writes command (i + 1) (take k (drop (i + 1) bytes))) logged
      ∙ (append_assoc (slave.log d) (command_writes command i (b ∷ []))
            (command_writes command (i + 1) (take k (drop (i + 1) bytes)))
          ∙ ap (λ t. slave.log d ++ command_writes command i t) (sym cut))

  upto_one :
      (i b : ℕ) (d : D)
      → drop i bytes ≡ b ∷ drop (suc i) bytes
      → upto d i 1 ≡ slave.log d ++ command_writes command i (b ∷ [])
  upto_one i b d rest = ap (λ t. slave.log d ++ command_writes command i (take 1 t)) rest

  module _ (loop : ℕ → ℕ → D → Run (ℤ × D)) (steps : IsByteLoop dev fuel bytes command loop) where
    -- All bytes are accepted; what neither a poll nor a write changes is as it was.
    pub loop_accepted :
        {X : Type 0} (view : D → X)
        → ((d : D) → view (dev.read32 d i2c_mcs).1 ≡ view d)
        → ((d : D) (reg v : ℕ) → view (dev.write32 d reg v) ≡ view d)
        → (left i : ℕ) (d : D) → i + left ≤ length bytes
        → ((k : ℕ) → k < left → is_ok (answer (upto d i (suc k))) ≡ true)
        → (d' : D) × (loop left i d ≡ some (i2c_ok, d'))
          × (slave.log d' ≡ upto d i left)
          × (view d' ≡ view d)
    loop_accepted view keeps stays zero i d fits good =
        (d, steps.over i d, sym (append-nil (slave.log d)), refl)
    loop_accepted view keeps stays (suc left) i d fits good =
        let (b, read, rest, _) = split_at i bytes (omega arith) in
        let good_b =
          ap (λ t. is_ok (answer t)) (sym (upto_one i b d rest)) ∙ good 0 (omega arith) in
        let (d1, one, logged, same) =
          send_byte-accepted dev bound answer slave view keeps stays fuel b (command i) d enough
            good_b in
        let (d', run, logged', same') =
          loop_accepted view keeps stays left (i + 1) d1 (omega arith) (λ k lt.
            ap (λ t. is_ok (answer t)) (upto-first i (suc k) b d d1 rest logged)
            ∙ good (suc k) (omega arith)) in
        (
          d',
          steps.more left i d ∙ bind_some _ read (bind_some _ one (if_then _ good_b run)),
          logged' ∙ upto-first i left b d d1 rest logged,
          same' ∙ same,
        )

    -- `j` bytes are accepted, and the next one is refused.
    pub loop_refused :
        (left i j : ℕ) (d : D)
        → i + left ≤ length bytes
        → j < left
        → ((k : ℕ) → k < j → is_ok (answer (upto d i (suc k))) ≡ true)
        → is_ok (answer (upto d i (suc j))) ≡ false
        → (d' : D) × (loop left i d ≡ some (answer (upto d i (suc j)), d'))
          × (slave.log d' ≡ upto d i (suc j) ++ ((i2c_mcs, mcs_stop) ∷ []))
    loop_refused zero i j d fits lt good bad = absurd (omega arith)
    loop_refused (suc left) i zero d fits lt good bad =
        let (b, read, rest, _) = split_at i bytes (omega arith) in
        let first = upto_one i b d rest in
        let bad_b = ap (λ t. is_ok (answer t)) (sym first) ∙ bad in
        let (d', run, logged) =
          send_byte-refused dev bound answer slave fuel b (command i) d enough bad_b in
        (
          d',
          steps.more left i d
              ∙ bind_some _ read
                  (bind_some _ run (if_else _ bad_b (ap (λ t. some (answer t, d')) (sym first)))),
          logged ∙ ap (λ t. t ++ ((i2c_mcs, mcs_stop) ∷ [])) (sym first),
        )
    loop_refused (suc left) i (suc j) d fits lt good bad =
        let (b, read, rest, _) = split_at i bytes (omega arith) in
        let good_b =
          ap (λ t. is_ok (answer t)) (sym (upto_one i b d rest)) ∙ good 0 (omega arith) in
        let (d1, one, logged, _) =
          send_byte-accepted dev bound answer slave {X = Unit} (λ d. tt) (λ d. refl)
            (λ d reg v. refl) fuel b (command i) d enough good_b in
        let shift = λ (k : ℕ). upto-first i (suc k) b d d1 rest logged in
        let (d', run, logged') =
          loop_refused left (i + 1) j d1 (omega arith) (omega arith)
            (λ k lt_k. ap (λ t. is_ok (answer t)) (shift k) ∙ good (suc k) (omega arith))
            (ap (λ t. is_ok (answer t)) (shift j) ∙ bad) in
        (
          d',
          steps.more left i d
              ∙ bind_some _ read (
                  bind_some _ one
                    (if_then _ good_b (run ∙ ap (λ t. some (answer t, d')) (shift j)))),
          logged' ∙ ap (λ t. t ++ ((i2c_mcs, mcs_stop) ∷ [])) (shift j),
        )
