-- ===== src/Protocol/Frame/Loops.antt =====
-- The loops of the encoder: what they leave in the buffers.
use native.Mathlib.Nat.{add_assoc}
use native.Mathlib.Numerals.{add-one}
use native.Mathlib.Decide.{dec_le}
use mathlib.Core.List.{map-append}
use sharak.Prelude.{
  ap₂, u8, bit_xor, ℕ, zero, suc, ◌+◌, ◌≤◌, ◌<◌, ◌≡◌, refl, ap, ◌∙◌, arith, List, [], ◌∷◌, ◌++◌,
  append_assoc, map, length, length-append, length-map, length-take, length-drop, take, drop,
  drop-drop, split_at, none, some, bind_some, Locals, load_local, store, store-append,
  get_elem?-append_self,
}
use sharak.Protocol.Wire.{esc_byte, esc_xor}
use sharak.Protocol.Frame.{copy_loop, stuff_step, stuff_loop}
use sharak.Protocol.Frame.Stuff.{stuff_byte, stuff}

-- A write at the end of a prefix extends it.
pub store_next {ℓ} :
    {A : Type ℓ} (done rest : List A) (i : ℕ) (v : A)
    → i ≡ length done
    → 0 < length rest
    → store (done ++ rest) i v ≡ some ((done ++ (v ∷ [])) ++ drop 1 rest)
store_next done [] i v e h = absurd (omega arith)
store_next done (x ∷ rest) i v e h = rw (e, append_assoc) (store-append done x rest v)

pub copy_loop_lem :
    (xs : List ℕ) (left i : ℕ) (rest : Locals)
    → i + left ≤ length xs
    → left ≤ length rest
    → copy_loop xs left i (map some (take i xs) ++ rest)
      ≡ some (map some (take (i + left) xs) ++ drop left rest)
unfolding copy_loop
copy_loop_lem xs zero i rest h k = ap (λ (t : ℕ). some (map some (take t xs) ++ rest)) (omega arith)
copy_loop_lem xs (suc left) i rest h k =
    let (b, read, _, taken) = split_at i xs (omega arith) in
    let more : map some (take (i + 1) xs) ≡ map some (take i xs) ++ (some b ∷ []) =
      ap (λ (t : ℕ). map some (take t xs)) (add-one i)
      ∙ (ap (map some) taken ∙ map-append some (take i xs) (b ∷ [])) in
    let at_i : i ≡ length (map some (take i xs)) =
      omega (arith, length-map (take i xs) (λ (x : ℕ). some x), length-take i xs) in
    bind_some _ read (
      bind_some _ (store_next (map some (take i xs)) rest i (some b) at_i (omega arith)) (
        rw (← more) (
          copy_loop_lem xs left (i + 1) (drop 1 rest) (omega arith)
            (omega (arith, length-drop 1 rest))
          ∙ ap₂ (λ (t : ℕ) (u : Locals). some (map some (take t xs) ++ u)) (omega arith)
              (drop-drop left 1 rest ∙ ap (λ (t : ℕ). drop t rest) {y = suc left} (omega arith)))))

-- A write behind a prefix is a write into what follows it.
store-append_right {ℓ} :
    {A : Type ℓ} (done ys : List A) (k : ℕ) (v : A) (zs : List A)
    → store ys k v ≡ some zs
    → store (done ++ ys) (length done + k) v ≡ some (done ++ zs)
store-append_right [] ys k v zs e = ap (λ (t : ℕ). store ys t v) (omega arith) ∙ e
store-append_right (d ∷ done) ys k v zs e =
    ap (λ (t : ℕ). store (d ∷ (done ++ ys)) t v) (reach (length done))
    ∙ bind_some _ (store-append_right done ys k v zs e) refl
  where
    reach : (n : ℕ) → suc n + k ≡ suc (n + k)
    reach n = omega arith

-- One byte: the loop appends its stuffing if there is room, and else returns -1.
stuff_step_ok :
    (cap b n : ℕ) (done rest : List ℕ)
    → n ≡ length done
    → n + length (stuff_byte b) ≤ cap
    → cap ≤ n + length rest
    → stuff_step cap b n (done ++ rest)
      ≡ some (
        some (n + length (stuff_byte b)),
        done ++ (stuff_byte b ++ drop (length (stuff_byte b)) rest),
      )
unfolding stuff_step stuff_byte
stuff_step_ok cap b n done [] e h k = ground arith
stuff_step_ok cap b n done (x ∷ []) e h k = ground (arith, store-append done x [] b)
stuff_step_ok cap b n done (x ∷ y ∷ rest) e h k = ground (
  arith,
  store-append done x (y ∷ rest) b,
  store-append done x (y ∷ rest) esc_byte,
  store-append_right done (esc_byte ∷ y ∷ rest) 1 (u8 (bit_xor b esc_xor))
      (esc_byte ∷ u8 (bit_xor b esc_xor) ∷ rest) refl,
)

stuff_step_full :
    (cap b n : ℕ) (out : List ℕ)
    → cap < n + length (stuff_byte b)
    → stuff_step cap b n out ≡ some (none, out)
unfolding stuff_step stuff_byte
stuff_step_full cap b n out h = ground arith

read_local :
    (pre : Locals) (y : ℕ) (t : Locals) (i : ℕ)
    → i ≡ length pre
    → load_local (pre ++ (some y ∷ t)) i ≡ some y
read_local pre y t i e = rw e (bind_some _ (get_elem?-append_self pre (some y) t) refl)

module _ (cap : ℕ) (pre : Locals) (y : ℕ) (ys : List ℕ) (junk : Locals) where
  -- One round of the loop, at the byte `y`, that finds room.
  stuff_loop_next :
      (i n : ℕ) (done rest : List ℕ)
      → i ≡ length pre
      → n ≡ length done
      → n + length (stuff_byte y) ≤ cap
      → cap ≤ n + length rest
      → stuff_loop cap (pre ++ (map some (y ∷ ys) ++ junk)) (suc (length ys)) i n (done ++ rest)
        ≡ stuff_loop cap
            ((pre ++ (some y ∷ [])) ++ (map some ys ++ junk))
            (length ys)
            (i + 1)
            (n + length (stuff_byte y))
            ((done ++ stuff_byte y) ++ drop (length (stuff_byte y)) rest)
  unfolding stuff_loop
  stuff_loop_next i n done rest ei en h k =
      bind_some _ (read_local pre y (map some ys ++ junk) i ei)
        (bind_some _ (stuff_step_ok cap y n done rest en h k) (simp append_assoc))

  -- One that does not.
  stuff_loop_stop :
      (i n : ℕ) (out : List ℕ)
      → i ≡ length pre
      → cap < n + length (stuff_byte y)
      → stuff_loop cap (pre ++ (map some (y ∷ ys) ++ junk)) (suc (length ys)) i n out
        ≡ some (none, out)
  unfolding stuff_loop
  stuff_loop_stop i n out ei h =
      bind_some _ (read_local pre y (map some ys ++ junk) i ei)
        (bind_some _ (stuff_step_full cap y n out h) refl)

-- The whole loop over the bytes `ys`, which stand at index `i` of the local array: with room it
-- appends their stuffing.
pub stuff_loop_ok :
    (cap : ℕ) (pre : Locals) (ys : List ℕ) (junk : Locals) (i n : ℕ) (done rest : List ℕ)
    → i ≡ length pre
    → n ≡ length done
    → n + length (stuff ys) ≤ cap
    → cap ≤ n + length rest
    → stuff_loop cap (pre ++ (map some ys ++ junk)) (length ys) i n (done ++ rest)
      ≡ some (some (n + length (stuff ys)), done ++ (stuff ys ++ drop (length (stuff ys)) rest))
unfolding stuff
stuff_loop_ok cap pre [] junk i n done rest ei en h k =
    unfold stuff_loop in ap (λ (t : ℕ). some (some t, done ++ rest)) (omega arith)
stuff_loop_ok cap pre (y ∷ ys) junk i n done rest ei en h k =
    let s = stuff_byte y in
    let total = length-append s (stuff ys) in
    stuff_loop_next cap pre y ys junk i n done rest ei en (omega (arith, total)) k
    ∙ (stuff_loop_ok cap (pre ++ (some y ∷ [])) ys junk (i + 1) (n + length s) (done ++ s)
          (drop (length s) rest) (omega (arith, length-append pre (some y ∷ [])))
          (omega (arith, length-append done s)) (omega (arith, total))
          (omega (arith, length-drop (length s) rest))
        ∙ simp (append_assoc, length-append, drop-drop, add_assoc))

-- Without room it returns -1, and the output keeps its length.
pub stuff_loop_full :
    (cap : ℕ) (pre : Locals) (ys : List ℕ) (junk : Locals) (i n : ℕ) (done rest : List ℕ)
    → i ≡ length pre
    → n ≡ length done
    → n ≤ cap
    → cap < n + length (stuff ys)
    → cap ≤ n + length rest
    → (out : List ℕ) × (stuff_loop cap (pre ++ (map some ys ++ junk)) (length ys) i n (done ++ rest)
        ≡ some (none, out))
      × (length out ≡ n + length rest)
unfolding stuff
stuff_loop_full cap pre [] junk i n done rest ei en l h k = absurd (omega arith)
stuff_loop_full cap pre (y ∷ ys) junk i n done rest ei en l h k =
    let s = stuff_byte y in
    let total = length-append s (stuff ys) in
    elim (dec_le (n + length s) cap) [
      | yes fits ↦
          let (out, e, len) =
            stuff_loop_full cap (pre ++ (some y ∷ [])) ys junk (i + 1) (n + length s) (done ++ s)
              (drop (length s) rest) (omega (arith, length-append pre (some y ∷ [])))
              (omega (arith, length-append done s)) fits (omega (arith, total))
              (omega (arith, length-drop (length s) rest)) in
          (
            out,
            stuff_loop_next cap pre y ys junk i n done rest ei en fits k ∙ e,
            omega (arith, len, length-drop (length s) rest),
          )
      | no over ↦ (
        done ++ rest,
        stuff_loop_stop cap pre y ys junk i n (done ++ rest) ei (omega arith),
        omega (arith, length-append done rest),
      )
    ]
