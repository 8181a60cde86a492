-- ===== src/Protocol/Decoder/Accumulate.antt =====
-- The decoder's fields against the machine, and what a byte makes of the accumulator.
use sharak.Prelude.{
  ℕ, ◌+◌, ◌≤◌, ◌<◌, ◌≡◌, refl, ap, sym, ◌∙◌, arith, min, List, [], ◌∷◌, ◌++◌, some, bind_some,
  length, length-append, length-take, length-drop, take, drop, take_all, take-append-drop,
  take-append_self, take-append_left, All, All-append, IsU8, ltb, le→ltb, lt→ltb, if◌then◌else◌,
  u16, store, false,
}
use sharak.Protocol.Wire.{frame_inner}
use sharak.Protocol.Frame.Loops.{store_next}
use sharak.Protocol.Decoder.{Decoder, accumulate}
use sharak.Protocol.Decoder.Machine.{Machine, hunting, collecting}

-- The decoder's fields against the machine's state: the flags are 0 or 1, the counter stops at 18,
-- and the accumulator holds the first 18 bytes.
abbrev pub Simulates : Decoder → Machine → Type 0
Simulates st hunting = (st.in_frame ≡ 0) × (length st.buf ≡ frame_inner)
Simulates st (collecting esc bs) =
    (st.in_frame ≡ 1)
    × (st.esc ≡ (if esc then 1 else 0))
    × (st.overflow ≡ (if ltb frame_inner (length bs) then 1 else 0))
    × (st.count ≡ min (length bs) frame_inner)
    × (length st.buf ≡ frame_inner)
    × (take st.count st.buf ≡ take frame_inner bs)
    × All IsU8 bs

-- A byte with room for it extends the accumulated prefix.
pub accumulate_room :
    (f e o c : ℕ) (buf bs : List ℕ) (b : ℕ)
    → length bs < frame_inner
    → f ≡ 1
    → o ≡ 0
    → c ≡ length bs
    → length buf ≡ frame_inner
    → take c buf ≡ take frame_inner bs
    → All IsU8 bs
    → IsU8 b
    → (st : Decoder) × (accumulate
          (record { in_frame = f; esc = e; overflow = o; count = c; buf = buf })
          b
        ≡ some st)
      × Simulates st (collecting false (bs ++ (b ∷ [])))
unfolding accumulate
accumulate_room f e o c buf bs b room hf ho hc hl ht hb hbyte = (
  record { in_frame = f; esc = 0; overflow = o; count = u16 (c + 1); buf = new },
  rw (lt→ltb c 18 (omega arith)) (bind_some _ stored refl),
  (
    hf,
    refl,
    ho ∙ rw (le→ltb 18 (length longer) (omega (arith, total))),
    omega (arith, total),
    omega (
      arith,
      length-append (take c buf ++ (b ∷ [])) (drop 1 (drop c buf)),
      length-drop 1 (drop c buf),
      length-drop c buf,
      at_end,
    ),
    ap (λ (t : ℕ). take t new) {y = length (take c buf ++ (b ∷ []))} (omega (arith, at_end))
        ∙ (take-append_self (take c buf ++ (b ∷ [])) (drop 1 (drop c buf))
            ∙ (ap (λ (t : List ℕ). t ++ (b ∷ [])) (ht ∙ take_all frame_inner bs (omega arith))
                ∙ sym (take_all frame_inner longer (omega (arith, total))))),
    All-append IsU8 bs (b ∷ []) hb (hbyte, tt),
  ),
)
  where
    longer : List ℕ
    longer = bs ++ (b ∷ [])

    total : length longer ≡ length bs + 1
    total = length-append bs (b ∷ [])

    new : List ℕ
    new = (take c buf ++ (b ∷ [])) ++ drop 1 (drop c buf)

    at_end : length (take c buf ++ (b ∷ [])) ≡ c + 1
    at_end = omega (arith, length-append (take c buf) (b ∷ []), length-take c buf)

    stored : store buf c b ≡ some new
    stored =
        ap (λ (t : List ℕ). store t c b) (sym (take-append-drop c buf))
        ∙ store_next (take c buf) (drop c buf) c b (omega (arith, length-take c buf))
            (omega (arith, length-drop c buf))

-- A byte with no room is only counted as an overflow.
pub accumulate_full :
    (f e o c : ℕ) (buf bs : List ℕ) (b : ℕ)
    → frame_inner ≤ length bs
    → f ≡ 1
    → c ≡ frame_inner
    → length buf ≡ frame_inner
    → take c buf ≡ take frame_inner bs
    → All IsU8 bs
    → IsU8 b
    → (st : Decoder) × (accumulate
          (record { in_frame = f; esc = e; overflow = o; count = c; buf = buf })
          b
        ≡ some st)
      × Simulates st (collecting false (bs ++ (b ∷ [])))
unfolding accumulate
accumulate_full f e o c buf bs b full hf hc hl ht hb hbyte = (
  record { in_frame = f; esc = 0; overflow = 1; count = c; buf = buf },
  rw (le→ltb c 18 (omega arith)),
  (
    hf,
    refl,
    rw (lt→ltb 18 (length (bs ++ (b ∷ []))) (omega (arith, total))),
    omega (arith, total),
    hl,
    ht ∙ sym (take-append_left frame_inner bs (b ∷ []) full),
    All-append IsU8 bs (b ∷ []) hb (hbyte, tt),
  ),
)
  where
    total : length (bs ++ (b ∷ [])) ≡ length bs + 1
    total = length-append bs (b ∷ [])
