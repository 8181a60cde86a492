-- ===== src/Protocol/Decoder/Unstuff.antt =====
-- The bytes that stand between two flags, with the escapes taken off, and what the decoder answers to
-- them. Every escape is taken: there is no error code for a bad one.
use sharak.Prelude.{
  ◌<◌, ℕ, ◌≤◌, ◌≡◌, ◌≢◌, refl, ap, sym, ◌∙◌, arith, List, [], ◌∷◌, ◌++◌, append_assoc, append-nil,
  some, length, replicate, All, All-append, IsU8, ◌==◌, ==_iff, if◌then◌else◌, Bool, true, false,
  Bool-cases, inl, inr, u8, bit_xor,
}
use sharak.Protocol.Wire.{payload_max, flag, esc_byte, esc_xor}
use sharak.Prelude.Bits.{bit_xor-lt}
use sharak.Protocol.Frame.Stuff.{stuff_byte, stuff}
use sharak.Protocol.Decoder.{Decoder}
use sharak.Protocol.Decoder.Machine.{collecting, more, verdict, event, step, events, after}
use sharak.Protocol.Decoder.Accumulate.{Simulates}
use sharak.Protocol.Decoder.Stream.{events-append, events-one, event-flag}
use sharak.Protocol.Decoder.Feed.{feed_all, trace, feed_all_refines}
use sharak.Protocol.Decoder.Received.{flag-IsU8}

-- A byte that is received inside a frame.
abbrev pub IsInside : ℕ → Type 0
IsInside b = IsU8 b × (b ≢ flag)

-- A byte, and what it stands for behind an escape.
abbrev pub unescaped : Bool → ℕ → ℕ
unescaped esc b = if esc then u8 (bit_xor b esc_xor) else b

-- What received bytes stand for; `esc` tells whether an escape came before them. An escape behind
-- an escape changes nothing, and one at the end stands for nothing.
unfoldable pub unstuff : Bool → List ℕ → List ℕ
unstuff esc [] = []
unstuff esc (b ∷ bs) =
    let rest = unstuff (b == esc_byte) bs in if b == esc_byte then rest else unescaped esc b ∷ rest

pub unescaped-IsU8 : (esc : Bool) (b : ℕ) → IsU8 b → IsU8 (unescaped esc b)
unescaped-IsU8 true b h = omega arith
unescaped-IsU8 false b h = h

pub unstuff-IsU8 : (esc : Bool) (wire : List ℕ) → All IsInside wire → All IsU8 (unstuff esc wire)
unfolding unstuff
unstuff-IsU8 esc [] h = tt
unstuff-IsU8 esc (b ∷ bs) ((hb, hn), h) =
    let rest = unstuff-IsU8 (b == esc_byte) bs h in
    elim (Bool-cases (b == esc_byte)) [
      | inl e ↦ rw e (rw e at rest)
      | inr e ↦ rw e (unescaped-IsU8 esc b hb, rw e at rest)
    ]

pub unescaped_behind_escape : (x : ℕ) → IsU8 x → unescaped true x ≡ bit_xor x esc_xor
unescaped_behind_escape x h =
    let small : bit_xor x esc_xor < 256 = bit_xor-lt 8 x esc_xor h (omega arith) in
    omega (arith, small)

unstuff-stuff_byte :
    (b : ℕ) (bs : List ℕ) → unstuff false (stuff_byte b ++ bs) ≡ b ∷ unstuff false bs
unfolding unstuff stuff_byte
unstuff-stuff_byte b bs = elim (Bool-cases (b == flag)) [
  | inl e ↦ rw ((==_iff b flag).0 e) refl
  | inr n ↦ elim (Bool-cases (b == esc_byte)) [
    | inl e ↦ rw ((==_iff b esc_byte).0 e) refl
    | inr k ↦ rw (n, k) (rw k refl)
  ]
]

-- Of what was stuffed, the bytes themselves.
pub unstuff-stuff : (bs : List ℕ) → unstuff false (stuff bs) ≡ bs
unfolding stuff
unstuff-stuff [] = unfold unstuff in refl
unstuff-stuff (b ∷ bs) = unstuff-stuff_byte b (stuff bs) ∙ ap (λ t. b ∷ t) (unstuff-stuff bs)

-- Whether a byte that comes next stands behind an escape.
unfoldable pub ends : Bool → List ℕ → Bool
ends esc [] = esc
ends esc (b ∷ bs) = ends (b == esc_byte) bs

pub unstuff-append :
    (xs ys : List ℕ) (esc : Bool)
    → unstuff esc (xs ++ ys) ≡ unstuff esc xs ++ unstuff (ends esc xs) ys
unfolding unstuff ends
unstuff-append [] ys esc = refl
unstuff-append (x ∷ xs) ys esc =
    let rest = unstuff-append xs ys (x == esc_byte) in
    elim (Bool-cases (x == esc_byte)) [
      | inl e ↦ rw e (rw e at rest)
      | inr e ↦ rw e (ap (λ t. unescaped esc x ∷ t) (rw e at rest))
    ]

pub IsInside-IsU8 : (wire : List ℕ) → All IsInside wire → All IsU8 wire
IsInside-IsU8 [] h = tt
IsInside-IsU8 (b ∷ bs) ((hb, hn), h) = (hb, IsInside-IsU8 bs h)

-- The machine collects just these bytes, and no event comes from them.
collected :
    (wire : List ℕ) (esc : Bool) (bs : List ℕ)
    → All IsInside wire
    → (last : Bool) × (after (collecting esc bs) wire ≡ collecting last (bs ++ unstuff esc wire))
      × (events (collecting esc bs) wire ≡ replicate (length wire) more)
unfolding after events step event unstuff
collected [] esc bs h = (esc, ap (collecting esc) (sym (append-nil bs)), refl)
collected (b ∷ wire) esc bs ((hb, hn), h) =
    let inside : (b == flag) ≡ false = ground arith in
    elim (Bool-cases (b == esc_byte)) [
      | inl e ↦
          let (last, reached, quiet) = collected wire true bs h in
          rw (inside, e) (last, reached, ap (λ t. more ∷ t) quiet)
      | inr e ↦
          let c = unescaped esc b in
          let (last, reached, quiet) = collected wire false (bs ++ (c ∷ [])) h in
          rw (inside, e)
            (
              last,
              reached ∙ ap (collecting last) (append_assoc bs (c ∷ []) (unstuff false wire)),
              ap (λ t. more ∷ t) quiet,
            )
    ]

-- A decoder at the start of a frame that is fed any bytes but flags, and then a flag: it makes no
-- access out of range, and answers as the machine does that has no event for the bytes, whatever
-- escapes stand among them, and at the flag gives the verdict on what they stand for.
pub feed-unstuff :
    (st : Decoder) (wire out : List ℕ) (cap : ℕ)
    → Simulates st (collecting false [])
    → All IsInside wire
    → payload_max ≤ cap
    → cap ≤ length out
    → (st' : Decoder) × (feed_all (some st) (wire ++ (flag ∷ [])) (some out) cap
        ≡ some (
          trace (replicate (length wire) more ++ (verdict (unstuff false wire) ∷ [])) out,
          some st',
        ))
feed-unstuff st wire out cap sim inside room len =
    let bytes = All-append IsU8 wire _ (IsInside-IsU8 wire inside) flag-IsU8 in
    let (st', run, _) =
      feed_all_refines st (collecting false []) (wire ++ (flag ∷ [])) out cap sim bytes room len in
    let (last, reached, quiet) = collected wire false [] inside in
    (
      st',
      run
          ∙ ap (λ es. some (trace es out, some st'))
              (events-append (collecting false []) wire (flag ∷ [])
                ∙ rw (quiet, reached, events-one, event-flag) refl),
    )

stuff_byte-IsInside : (b : ℕ) → IsU8 b → All IsInside (stuff_byte b)
unfolding stuff_byte
stuff_byte-IsInside b hb = elim (Bool-cases (b == flag)) [
  | inl e ↦ rw ((==_iff b flag).0 e) ((omega arith, omega arith), ((omega arith, omega arith), tt))
  | inr n ↦ elim (Bool-cases (b == esc_byte)) [
    | inl e ↦
        rw ((==_iff b esc_byte).0 e) ((omega arith, omega arith), ((omega arith, omega arith), tt))
    | inr k ↦ rw (n, k) ((hb, ground arith), tt)
  ]
]

-- No flag is among what is stuffed.
pub stuff-IsInside : (bs : List ℕ) → All IsU8 bs → All IsInside (stuff bs)
unfolding stuff
stuff-IsInside [] h = tt
stuff-IsInside (b ∷ bs) (hb, h) =
    All-append IsInside (stuff_byte b) (stuff bs) (stuff_byte-IsInside b hb) (stuff-IsInside bs h)
