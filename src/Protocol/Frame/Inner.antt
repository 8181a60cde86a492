-- ===== src/Protocol/Frame/Inner.antt =====
-- What the encoder makes in its local array: the message and its checksum.
use mathlib.Core.List.{map-append}
use sharak.Prelude.{
  ℕ, ◌+◌, ◌/◌, ◌%◌, ◌^◌, ◌≤◌, ◌≡◌, ap, ◌∙◌, arith, List, [], ◌∷◌, ◌++◌, append_assoc, map, length,
  length-append, length-map, length-take, length-drop, take, drop, drop-drop, some, ◌>>=◌,
  bind_some, Locals, store, Run, u8, bit_and, ◌>>>◌,
}
use sharak.Prelude.Bits.{bit_and_mask}
use sharak.Protocol.Crc.{crc16_ccitt_false}
use sharak.Protocol.Crc.Fold.{crc_of, crc16-crc_of}
use sharak.Protocol.Frame.{copy_loop}
use sharak.Protocol.Frame.Stuff.{sealed, trailer}
use sharak.Protocol.Frame.Loops.{copy_loop_lem, store_next}

-- The checksum bytes as they are stored.
hi_byte : (c : ℕ) → u8 (bit_and (c >>> 8) 0xff) ≡ c / 2 ^ 8 % 256
hi_byte c = omega (arith, bit_and_mask 8 (c / 2 ^ 8))

lo_byte : (c : ℕ) → u8 (bit_and c 0xff) ≡ c % 256
lo_byte c = omega (arith, bit_and_mask 8 c)

pub length-sealed : (bs : List ℕ) → length (sealed bs) ≡ length bs + 2
length-sealed bs = length-append bs (trailer bs)

-- The part of the encoder before the stuffing loop: from `blank` cells it makes the message and
-- its checksum, with cells behind them that were not written.
pub fill_inner :
    {B : Type 0} (payload : List ℕ) (plen : ℕ) (blank : Locals) (k : Locals → Run B)
    → plen ≤ length payload
    → plen + 2 ≤ length blank
    → (do
      copied ← copy_loop payload plen 0 blank
      crc ← crc16_ccitt_false (some payload) plen
      with_hi ← store copied plen (some (u8 (bit_and (crc >>> 8) 0xff)))
      full ← store with_hi (plen + 1) (some (u8 (bit_and crc 0xff)))
      k full)
      ≡ k (map some (sealed (take plen payload)) ++ drop 2 (drop plen blank))
fill_inner payload plen blank k fits room =
    bind_some _ (copy_loop_lem payload plen 0 blank (omega arith) (omega arith) ∙ from_zero) (
      bind_some _ (crc16-crc_of payload plen fits) (
        bind_some _
          (store_next (map some msg) rest plen (some hi) at_hi
            (omega (arith, length-drop plen blank)))
          (bind_some _
            (store_next (map some msg ++ (some hi ∷ [])) (drop 1 rest) (plen + 1) (some lo) at_lo
              (omega (arith, length-drop 1 rest, length-drop plen blank)))
            (ap k joined))))
  where
    msg : List ℕ
    msg = take plen payload

    rest : Locals
    rest = drop plen blank

    hi : ℕ
    hi = u8 (bit_and (crc_of msg >>> 8) 0xff)

    lo : ℕ
    lo = u8 (bit_and (crc_of msg) 0xff)

    hi' : ℕ
    hi' = crc_of msg / 2 ^ 8 % 256

    lo' : ℕ
    lo' = crc_of msg % 256

    from_zero :
        ◌≡◌ {A = Run Locals}
          (some (map some (take (0 + plen) payload) ++ rest))
          (some (map some msg ++ rest))
    from_zero = ap (λ (t : ℕ). some (map some (take t payload) ++ rest)) {y = plen} (omega arith)

    at_hi : plen ≡ length (map some msg)
    at_hi = omega (arith, length-map msg (λ (x : ℕ). some x), length-take plen payload)

    at_lo : plen + 1 ≡ length (map some msg ++ (some hi ∷ []))
    at_lo = omega (arith, at_hi, length-append (map some msg) (some hi ∷ []))

    joined :
        ((map some msg ++ (some hi ∷ [])) ++ (some lo ∷ [])) ++ drop 1 (drop 1 rest)
        ≡ map some (sealed msg) ++ drop 2 rest
    joined =
        rw (hi_byte (crc_of msg), lo_byte (crc_of msg))
          (simp (append_assoc, map-append)
            (ap (λ (t : Locals). map some msg ++ (some hi' ∷ some lo' ∷ t)) (drop-drop 1 1 rest)))
