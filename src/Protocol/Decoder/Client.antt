-- ===== src/Protocol/Decoder/Client.antt =====
-- A program that calls the decoder in any order, against the same calls on the machine.
use sharak.Prelude.{
  ◌∙◌, ap, ℕ, ◌≡◌, refl, List, [], ◌∷◌, ℤ, Ptr, Run, some, ◌>>=◌, bind_some, length, IsU8, All,
}
use sharak.Protocol.Decoder.Machine.{collecting, Machine, hunting, event, step}
use sharak.Protocol.Wire.{frame_inner}
use sharak.Protocol.Decoder.{Decoder, sk_decoder_init, sk_decoder_feed}
use sharak.Protocol.Decoder.Accumulate.{Simulates}
use sharak.Protocol.Decoder.Answer.{HasRoom, answer}
use sharak.Protocol.Decoder.Refine.{init-Simulates, sk_decoder_feed-Simulates}

-- One call: the decoder is set up again, or is fed a byte with an output of the caller's choice.
pub data Call : Type 0 where
  set_up : Call
  feed : ℕ → Ptr (List ℕ) → ℕ → Call

-- What the caller owes: bytes, and no more capacity than the output has.
abbrev pub IsLegal : Call → Type 0
IsLegal set_up = Unit
IsLegal (feed byte out cap) = IsU8 byte × HasRoom out cap

-- The calls on a decoder: the return value and the output of each `sk_decoder_feed`.
unfoldable pub run_calls : Ptr Decoder → List Call → Run (List (ℤ × Ptr (List ℕ)) × Ptr Decoder)
unfolding sk_decoder_feed sk_decoder_init
run_calls st [] = some ([], st)
run_calls st (set_up ∷ calls) = run_calls (sk_decoder_init st) calls
run_calls st (feed byte out cap ∷ calls) = do
  (r, st', out') ← sk_decoder_feed st byte out cap
  (rs, end) ← run_calls st' calls
  some ((r, out') ∷ rs, end)

-- The same calls on the machine.
unfoldable pub replay : Machine → List Call → List (ℤ × Ptr (List ℕ))
unfolding event step answer
replay m [] = []
replay m (set_up ∷ calls) = replay hunting calls
replay m (feed byte out cap ∷ calls) = answer (event m byte) out cap ∷ replay (step m byte) calls

unfoldable pub replayed : Machine → List Call → Machine
unfolding step
replayed m [] = m
replayed m (set_up ∷ calls) = replayed hunting calls
replayed m (feed byte out cap ∷ calls) = replayed (step m byte) calls

Simulates-size : (st : Decoder) (m : Machine) → Simulates st m → length st.buf ≡ frame_inner
Simulates-size st hunting (hf, hl) = hl
Simulates-size st (collecting esc bs) (hf, he, ho, hc, hl, ht, hb) = hl

run_calls-replay :
    (calls : List Call) (st : Decoder) (m : Machine)
    → Simulates st m
    → All IsLegal calls
    → (end : Decoder) × (run_calls (some st) calls ≡ some (replay m calls, some end))
      × Simulates end (replayed m calls)
unfolding run_calls replay replayed
run_calls-replay [] st m sim legal = (st, refl, sim)
run_calls-replay (set_up ∷ calls) st m sim (_, legal) =
    let (fresh, init, sim1) = init-Simulates st (Simulates-size st m sim) in
    let (end, run, sim') = run_calls-replay calls fresh hunting sim1 legal in
    (end, ap (λ t. run_calls t calls) init ∙ run, sim')
run_calls-replay (feed byte out cap ∷ calls) st m sim ((hbyte, room), legal) =
    let (st1, one, sim1) = sk_decoder_feed-Simulates st m byte out cap sim hbyte room in
    let (end, run, sim') = run_calls-replay calls st1 (step m byte) sim1 legal in
    (end, bind_some _ one (bind_some _ run refl), sim')

-- Any program that sets the decoder up first, whatever its memory held, and then calls
-- `sk_decoder_init` and `sk_decoder_feed` in any order, with any bytes and with outputs that are
-- NULL or have the stated capacity, a new one for each call: no call makes an access out of range,
-- and each returns and writes what the same program gets from the machine that starts hunting. A
-- bad escape among the bytes is not reported, where REQ-PR-006 asks for an error code: the machine
-- has no event for one.
pub decoder_client :
    (st : Decoder) (calls : List Call)
    → length st.buf ≡ frame_inner
    → All IsLegal calls
    → (end : Decoder) × (run_calls (some st) (set_up ∷ calls)
        ≡ some (replay hunting calls, some end))
      × Simulates end (replayed hunting calls)
unfolding run_calls
decoder_client st calls size legal =
    let (fresh, init, sim) = init-Simulates st size in
    let (end, run, sim') = run_calls-replay calls fresh hunting sim legal in
    (end, ap (λ t. run_calls t calls) init ∙ run, sim')
