-- ===== src/Protocol/Decoder/Resync.antt =====
-- Frames behind any bytes, and from the start of the stream.
use sharak.Prelude.{ℕ, ◌≡◌, refl, ap, sym, ◌∙◌, List, [], ◌∷◌, ◌++◌, append_assoc, All}
use sharak.Protocol.Decoder.Machine.{hunting, Machine, event, events, after}
use sharak.Protocol.Wire.{flag}
use sharak.Protocol.Frame.Stuff.{frame}
use sharak.Protocol.Decoder.Stream.{
  events-append, events-one, delivered, delivered-append, IsMessage, events-frame, frames,
  frame-delivered, frames-delivered,
}

-- Resynchronisation: after any bytes at all, all the messages framed behind them are delivered.
-- What is delivered besides comes from those bytes, at the latest at the first flag.
pub resynchronises :
    (m : Machine) (noise : List ℕ) (p : List ℕ) (ps : List (List ℕ))
    → IsMessage p
    → All IsMessage ps
    → delivered (events m (noise ++ (frame p ++ frames ps)))
      ≡ delivered (events m (noise ++ (flag ∷ []))) ++ (p ∷ ps)
resynchronises m noise p ps hp hps =
    let m' = after m noise in
    let before = delivered (events m noise) in
    let opening = delivered (event m' flag ∷ []) in
    ap delivered (
      events-append m noise (frame p ++ frames ps)
      ∙ ap (λ t. events m noise ++ t) (events-append m' (frame p) (frames ps)))
    ∙ (delivered-append (events m noise)
          (events m' (frame p) ++ events (after m' (frame p)) (frames ps))
        ∙ (ap (λ t. before ++ t)
              (delivered-append (events m' (frame p)) (events (after m' (frame p)) (frames ps))
                ∙ rw (frame-delivered m' p hp, (events-frame m' p hp).1, frames-delivered ps hps)
                    (append_assoc opening (p ∷ []) ps))
            ∙ (sym (append_assoc before opening (p ∷ ps))
                ∙ ap (λ t. t ++ (p ∷ ps))
                    (sym (
                      ap delivered (events-append m noise (flag ∷ []))
                      ∙ rw (events-one m' flag)
                          (delivered-append (events m noise) (event m' flag ∷ [])))))))

opening-delivered : delivered (events hunting (flag ∷ [])) ≡ []
unfolding delivered events event
opening-delivered = refl

-- From the start of the stream, the messages that were framed one behind the other are delivered.
pub frames-delivered_hunting :
    (ps : List (List ℕ)) → All IsMessage ps → delivered (events hunting (frames ps)) ≡ ps
unfolding frames
frames-delivered_hunting [] h = unfold events delivered in refl
frames-delivered_hunting (p ∷ ps) (hp, hps) =
    resynchronises hunting [] p ps hp hps ∙ ap (λ t. t ++ (p ∷ ps)) opening-delivered
