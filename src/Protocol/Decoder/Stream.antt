-- ===== src/Protocol/Decoder/Stream.antt =====
-- The machine on the wire format: what a stream of frames makes it deliver.
use sharak.Prelude.{
  ℕ, suc, ◌+◌, ◌*◌, ◌/◌, ◌%◌, ◌^◌, ◌≤◌, ◌≡◌, refl, ap, sym, ◌∙◌, arith, List, [], ◌∷◌, ◌++◌,
  append_assoc, append-nil, length, length-append, replicate, All, ==_iff, ◌==◌, Bool, false,
  Bool-cases, inl, inr, zero,
}
use sharak.Protocol.Decoder.Machine.{
  step-flag, Machine, collecting, Event, more, message, err_len, err_crc, err_oflow, verdict, event,
  step, events, after,
}
use sharak.Protocol.Wire.{flag, esc_byte, payload_min, payload_max}
use sharak.Protocol.Crc.Fold.{crc_of}
use sharak.Protocol.Crc.Residue.{crc_of-IsU16}
use sharak.Protocol.Frame.Stuff.{stuff_byte, stuff, frame, sealed}
use sharak.Protocol.Decoder.Verdict.{verdict_checked}

pub events-cons :
    (m : Machine) (b : ℕ) (bs : List ℕ) → events m (b ∷ bs) ≡ event m b ∷ events (step m b) bs
unfolding events
events-cons m b bs = refl

pub events-one : (m : Machine) (b : ℕ) → events m (b ∷ []) ≡ event m b ∷ []
unfolding events
events-one m b = refl

after-cons : (m : Machine) (b : ℕ) (bs : List ℕ) → after m (b ∷ bs) ≡ after (step m b) bs
unfolding after
after-cons m b bs = refl

after-one : (m : Machine) (b : ℕ) → after m (b ∷ []) ≡ step m b
unfolding after
after-one m b = refl

pub event-flag : (esc : Bool) (bs : List ℕ) → event (collecting esc bs) flag ≡ verdict bs
unfolding event
event-flag esc bs = refl

pub events-append :
    (m : Machine) (xs ys : List ℕ) → events m (xs ++ ys) ≡ events m xs ++ events (after m xs) ys
unfolding events after
events-append m [] ys = refl
events-append m (x ∷ xs) ys = ap (λ t. event m x ∷ t) (events-append (step m x) xs ys)

pub after-append : (m : Machine) (xs ys : List ℕ) → after m (xs ++ ys) ≡ after (after m xs) ys
unfolding after
after-append m [] ys = refl
after-append m (x ∷ xs) ys = after-append (step m x) xs ys

-- The messages among the events.
unfoldable pub delivered : List Event → List (List ℕ)
delivered [] = []
delivered (message bs ∷ es) = bs ∷ delivered es
delivered (_ ∷ es) = delivered es

pub delivered-append : (xs ys : List Event) → delivered (xs ++ ys) ≡ delivered xs ++ delivered ys
unfolding delivered
delivered-append [] ys = refl
delivered-append (message bs ∷ xs) ys = ap (λ t. bs ∷ t) (delivered-append xs ys)
delivered-append (more ∷ xs) ys = delivered-append xs ys
delivered-append (err_len ∷ xs) ys = delivered-append xs ys
delivered-append (err_crc ∷ xs) ys = delivered-append xs ys
delivered-append (err_oflow ∷ xs) ys = delivered-append xs ys

-- A stuffed byte is collected as the byte that it stands for, and makes no event.
stuffed_byte :
    (b : ℕ) (bs : List ℕ)
    → (after (collecting false bs) (stuff_byte b) ≡ collecting false (bs ++ (b ∷ [])))
      × (events (collecting false bs) (stuff_byte b) ≡ replicate (length (stuff_byte b)) more)
unfolding stuff_byte after events step event
stuffed_byte b bs = elim (Bool-cases (b == flag)) [
  | inl e ↦ rw ((==_iff b flag).0 e) (refl, refl)
  | inr n ↦ elim (Bool-cases (b == esc_byte)) [
    | inl e ↦ rw ((==_iff b esc_byte).0 e) (refl, refl)
    | inr k ↦ rw (n, k) (rw (n, k), rw n)
  ]
]

replicate-append : (m n : ℕ) (e : Event) → replicate m e ++ replicate n e ≡ replicate (m + n) e
replicate-append zero n e = ap (λ (t : ℕ). replicate t e) (omega arith)
replicate-append (suc m) n e =
    ap (λ t. e ∷ t) (replicate-append m n e) ∙ ap (λ (t : ℕ). replicate t e) (reach m)
  where
    reach : (k : ℕ) → suc (k + n) ≡ suc k + n
    reach k = omega arith

pub stuffed :
    (xs bs : List ℕ)
    → (after (collecting false bs) (stuff xs) ≡ collecting false (bs ++ xs))
      × (events (collecting false bs) (stuff xs) ≡ replicate (length (stuff xs)) more)
unfolding stuff
stuffed [] bs = unfold after events in (ap (collecting false) (sym (append-nil bs)), refl)
stuffed (x ∷ xs) bs =
    let (here_a, here_e) = stuffed_byte x bs in
    let (rest_a, rest_e) = stuffed xs (bs ++ (x ∷ [])) in
    (
      after-append _ (stuff_byte x) (stuff xs)
          ∙ rw here_a (rest_a ∙ ap (collecting false) (append_assoc bs (x ∷ []) xs)),
      events-append _ (stuff_byte x) (stuff xs)
          ∙ rw (here_e, here_a, rest_e)
              (replicate-append (length (stuff_byte x)) (length (stuff xs)) more
                ∙ ap (λ (t : ℕ). replicate t more) (sym (length-append (stuff_byte x) (stuff xs)))),
    )

-- A message that a frame can carry.
abbrev pub IsMessage : List ℕ → Type 0
IsMessage bs = (payload_min ≤ length bs) × (length bs ≤ payload_max)

pub sealed-message : (bs : List ℕ) → IsMessage bs → verdict (sealed bs) ≡ message bs
sealed-message bs (lo, hi) =
    verdict_checked bs (crc_of bs / 2 ^ 8 % 256) (crc_of bs % 256) lo hi (omega arith) (omega arith)
    ∙ rw (
        (==_iff (crc_of bs) (crc_of bs / 2 ^ 8 % 256 * 2 ^ 8 + crc_of bs % 256)).1
          (omega (arith, crc_of-IsU16 bs)))

-- From any state, a frame makes the event of its opening flag, then none until its closing flag,
-- which delivers the message; the machine is left at the start of a frame.
pub events-frame :
    (m : Machine) (bs : List ℕ)
    → IsMessage bs
    → (events m (frame bs)
        ≡ event m flag ∷ (replicate (length (stuff (sealed bs))) more ++ (message bs ∷ [])))
      × (after m (frame bs) ≡ collecting false [])
unfolding frame
events-frame m bs h =
    let (inside, quiet) = stuffed (sealed bs) [] in
    let body = stuff (sealed bs) in
    rw
      (
        events-cons m flag (body ++ (flag ∷ [])),
        after-cons m flag (body ++ (flag ∷ [])),
        step-flag m,
      )
      (
        ap (λ t. event m flag ∷ t)
            (events-append (collecting false []) body (flag ∷ [])
              ∙ rw (quiet, inside, events-one, event-flag)
                  (ap (λ e. replicate (length body) more ++ (e ∷ [])) (sealed-message bs h))),
        after-append (collecting false []) body (flag ∷ [])
            ∙ rw (inside, after-one (collecting false (sealed bs)) flag)
                (step-flag (collecting false (sealed bs))),
      )

delivered-replicate : (n : ℕ) → delivered (replicate n more) ≡ []
unfolding delivered
delivered-replicate zero = refl
delivered-replicate (suc n) = delivered-replicate n

-- The frames of several messages, one behind the other.
unfoldable pub frames : List (List ℕ) → List ℕ
frames [] = []
frames (p ∷ ps) = frame p ++ frames ps

pub frames-append :
    (ps : List (List ℕ)) (p : List ℕ) → frames (ps ++ (p ∷ [])) ≡ frames ps ++ frame p
unfolding frames
frames-append [] p = append-nil (frame p)
frames-append (q ∷ ps) p =
    ap (λ t. frame q ++ t) (frames-append ps p) ∙ sym (append_assoc (frame q) (frames ps) (frame p))

pub frame-delivered :
    (m : Machine) (bs : List ℕ)
    → IsMessage bs
    → delivered (events m (frame bs)) ≡ delivered (event m flag ∷ []) ++ (bs ∷ [])
frame-delivered m bs h =
    ap delivered (events-frame m bs h).0
    ∙ (delivered-append (event m flag ∷ [])
          (replicate (length (stuff (sealed bs))) more ++ (message bs ∷ []))
        ∙ ap (λ t. delivered (event m flag ∷ []) ++ t)
            (delivered-append (replicate (length (stuff (sealed bs))) more) (message bs ∷ [])
              ∙ rw (delivered-replicate (length (stuff (sealed bs)))) (unfold delivered in refl)))

-- Messages that were framed one behind the other are delivered in order, each once, with nothing
-- between them.
pub frames-delivered :
    (ps : List (List ℕ))
    → All IsMessage ps
    → delivered (events (collecting false []) (frames ps)) ≡ ps
unfolding frames
frames-delivered [] h = unfold events delivered in refl
frames-delivered (p ∷ ps) (hp, hps) =
    ap delivered (events-append (collecting false []) (frame p) (frames ps))
    ∙ (delivered-append (events (collecting false []) (frame p))
          (events (after (collecting false []) (frame p)) (frames ps))
        ∙ rw
            (
              frame-delivered (collecting false []) p hp,
              (events-frame (collecting false []) p hp).1,
              frames-delivered ps hps,
            )
            (unfold event verdict delivered in refl))
