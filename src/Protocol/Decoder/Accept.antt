-- ===== src/Protocol/Decoder/Accept.antt =====
-- Which frames are accepted, by the bytes that are collected between two flags, escapes taken off:
-- exactly those whose last two bytes are the checksum of the rest. So a difference within two
-- neighbouring ones of these bytes is always noticed.
use native.Mathlib.Decide.{dec_lt, ℕ_discrete}
use mathlib.Core.Path.{subst}
use sharak.Prelude.{
  ap₂, All-append, ℕ, ◌+◌, ◌*◌, ◌/◌, ◌%◌, ◌^◌, ◌≤◌, ◌<◌, ◌≡◌, ◌≢◌, ◌↔◌, ◌⊎◌, ap, sym, ◌∙◌, arith,
  List, [], ◌∷◌, ◌++◌, length, length-append, last_two, All, All-append_iff, IsU8, ==_iff, ◌==◌,
  if◌then◌else◌, Bool-cases, inl, inr,
}
use sharak.Protocol.Wire.{frame_inner}
use sharak.Protocol.Crc.Fold.{crc_of}
use sharak.Protocol.Crc.Residue.{crc_of-IsU16, crc_residue}
use sharak.Protocol.Crc.Errors.{crc_detects_pair}
use sharak.Protocol.Frame.Stuff.{sealed, sealed-IsU8, trailer}
use sharak.Protocol.Decoder.Machine.{message, err_crc, verdict}
use sharak.Protocol.Decoder.Verdict.{verdict_oflow, verdict_short, verdict_checked}
use sharak.Protocol.Decoder.Stream.{IsMessage, sealed-message}

-- The verdict by the residue of a frame's bytes.
abbrev Judged : List ℕ → Type 0
Judged bs =
    (crc_of bs ≡ 0 → (ps : List ℕ) × (verdict bs ≡ message ps) × (bs ≡ sealed ps) × IsMessage ps)
    × (crc_of bs ≢ 0 → verdict bs ≡ err_crc)

judge : (ps : List ℕ) (h l : ℕ) → IsMessage ps → IsU8 h → IsU8 l → Judged (ps ++ (h ∷ l ∷ []))
judge ps h l (lo, hi) hh hl = (
  λ e.
      let c : crc_of ps ≡ word = r.0 e in
      (
        ps,
        v ∙ rw ((==_iff (crc_of ps) word).1 c),
        ap₂ (λ (x y : ℕ). ps ++ (x ∷ y ∷ [])) (omega (arith, c)) (omega (arith, c)),
        (lo, hi),
      ),
  λ n. elim (Bool-cases (crc_of ps == word)) [
    | inl e ↦ absurd (n (r.1 ((==_iff (crc_of ps) word).0 e)))
    | inr e ↦ v ∙ rw e
  ],
)
  where
    word : ℕ
    word = h * 2 ^ 8 + l

    r : (crc_of (ps ++ (h ∷ l ∷ [])) ≡ 0) ↔ (crc_of ps ≡ word)
    r = crc_residue ps h l hh hl

    v : verdict (ps ++ (h ∷ l ∷ [])) ≡ (if crc_of ps == word then message ps else err_crc)
    v = verdict_checked ps h l lo hi hh hl

-- Every frame of 8 to 18 bytes is judged so.
pub verdict-Judged :
    (bs : List ℕ)
    → 8 ≤ length bs
    → length bs ≤ 18
    → All IsU8 bs
    → (crc_of bs ≡ 0 → (ps : List ℕ) × (verdict bs ≡ message ps) × (bs ≡ sealed ps) × IsMessage ps)
      × (crc_of bs ≢ 0 → verdict bs ≡ err_crc)
verdict-Judged bs lo hi hb =
    let (ps, h, l, split) = last_two bs (omega arith) in
    let size : length bs ≡ length ps + 2 = ap length split ∙ length-append ps (h ∷ l ∷ []) in
    let bytes = (All-append_iff IsU8 ps (h ∷ l ∷ []) (subst (All IsU8) split hb)).1 in
    subst Judged (sym split)
      (judge ps h l (omega (arith, size), omega (arith, size)) bytes.0 bytes.1.0)

message-injective : {ps qs : List ℕ} → message ps ≡ message qs → ps ≡ qs
message-injective e = cc

accepted :
    (bs ps : List ℕ)
    → All IsU8 bs
    → 0 < length bs
    → verdict bs ≡ message ps
    → (bs ≡ sealed ps) × IsMessage ps
accepted bs ps hb some_byte e = elim (dec_lt frame_inner (length bs)) [
  | yes over ↦ cc (verdict_oflow bs over)
  | no fits ↦ elim (dec_lt (length bs) 8) [
    | yes short ↦ cc (verdict_short bs some_byte short)
    | no long ↦
        let (good, bad) = verdict-Judged bs (omega arith) (omega arith) hb in
        elim (ℕ_discrete (crc_of bs) 0) [
          | yes z ↦
              let (qs, v, whole, size) = good z in
              let same : qs ≡ ps = message-injective (sym v ∙ e) in
              subst (λ t. (bs ≡ sealed t) × IsMessage t) same (whole, size)
          | no n ↦ cc (bad n)
        ]
  ]
]

-- The decoder accepts the bytes between two flags as the message `ps` exactly when they are `ps`
-- with its checksum behind it, and `ps` has 6 to 16 bytes.
pub verdict-message_iff :
    (bs ps : List ℕ) → All IsU8 bs → (verdict bs ≡ message ps) ↔ ((bs ≡ sealed ps) × IsMessage ps)
verdict-message_iff [] ps hb = (
  λ e. unfold verdict in cc e,
  λ h. absurd (omega (arith, ap length h.0, length-append ps (trailer ps))),
)
verdict-message_iff (b ∷ bs) ps hb =
    (accepted (b ∷ bs) ps hb (omega arith), λ h. ap verdict h.0 ∙ sealed-message ps h.1)

sealed-residue : (msg : List ℕ) → crc_of (sealed msg) ≡ 0
sealed-residue msg =
    (crc_residue msg (crc_of msg / 2 ^ 8 % 256) (crc_of msg % 256) (omega arith) (omega arith)).1
      (omega (arith, crc_of-IsU16 msg))

-- Any bytes of the length of what was sent, with another residue.
pub verdict_residue :
    (msg bad : List ℕ)
    → IsMessage msg
    → length bad ≡ length (sealed msg)
    → All IsU8 bad
    → crc_of (sealed msg) ≢ crc_of bad
    → verdict bad ≡ err_crc
verdict_residue msg bad (lo, hi) size bytes differs =
    let total = length-append msg (trailer msg) in
    (verdict-Judged bad (omega (arith, total)) (omega (arith, total)) bytes).1
      (λ z. differs (sealed-residue msg ∙ sym z))

-- A frame whose bytes differ from what was sent in one byte or in two neighbouring ones, of the
-- message or of its checksum, is answered with a checksum error.
pub verdict_corrupted :
    (msg pre post : List ℕ) (a b a' b' : ℕ)
    → IsMessage msg
    → All IsU8 msg
    → IsU8 a'
    → IsU8 b'
    → sealed msg ≡ pre ++ (a ∷ b ∷ post)
    → (a ≢ a') ⊎ (b ≢ b')
    → verdict (pre ++ (a' ∷ b' ∷ post)) ≡ err_crc
verdict_corrupted msg pre post a b a' b' (lo, hi) hm ha' hb' sent differs =
    (verdict-Judged bad (omega (arith, size)) (omega (arith, size))
        (All-append IsU8 pre _ good.0 (ha', (hb', good.1.1.1)))).1
      λ z.
        clash
          (crc_detects_pair pre post a b a' b' good.1.0 good.1.1.0 ha' hb'
            (sym (ap crc_of sent) ∙ (sealed-residue msg ∙ sym z)))
          differs
  where
    bad : List ℕ
    bad = pre ++ (a' ∷ b' ∷ post)

    size : length bad ≡ length msg + 2
    size = omega (
      arith,
      length-append pre (a' ∷ b' ∷ post),
      length-append pre (a ∷ b ∷ post),
      ap length sent,
      length-append msg (trailer msg),
    )

    good : All IsU8 pre × All IsU8 (a ∷ b ∷ post)
    good = All-append_iff IsU8 pre (a ∷ b ∷ post) (subst (All IsU8) sent (sealed-IsU8 msg hm))

    clash : (a ≡ a') × (b ≡ b') → (a ≢ a') ⊎ (b ≢ b') → ⊥
    clash e (inl n) = n e.0
    clash e (inr n) = n e.1
