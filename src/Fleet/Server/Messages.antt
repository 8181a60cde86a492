-- ===== src/Fleet/Server/Messages.antt =====
-- The frames that the server builds, and how a frame goes out.
use sharak.Prelude.{
  value_or, ℕ, zero, suc, ◌+◌, ◌-◌, ◌%◌, ◌^◌, ◌≤◌, ◌<◌, ◌≡◌, ◌⊎◌, inl, inr, refl, ap, sym, ◌∙◌,
  arith, List, [], ◌∷◌, ◌++◌, append_assoc, append-nil, ℤ, pos, some, bind_some, if_then, load,
  load_hit, length, length-append, take, drop, take-append-drop, take-append_self, drop-append_self,
  length-take, length-drop, u32, Bool, true, false, ltb, leb, Bool-cases, ap₂, if◌then◌else◌,
  ltb→lt, bit_and, u16,
}
use sharak.Prelude.Bits.{bit_and_mask}
use sharak.Protocol.Wire.{payload_len, frame_max}
use sharak.Protocol.Frame.Stuff.{frame}
use sharak.Protocol.Frame.Whole.{sk_frame_encode_whole}
use sharak.Protocol.Payload.Pack.{accel_message}
use sharak.Protocol.Payload.Whole.{length-accel_message, sk_payload_pack_whole}
use sharak.Fleet.{wobble, Reading, fleet_sample, fleet_build_frame, encode_packed}
use sharak.Fleet.Server.{Os, count, is_negative, write_loop}

-- The wobble of the fleet's signal, and the message of a phase.
abbrev pub wobble_at : ℕ → ℤ
wobble_at k = value_or (pos 0) (load wobble (k % 8))

unfoldable pub fleet_message : ℕ → List ℕ
fleet_message phase =
    accel_message (phase % 2 ^ 16) (wobble_at phase) (wobble_at (phase + 2)) (pos 1000)

-- The messages of `k` phases from `phase` on, which wraps at 32 bits.
unfoldable pub fleet_messages : ℕ → ℕ → List (List ℕ)
fleet_messages phase zero = []
fleet_messages phase (suc k) = fleet_messages phase k ++ (fleet_message ((phase + k) % 2 ^ 32) ∷ [])

-- What `main` relies on: `opened` are the descriptors of the process, the newest first; `carried` is
-- what a client has been sent since it was accepted.
pub record IsSystem {W : Type 0} (os : Os W) : Type 0 where
  pub opened : W → List ℤ
  pub carried : W → ℤ → List ℕ
  pub socket_open :
      (w : W)
      → is_negative (os.socket w).0 ≡ false
      → opened (os.socket w).1 ≡ (os.socket w).0 ∷ opened w
  pub socket_fails :
      (w : W) → is_negative (os.socket w).0 ≡ true → opened (os.socket w).1 ≡ opened w
  pub reuse_open : (w : W) (fd : ℤ) → opened (os.set_reuse w fd) ≡ opened w
  pub bind_open : (w : W) (fd : ℤ) (port : ℕ) → opened (os.bind w fd port).1 ≡ opened w
  pub listen_open : (w : W) (fd : ℤ) → opened (os.listen w fd).1 ≡ opened w
  pub accept_open :
      (w : W) (srv : ℤ)
      → is_negative (os.accept w srv).0 ≡ false
      → opened (os.accept w srv).1 ≡ (os.accept w srv).0 ∷ opened w
  pub accept_fresh :
      (w : W) (srv : ℤ)
      → is_negative (os.accept w srv).0 ≡ false
      → carried (os.accept w srv).1 (os.accept w srv).0 ≡ []
  pub accept_fails :
      (w : W) (srv : ℤ)
      → is_negative (os.accept w srv).0 ≡ true
      → opened (os.accept w srv).1 ≡ opened w
  pub write_open : (w : W) (fd : ℤ) (bytes : List ℕ) → opened (os.write w fd bytes).1 ≡ opened w
  pub write_count : (w : W) (fd : ℤ) (bytes : List ℕ) → count (os.write w fd bytes).0 ≤ length bytes
  pub write_carried :
      (w : W) (fd : ℤ) (bytes : List ℕ)
      → carried (os.write w fd bytes).1 fd
        ≡ carried w fd ++ take (count (os.write w fd bytes).0) bytes
  pub close_open :
      (w : W) (fd : ℤ) (rest : List ℤ) → opened w ≡ fd ∷ rest → opened (os.close w fd) ≡ rest
  pub sleep_open : (w : W) (us : ℕ) → opened (os.usleep w us) ≡ opened w
  pub sleep_carried : (w : W) (us : ℕ) (fd : ℤ) → carried (os.usleep w us) fd ≡ carried w fd

carried_on :
    (Refused : Type 0) (whole : Bool) (sent1 before sent : List ℕ) (todo : List ℕ) (c : ℕ)
    → sent1 ≡ before ++ take c todo
    → ((whole ≡ false) × Refused) ⊎ ((whole ≡ true) × (sent ≡ sent1 ++ drop c todo))
    → ((whole ≡ false) × Refused) ⊎ ((whole ≡ true) × (sent ≡ before ++ todo))
carried_on Refused whole sent1 before sent todo c first (inl part) = inl part
carried_on Refused whole sent1 before sent todo c first (inr (all, e)) = inr (
  all,
  e
      ∙ (ap (λ t. t ++ drop c todo) first
          ∙ (append_assoc before (take c todo) (drop c todo)
              ∙ ap (λ t. before ++ t) (take-append-drop c todo))),
)

module _ {W : Type 0} (os : Os W) (system : IsSystem os) where
  -- A write of some bytes that takes none.
  abbrev pub Refused : ℤ → Type 0
  Refused cli =
      (w : W) × (b : ℕ) × (bs : List ℕ) × (ltb 0 (count (os.write w cli (b ∷ bs)).0) ≡ false)

  -- A round of the loop gives `write` all that is left.
  one_write :
      (fuel : ℕ) (cli : ℤ) (bytes todo : List ℕ) (n off : ℕ) (w : W)
      → take (n - off) (drop off bytes) ≡ todo
      → off < n
      → n ≤ length bytes
      → let (r, w1) = os.write w cli todo in
        write_loop os (suc fuel) cli bytes n off w ≡ (
          if ltb 0 (count r)
          then write_loop os fuel cli bytes n (off + count r) w1
          else some (false, w1))
  unfolding write_loop
  one_write fuel cli bytes todo n off w chunk more fits =
      let on : ltb off n ≡ true = ground arith in
      let inside : leb n (length bytes) ≡ true = ground arith in
      rw (on, inside)
        (ap
          (λ t.
            let (r, w1) = os.write w cli t in
            if ltb 0 (count r)
            then write_loop os fuel cli bytes n (off + count r) w1
            else some (false, w1))
          chunk)

  -- What is left of the frame goes out whole, or the client is gone.
  pub write_loop-carries :
      (fuel : ℕ) (cli : ℤ) (bytes done todo rest : List ℕ) (n off : ℕ) (w : W)
      → bytes ≡ done ++ (todo ++ rest)
      → off ≡ length done
      → n ≡ off + length todo
      → length todo < fuel
      → (whole : Bool) × (w' : W) × (write_loop os fuel cli bytes n off w ≡ some (whole, w'))
        × (system.opened w' ≡ system.opened w)
        × (((whole ≡ false) × Refused cli)
            ⊎ ((whole ≡ true) × (system.carried w' cli ≡ system.carried w cli ++ todo)))
  unfolding write_loop
  write_loop-carries zero cli bytes done todo rest n off w split at_off ends enough =
      absurd (omega arith)
  write_loop-carries (suc fuel) cli bytes done [] rest n off w split at_off ends enough =
      let over : ltb off n ≡ false = ground arith in
      (true, w, rw over refl, refl, inr (refl, sym (append-nil (system.carried w cli))))
  write_loop-carries (suc fuel) cli bytes done (t ∷ ts) rest n off w split at_off ends enough =
      let todo = t ∷ ts in
      let (r, w1) = os.write w cli todo in
      let c = count r in
      let behind : drop off bytes ≡ todo ++ rest =
        rw (split, at_off) (drop-append_self done (todo ++ rest)) in
      let left : n - off ≡ length todo = omega (arith, ends) in
      let chunk : take (n - off) (drop off bytes) ≡ todo =
        ap₂ take left behind ∙ take-append_self todo rest in
      let size : length bytes ≡ length done + (length todo + length rest) =
        ap length split
        ∙ (length-append done (todo ++ rest)
            ∙ ap (λ (k : ℕ). length done + k) (length-append todo rest)) in
      let one =
        one_write fuel cli bytes todo n off w chunk (omega (arith, ends))
          (omega (arith, size, at_off, ends)) in
      let at_most : c ≤ length todo = system.write_count w cli todo in
      elim (Bool-cases (ltb 0 c)) [
        | inl goes ↦
            let parted : bytes ≡ (done ++ take c todo) ++ (drop c todo ++ rest) =
              split
              ∙ (ap (λ t. done ++ (t ++ rest)) (sym (take-append-drop c todo))
                  ∙ (ap (λ t. done ++ t) (append_assoc (take c todo) (drop c todo) rest)
                      ∙ sym (append_assoc done (take c todo) (drop c todo ++ rest)))) in
            let taken : length (take c todo) ≡ c = omega (arith, length-take c todo, at_most) in
            let some_sent : 0 < c = ltb→lt 0 c goes in
            let (whole, w', run, same, sent) =
              write_loop-carries fuel cli bytes (done ++ take c todo) (drop c todo) rest n (off + c)
                w1 parted (omega (arith, length-append done (take c todo), taken, at_off))
                (omega (arith, length-drop c todo, at_most, ends))
                (omega (arith, length-drop c todo, some_sent, enough)) in
            (
              whole,
              w',
              one ∙ if_then _ goes run,
              same ∙ system.write_open w cli todo,
              carried_on (Refused cli) whole (system.carried w1 cli) (system.carried w cli)
                  (system.carried w' cli) todo c (system.write_carried w cli todo) sent,
            )
        | inr gone ↦ (
          false,
          w1,
          one ∙ rw gone refl,
          system.write_open w cli todo,
          inl (refl, (w, t, ts, gone)),
        )
      ]

-- A phase's frame is built in the local buffers.
pub build-frame :
    (phase : ℕ) (payload buf : List ℕ)
    → length payload ≡ payload_len
    → length buf ≡ frame_max
    → let msg = fleet_message phase in
      (r : Reading) × (rest : List ℕ) × (fleet_sample phase ≡ some r)
      × (fleet_build_frame payload r.seq r.x_mg r.y_mg r.z_mg (some buf) frame_max
          ≡ some (pos (length (frame msg)), some (frame msg ++ rest)))
unfolding fleet_sample fleet_message fleet_build_frame encode_packed
build-frame phase payload buf size room =
    let (x, at_x) = load_hit wobble (phase % 8) (omega arith) in
    let (y, at_y) = load_hit wobble ((phase + 2) % 8) (omega arith) in
    let seq = u16 (bit_and phase 0xffff) in
    let msg = accel_message seq x y (pos 1000) in
    let same_seq : seq ≡ phase % 2 ^ 16 = omega (arith, bit_and_mask 16 phase) in
    let at_y' : load wobble (u32 (phase + 2) % 8) ≡ some y =
      ap (load wobble) (omega arith) ∙ at_y in
    let same : msg ≡ fleet_message phase =
      ap (λ t. accel_message t x y (pos 1000)) same_seq
      ∙ ap₂ (λ u v. accel_message (phase % 2 ^ 16) u v (pos 1000))
          (sym (ap (value_or (pos 0)) at_x)) (sym (ap (value_or (pos 0)) at_y)) in
    let packed = sk_payload_pack_whole payload seq x y (pos 1000) size in
    let encoded = sk_frame_encode_whole msg buf (length-accel_message seq x y (pos 1000)) room in
    let tail = drop (length (frame (fleet_message phase))) buf in
    (
      record { seq = seq; x_mg = x; y_mg = y; z_mg = pos 1000 },
      tail,
      bind_some _ at_x (bind_some _ at_y' refl),
      bind_some _ packed (
          encoded
          ∙ ap (λ t. some (pos (length (frame t)), some (frame t ++ drop (length (frame t)) buf)))
              same),
    )
