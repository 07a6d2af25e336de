-- ===== src/E1000/Send/Laws.antt =====
-- src/drivers/intel_e1000.c: packets take the descriptors of the transmit ring in order.
use mathlib.Core.Path.{subst}
use aijak.Common.{
  ◌-◌, ◌^◌, u16, sub32, ℕ, zero, suc, ◌+◌, ◌%◌, ◌≤◌, ◌<◌, ◌≡◌, ◌≢◌, refl, sym, ap, ◌∙◌, arith, true,
  Option, none, some, List, [], ◌∷◌, length, ◌==◌, first_branch, second_branch, Bool-cases, inl,
  inr,
}
use aijak.Common.Bits.{bit_and-mod}
use aijak.Ports.{Hardware}
use aijak.Net.Buffers.{Pool, release_buf}
use aijak.E1000.{TransDesc, EthIntelDevice, Receiver, State}
use aijak.E1000.Ring.{set_desc-cases}
use aijak.E1000.Send.{
  is_sent, wait_loop, frame_desc, release_old, tx_setup, put_frame, eth_intel_send, send_then,
  send_all,
}

-- The next `k` descriptors from `w` on were sent.
abbrev pub Sent : EthIntelDevice → ℕ → ℕ → Type 0
Sent d w zero = Unit
Sent d w (suc k) = (is_sent (d.tx_descs w).status ≡ true) × Sent d ((w + 1) % 8) k

-- From `w` on the descriptors of the ring were written for the packets in `bufs`.
abbrev Written : Pool → EthIntelDevice → ℕ → List ℕ → Type 0
Written p d w [] = Unit
Written p d w (buf ∷ bufs) =
    (d.tx_descs w ≡ frame_desc p buf) × (d.tx_bufs w ≡ buf) × Written p d ((w + 1) % 8) bufs

-- The packets have their ends behind their starts, and a length of 16 bits.
abbrev pub Proper : Pool → List ℕ → Type 0
Proper p [] = Unit
Proper p (buf ∷ bufs) =
    ((p.start buf ≤ p.end buf) × (p.end buf < p.start buf + 2 ^ 16) × (p.end buf < 2 ^ 32))
    × Proper p bufs

-- From `w` on the ring carries the packets: a descriptor begins at the start of its packet, reaches to
-- its end, has the bits 0 (end of packet), 1 (insert checksum) and 3 (report status) of the command
-- set, and is not marked as sent; and the buffer stands beside it.
abbrev pub Carries : Pool → EthIntelDevice → ℕ → List ℕ → Type 0
Carries p d w [] = Unit
Carries p d w (buf ∷ bufs) =
    ((d.tx_descs w).addr ≡ p.start buf)
    × ((d.tx_descs w).addr + (d.tx_descs w).len ≡ p.end buf)
    × ((d.tx_descs w).cmd ≡ 2 ^ 0 + 2 ^ 1 + 2 ^ 3)
    × ((d.tx_descs w).status ≡ 0)
    × (d.tx_bufs w ≡ buf)
    × Carries p d ((w + 1) % 8) bufs

Written-Carries :
    (p : Pool) (d : EthIntelDevice) (w : ℕ) (bufs : List ℕ)
    → Proper p bufs
    → Written p d w bufs
    → Carries p d w bufs
Written-Carries p d w [] fit h = tt
Written-Carries p d w (buf ∷ bufs) fit h =
    let long : u16 (sub32 (p.end buf) (p.start buf)) ≡ p.end buf - p.start buf =
      omega (arith, fit.0.0, fit.0.1, fit.0.2) in
    let reach : p.start buf + u16 (sub32 (p.end buf) (p.start buf)) ≡ p.end buf =
      omega (arith, long, fit.0.0) in
    (
      ap (λ (x : TransDesc). x.addr) h.0,
      ap (λ (x : TransDesc). x.addr + x.len) h.0 ∙ reach,
      ap (λ (x : TransDesc). x.cmd) h.0,
      ap (λ (x : TransDesc). x.status) h.0,
      h.1,
      Written-Carries p d ((w + 1) % 8) bufs fit.1 h.2,
    )

Written-same :
    (p q : Pool) (d : EthIntelDevice)
    → ((b : ℕ) → frame_desc q b ≡ frame_desc p b)
    → (w : ℕ) (bufs : List ℕ) → Written q d w bufs
    → Written p d w bufs
Written-same p q d same w [] h = tt
Written-same p q d same w (buf ∷ bufs) h =
    (h.0 ∙ same buf, h.1, Written-same p q d same ((w + 1) % 8) bufs h.2)

frame_desc-release_buf :
    (p : Pool) (old buf : ℕ) → frame_desc (release_buf p old) buf ≡ frame_desc p buf
unfolding release_buf
frame_desc-release_buf p old buf = ground arith

frame_desc-release_old :
    (p : Pool) (old buf : ℕ) → frame_desc (release_old p old) buf ≡ frame_desc p buf
frame_desc-release_old p old buf = elim (Bool-cases (old == 0)) [
  | inl e ↦ ap (λ q. frame_desc q buf) (first_branch (old == 0) p (release_buf p old) e)
  | inr e ↦
      ap (λ q. frame_desc q buf) (second_branch (old == 0) p (release_buf p old) e)
      ∙ frame_desc-release_buf p old buf
]

module _ (hw : Hardware) (rc : Receiver)
    (one_pool : (w : rc.World) (p : Pool) → rc.pool (rc.with_pool w p) ≡ p) where
  -- What sending `bufs` comes to.
  record Put (s : State hw rc) (bufs : List ℕ) (result : Option (State hw rc)) : Type 0 where
    after : State hw rc
    returns : result ≡ some after
    moved : after.device.tx_write ≡ (s.device.tx_write + length bufs) % 8
    carried : Written (rc.pool s.world) after.device s.device.tx_write bufs
    untouched :
        (i : ℕ)
        → ((j : ℕ) → j < length bufs → i ≢ (s.device.tx_write + j) % 8)
        → (after.device.tx_descs i ≡ s.device.tx_descs i)
          × (after.device.tx_bufs i ≡ s.device.tx_bufs i)

  -- A descriptor that was sent is ready at the first look.
  eth_intel_send-ready :
      (s : State hw rc) (buf : ℕ)
      → is_sent (s.device.tx_descs s.device.tx_write).status ≡ true
      → eth_intel_send hw rc 1 (λ n. (s.device.tx_descs s.device.tx_write).status) s buf
        ≡ some (put_frame hw rc s buf)
  unfolding eth_intel_send wait_loop
  eth_intel_send-ready s buf sent =
      ap
        (λ (o : Option ℕ). elim o as (λ o. Option (State hw rc)) [
          | none ↦ none
          | some n ↦ some (put_frame hw rc s buf)
        ])
        (first_branch (is_sent (s.device.tx_descs s.device.tx_write).status) (some 0) none sent)

  Sent-put_frame :
      (s : State hw rc) (buf i k : ℕ)
      → ((j : ℕ) → j < k → (i + j) % 8 ≢ s.device.tx_write)
      → i < 8
      → Sent s.device i k
      → Sent (put_frame hw rc s buf).device i k
  unfolding put_frame
  Sent-put_frame s buf i zero away small h = tt
  Sent-put_frame s buf i (suc k) away small h =
      elim (set_desc-cases s.device.tx_descs s.device.tx_write
        (frame_desc (release_old (rc.pool s.world) (s.device.tx_bufs s.device.tx_write)) buf) i) [
          | inl (same, v) ↦ absurd (away 0 (omega arith) (omega (arith, same)))
          | inr (other, v) ↦ (
            ap (λ (d : TransDesc). is_sent d.status) v ∙ h.0,
            Sent-put_frame s buf ((i + 1) % 8) k
                (λ j lt e. away (j + 1) (omega arith) (omega (arith, e))) (omega arith) h.1,
          )
        ]

  put_frame-apart :
      (s : State hw rc) (buf i : ℕ)
      → i ≢ s.device.tx_write
      → ((put_frame hw rc s buf).device.tx_descs i ≡ s.device.tx_descs i)
        × ((put_frame hw rc s buf).device.tx_bufs i ≡ s.device.tx_bufs i)
  unfolding put_frame
  put_frame-apart s buf i other = (
    second_branch (i == s.device.tx_write) _ _ (ground (arith, other)),
    second_branch (i == s.device.tx_write) _ _ (ground (arith, other)),
  )

  put_frame-here :
      (s : State hw rc) (buf : ℕ)
      → let w = s.device.tx_write in
        let d = (put_frame hw rc s buf).device in
        (d.tx_descs w ≡ frame_desc (release_old (rc.pool s.world) (s.device.tx_bufs w)) buf)
        × (d.tx_bufs w ≡ buf)
  unfolding put_frame
  put_frame-here s buf =
      let w = s.device.tx_write in
      let self : (w == w) ≡ true = ground arith in
      (first_branch (w == w) _ _ self, first_branch (w == w) _ _ self)

  -- From an index at descriptors that were sent, at most `k` packets in a row, `k` at most 8, are sent
  -- without waiting: they take the descriptors in the order of the ring, each with the address and
  -- the length of its packet, and the others stay as they are.
  send_all-Put :
      (bufs : List ℕ) (k : ℕ) (s : State hw rc)
      → length bufs ≤ k
      → k ≤ 8
      → s.device.tx_write < 8
      → Sent s.device s.device.tx_write k
      → Put s bufs (send_all hw rc s bufs)
  unfolding send_all put_frame
  send_all-Put [] k s fits few inside sent = record {
    after = s;
    returns = refl;
    moved = omega (arith, inside);
    carried = tt;
    untouched = λ i away. (refl, refl);
  }
  send_all-Put (buf ∷ bufs) zero s fits few inside sent = absurd (omega arith)
  send_all-Put (buf ∷ bufs) (suc k) s fits few inside sent =
      let s1 = put_frame hw rc s buf in
      let w = s.device.tx_write in
      let next : s1.device.tx_write ≡ (w + 1) % 8 = bit_and-mod 3 (w + 1) in
      let ready : Sent s1.device s1.device.tx_write k =
        subst (λ i. Sent s1.device i k) (sym next)
          (Sent-put_frame s buf ((w + 1) % 8) k (λ j lt e. omega (arith, e)) (omega arith)
            sent.1) in
      let ih = send_all-Put bufs k s1 (omega arith) (omega arith) (omega (arith, next)) ready in
      let kept = ih.untouched w (λ j lt e. omega (arith, e, next)) in
      let p = rc.pool s.world in
      let old = s.device.tx_bufs w in
      let here = put_frame-here s buf in
      record {
        after = ih.after;
        returns =
            ap (send_then hw rc (λ s'. send_all hw rc s' bufs)) (eth_intel_send-ready s buf sent.0)
            ∙ ih.returns;
        moved = omega (arith, ih.moved, next);
        carried = (
          kept.0 ∙ here.0 ∙ frame_desc-release_old p old buf,
          kept.1 ∙ here.1,
          Written-same p (rc.pool s1.world) ih.after.device
              (λ b.
                ap (λ q. frame_desc q b) (one_pool s.world (release_old p old))
                ∙ frame_desc-release_old p old b)
              ((w + 1) % 8) bufs
              (subst (λ i. Written (rc.pool s1.world) ih.after.device i bufs) next ih.carried),
        );
        untouched = λ i away.
            let later =
              ih.untouched i (λ j lt e. away (j + 1) (omega arith) (omega (arith, e, next))) in
            let there =
              put_frame-apart s buf i (λ e. away 0 (omega arith) (omega (arith, e, inside))) in
            (later.0 ∙ there.0, later.1 ∙ there.1);
      }

  -- What sending `bufs` comes to: the ring carries them from the index on, and the others stay.
  pub record Fills (s : State hw rc) (bufs : List ℕ) (result : Option (State hw rc)) : Type 0 where
    pub after : State hw rc
    pub returns : result ≡ some after
    pub moved : after.device.tx_write ≡ (s.device.tx_write + length bufs) % 8
    pub carried : Carries (rc.pool s.world) after.device s.device.tx_write bufs
    pub untouched :
        (i : ℕ)
        → ((j : ℕ) → j < length bufs → i ≢ (s.device.tx_write + j) % 8)
        → (after.device.tx_descs i ≡ s.device.tx_descs i)
          × (after.device.tx_bufs i ≡ s.device.tx_bufs i)

  -- Behind the start of the transmit ring, up to 8 packets of proper lengths are sent without
  -- waiting: from the first on they take the descriptors in order, each with the start, the end and the
  -- command of its packet, and the others stay as they are.
  pub tx_setup-Fills :
      (s : State hw rc) (bufs : List ℕ)
      → length bufs ≤ 8
      → Proper (rc.pool s.world) bufs
      → let s' = record s { device = tx_setup s.device } in Fills s' bufs (send_all hw rc s' bufs)
  unfolding tx_setup
  tx_setup-Fills s bufs few fit =
      let put =
        send_all-Put bufs 8 (record s { device = tx_setup s.device }) few (omega arith)
          (omega arith) (ground arith) in
      record {
        after = put.after;
        returns = put.returns;
        moved = put.moved;
        carried = Written-Carries (rc.pool s.world) put.after.device 0 bufs fit put.carried;
        untouched = put.untouched;
      }
