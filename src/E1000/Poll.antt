-- ===== src/E1000/Poll.antt =====
-- src/drivers/intel_e1000.c: the packets that a poll hands to the protocols, while the device goes on
-- filling descriptors.
use aijak.Common.{ℕ, ◌+◌, ◌≤◌, ◌≡◌, false, Option, some, ◌∷◌, ◌==◌, if◌then◌else◌}
use aijak.Ports.{Hardware}
use aijak.E1000.{RecvDesc, Receiver, Polled, polled, is_done, Dma, looked, State}
use aijak.E1000.Ring.{IsReceiver, IsReady, Done, behind, frames, passed, receive_all}

-- The device fills descriptors, and leaves their addresses as they are.
pub record IsDma (fills : Dma) : Type 0 where
  pub same_addr : (n : ℕ) (descs : ℕ → RecvDesc) (i : ℕ) → (fills n descs i).addr ≡ (descs i).addr

module _ (hw : Hardware) (rc : Receiver) (law : IsReceiver rc) (rounds : ℕ) where
  -- A round leads to `s1`.
  record Round (s : State hw rc) (result : Option (State hw rc)) : Type 0 where
    after : State hw rc
    returns : result ≡ some after
    ready : IsReady rc after
    device : after.device ≡ passed s.device
    delivered :
        (fills : Dma) (k n : ℕ)
        → let d = s.device in
          let desc = d.rx_descs d.rx_read in
          let rest = frames fills k n (passed d) in
          receive_all rc rounds s.world
            (if desc.errors == 0 then (d.rx_bufs d.rx_read, desc.len) ∷ rest else rest)
          ≡ receive_all rc rounds after.world rest

  -- What a poll of `s` from the look `n` on comes to.
  pub record Delivers (fills : Dma) (n : ℕ) (s : State hw rc) (result : Polled (State hw rc))
      : Type 0 where
    pub after : State hw rc
    pub count : ℕ
    pub returns : result ≡ polled after
    pub ready : IsReady rc after
    pub were_done : Done fills count n s.device
    pub device : after.device ≡ looked fills (n + count) (behind fills count n s.device)
    pub next_free : is_done (after.device.rx_descs after.device.rx_read) ≡ false
    pub delivered : after.world ≡ receive_all rc rounds s.world (frames fills count n s.device)

-- From the look `k` on the device fills nothing more.
abbrev pub Quiet : Dma → ℕ → Type 0
Quiet fills k = (n : ℕ) (descs : ℕ → RecvDesc) (i : ℕ) → k ≤ n → fills n descs i ≡ descs i
