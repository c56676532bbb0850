-- ===== src/System/Liveness.antt =====
-- A transfer that comes to its end, round by round.
use comnet.Base.{
  ℕ, zero, suc, ◌+◌, ◌*◌, ◌<◌, ◌≡◌, ap, true, List, inl, inr, arith, length, Bool-cases,
}
use comnet.Stream.{Stream}
use comnet.Sender.{World}
use comnet.Sender.Sync.{Suits}
use comnet.Receiver.{Receiver, Machine, Endpoint}
use comnet.System.{System, Reach, IsSafe, started, Reach-IsSafe, started-IsSafe}
use comnet.System.Restart.{IsInStep, restart}
use comnet.System.Finish.{finished_whole}
use comnet.System.Rounds.{CanFinish, Reach-trans, datagram, finishes, goes_on}

module _ (w : World) (mach : Machine) (suits : Suits w) (works : (n : ℕ) → w.works n ≡ true)
    (from : Endpoint) where
  abbrev file : List ℕ
  file = w.disk.contents

  CanFinish-after : {y z : System} → Reach w mach y z → CanFinish w mach z → CanFinish w mach y
  CanFinish-after r c = record {
    end_state = c.end_state;
    last = c.last;
    sender = c.sender;
    reached = Reach-trans r c.reached;
    heard = c.heard;
    returns = c.returns;
  }

  -- As many rounds as there are chunks are enough.
  rounds-CanFinish :
      (n : ℕ) (y : System)
      → IsSafe file y
      → IsInStep y
      → length file < y.receiver.acked_position + n * 100
      → CanFinish w mach y
  rounds-CanFinish zero y v i few = absurd (omega (arith, few, v.prefix.fits))
  rounds-CanFinish (suc n) y v i few =
      let (x, h) = restart w mach suits y v i in
      elim (Bool-cases (datagram w mach suits works from y x h).fin) [
        | inl last ↦ finishes w mach suits works from y x h last
        | inr more ↦
            (let (z, f) = goes_on w mach suits works from y x h more in
              CanFinish-after (Reach-trans h.reached f.reached) (
                rounds-CanFinish n z f.safe f.in_step (
                  omega (
                    arith,
                    few,
                    f.further,
                    ap (λ (q : Receiver). q.acked_position) h.same_receiver,
                  ))))
      ]

  -- For a file without NUL bytes below 2 ^ 31 bytes, a stack that holds exactly two bytes behind
  -- `packet_data` and a `sendTo` that always works: whatever was lost before, wherever the transfer
  -- has got to, if the receiver simulates no loss, keeps no early segment and waits for more, and
  -- the sender knows how far it has come, then the transfer can come to its end, where an
  -- acknowledgement lets `transmit` return true, and the receiver then holds the whole file.
  pub transfer-CanFinish :
      (garbage : ℕ) (unset : Stream) {y : System}
      → Reach w mach (started w garbage unset) y
      → IsInStep y
      → (c : CanFinish w mach y) × (c.end_state.receiver.recv_data ≡ file)
  transfer-CanFinish garbage unset {y} r i = (
    c,
    finished_whole w mach suits garbage unset c.last c.sender (Reach-trans r c.reached) c.heard
        c.returns,
  )
    where
      c : CanFinish w mach y
      c =
          rounds-CanFinish (length file + 1) y
            (Reach-IsSafe w mach suits (started-IsSafe w suits garbage unset) r) i (omega arith)
