-- ===== src/Sender/Recovery.antt =====
-- A whole fast recovery of the sender, from the third duplicate to the first new acknowledgement.
use comnet.Base.{ℕ, ◌*◌, ◌/◌, ◌≡◌, ◌≢◌, ap, ◌∙◌, arith, subst}
use comnet.Packet.{Packet}
use comnet.Sender.{congestion_avoidance, fast_recovery, Sender, World, going}
use comnet.Sender.Window.{fill_window}
use comnet.Sender.Replies.{reply, receive}
use comnet.Sender.Stops.{Filled, Fills, fill_window-Fills}
use comnet.Sender.Reno.Implements.{receive-control}
use comnet.Sender.Reno.{
  control, event_of, repeated, fresh, reno, reno-enters, reno-stays, reno-leaves,
}

-- Rounds of `transmit` that each hear a duplicate.
pub data Dups (w : World) : Sender → Sender → Type 0 where
  none_more : {s : Sender} → Dups w s s
  one_more :
      {s t : Sender} (p : Packet) (s' : Sender)
      → event_of s.acked_position (reply p) ≡ repeated
      → fill_window w (receive w s (reply p)).0 ≡ going s'
      → Dups w s' t
      → Dups w s t

abbrev Recovering : ℕ → Sender → Type 0
Recovering k s = (s.state ≡ fast_recovery) × (s.ssthresh ≡ k)

module _ (w : World) where
  filled-Recovering :
      (k : ℕ) (s s' : Sender) → Recovering k s → fill_window w s ≡ going s' → Recovering k s'
  filled-Recovering k s s' h e =
      let f : Filled s s' = subst (Fills s) e (fill_window-Fills w s) in
      (f.state ∙ h.0, f.ssthresh ∙ h.1)

  heard :
      (s : Sender) (p : Packet)
      → event_of s.acked_position (reply p) ≡ repeated
      → control (receive w s (reply p)).0 ≡ reno (control s) repeated
  heard s p e = receive-control w s (reply p) ∙ ap (reno (control s)) e

  stays-Recovering :
      (k : ℕ) (s : Sender) (p : Packet)
      → Recovering k s
      → event_of s.acked_position (reply p) ≡ repeated
      → Recovering k (receive w s (reply p)).0
  stays-Recovering k s p h e =
      let c = heard s p e in
      let r = reno-stays (control s) h.0 in
      (ap (λ c. c.state) c ∙ r.0, ap (λ c. c.ssthresh) c ∙ r.1 ∙ h.1)

  Dups-Recovering : (k : ℕ) (s t : Sender) → Recovering k s → Dups w s t → Recovering k t
  Dups-Recovering k s t h none_more = h
  Dups-Recovering k s t h (one_more p s' e filled rest) =
      Dups-Recovering k s' t (filled-Recovering k _ s' (stays-Recovering k s p h e) filled) rest

  -- Fast recovery halves the window. If outside of it a third duplicate is heard, then any number
  -- of duplicates with the window filled after each, and then an acknowledgement of something new,
  -- the window is half of what it was, rounded down, and congestion avoidance goes on. From a
  -- window of one segment that is none at all.
  pub recovery_halves :
      (s s' t : Sender) (p q : Packet) (ack : ℕ)
      → s.state ≢ fast_recovery
      → s.dup_ack_count ≡ 2
      → event_of s.acked_position (reply p) ≡ repeated
      → fill_window w (receive w s (reply p)).0 ≡ going s'
      → Dups w s' t
      → event_of t.acked_position (reply q) ≡ fresh ack
      → ((receive w t (reply q)).0.cwnd ≡ s.cwnd / 2)
        × ((receive w t (reply q)).0.state ≡ congestion_avoidance)
  recovery_halves s s' t p q ack outside second third filled dups new =
      (ap (λ c. c.cwnd) after ∙ left.1 ∙ half, ap (λ c. c.state) after ∙ left.0)
    where
      entered : Recovering (s.cwnd / 2 * 100) (receive w s (reply p)).0
      entered =
          let c = heard s p third in
          let r = reno-enters (control s) outside second in
          (ap (λ c. c.state) c ∙ r.0, ap (λ c. c.ssthresh) c ∙ r.1)

      still : Recovering (s.cwnd / 2 * 100) t
      still = Dups-Recovering _ s' t (filled-Recovering _ _ s' entered filled) dups

      after : control (receive w t (reply q)).0 ≡ reno (control t) (fresh ack)
      after = receive-control w t (reply q) ∙ ap (reno (control t)) new

      left :
          ((reno (control t) (fresh ack)).state ≡ congestion_avoidance)
          × ((reno (control t) (fresh ack)).cwnd ≡ t.ssthresh / 100)
      left = reno-leaves (control t) ack still.0

      half : t.ssthresh / 100 ≡ s.cwnd / 2
      half = omega (arith, still.1)
