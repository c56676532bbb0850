-- ===== src/Sender/Stops.antt =====
-- Where the sending loop of `transmit` stops.
mod Turn
use comnet.Sender.Stops.Turn.{Counted, Counts, send_chunk-Counts}
use comnet.Base.{
  ℕ, zero, suc, ◌+◌, ◌-◌, ◌≤◌, ◌<◌, ◌≡◌, refl, sym, ap, ◌∙◌, Bool, true, false, not, ◌&&◌, inl, inr,
  arith, Bool-cases, subst,
}
use Prim.Native.Nat.{min, max}
use comnet.Base.Int.{ℤ, pos, pos_part, neg_part, ◌+ℤ◌, ltb_ℤ}
use comnet.Sender.Window.{◌>>=◌, send_chunk, may_send, fill_loop, fill_window}
use comnet.Sender.{Sender, World, Progress, going, failing}

-- How many more datagrams `maxNotAcked_` allows.
abbrev room : ℤ → ℕ
room z = 25 + neg_part z - pos_part z

-- The window is filled: nothing more may be sent, what the congestion control keeps is as before,
-- and no more was sent than the window and `maxNotAcked_` allow.
pub record Filled (s s' : Sender) : Type 0 where
  pub stopped : may_send s' ≡ false
  pub cwnd : s'.cwnd ≡ s.cwnd
  pub ssthresh : s'.ssthresh ≡ s.ssthresh
  pub state : s'.state ≡ s.state
  pub dups : s'.dup_ack_count ≡ s.dup_ack_count
  pub growth : s'.ca_ack_count ≡ s.ca_ack_count
  pub acked : s'.acked_position ≡ s.acked_position
  pub bounded : pos_part s'.not_acked ≤ max (pos_part s.not_acked) (min s.cwnd 25)

abbrev pub Fills : Sender → Progress → Type 0
Fills s (going s') = Filled s s'
Fills s (failing s') = Unit {0}

and_true : (a b c : Bool) → (not a && (b && c)) ≡ true → (a ≡ false) × (b ≡ true) × (c ≡ true)
and_true true b c h = cc
and_true false false c h = cc
and_true false true false h = cc
and_true false true true h = (refl, refl, refl)

pub may_send-cases :
    (s : Sender)
    → may_send s ≡ true
    → (s.message.failing ≡ false)
      × (ltb_ℤ s.not_acked (pos s.cwnd) ≡ true)
      × (ltb_ℤ s.not_acked (pos 25) ≡ true)
unfolding may_send
may_send-cases s h = and_true s.message.failing _ _ h

pub may_send-failing : (s : Sender) → s.message.failing ≡ true → may_send s ≡ false
unfolding may_send
may_send-failing s h = rw h

pub fill_loop-stopped :
    (fuel : ℕ) (w : World) (s : Sender) → may_send s ≡ false → fill_loop fuel w s ≡ going s
unfolding fill_loop
fill_loop-stopped zero w s h = refl
fill_loop-stopped (suc fuel) w s h = rw (h, fill_loop)

pub fill_loop-more :
    (w : World) (fuel : ℕ) (s : Sender)
    → may_send s ≡ true
    → fill_loop (suc fuel) w s ≡ send_chunk w s >>= λ s'. fill_loop fuel w s'
unfolding fill_loop
fill_loop-more w fuel s h =
    ap
      (λ (b : Bool). elim b as (λ c. Progress) [
        | true ↦ send_chunk w s >>= λ s'. fill_loop fuel w s'
        | false ↦ going s
      ])
      h

Filled-self : (s : Sender) → may_send s ≡ false → Filled s s
Filled-self s h = record {
  stopped = h;
  cwnd = refl;
  ssthresh = refl;
  state = refl;
  dups = refl;
  growth = refl;
  acked = refl;
  bounded = omega arith;
}

-- Where one datagram was sent before.
Filled-after : (s s' s'' : Sender) → may_send s ≡ true → Counted s s' → Filled s' s'' → Filled s s''
unfolding ◌+ℤ◌
Filled-after s s' s'' h k f = record {
  stopped = f.stopped;
  cwnd = f.cwnd ∙ k.cwnd;
  ssthresh = f.ssthresh ∙ k.ssthresh;
  state = f.state ∙ k.state;
  dups = f.dups ∙ k.dups;
  growth = f.growth ∙ k.growth;
  acked = f.acked ∙ k.acked;
  bounded = elim k.counted [
    | inl same ↦ omega (arith, f.bounded, k.cwnd, ap pos_part same.0)
    | inr grown ↦
        let m = may_send-cases s h in
        let up : pos_part s'.not_acked ≤ max (pos_part s.not_acked) (min s.cwnd 25) =
          rw grown (next s.not_acked m.1 m.2) in
        omega (arith, f.bounded, k.cwnd, up)
  ];
}
  where
    next :
        (z : ℤ)
        → ltb_ℤ z (pos s.cwnd) ≡ true
        → ltb_ℤ z (pos 25) ≡ true
        → pos_part (z +ℤ pos 1) ≤ max (pos_part z) (min s.cwnd 25)
    next z a b = ground arith

room-grown : (z : ℤ) → ltb_ℤ z (pos 25) ≡ true → room (z +ℤ pos 1) + 1 ≡ room z
unfolding ◌+ℤ◌
room-grown z h = ground arith

module _ (w : World) where
  fill_loop-Fills : (fuel : ℕ) (s : Sender) → room s.not_acked < fuel → Fills s (fill_loop fuel w s)
  unfolding fill_loop
  fill_loop-Fills zero s h = absurd (omega arith)
  fill_loop-Fills (suc fuel) s h = elim (Bool-cases (may_send s)) [
    | inr closed ↦ rw (closed, fill_loop) (Filled-self s closed)
    | inl open_window ↦
        rw (open_window, fill_loop)
          (andthen open_window (send_chunk w s) (send_chunk-Counts w s)
            (λ s' lt. fill_loop-Fills fuel s' lt))
  ]
    where
      joins :
          (s' : Sender) (p : Progress) → may_send s ≡ true → Counted s s' → Fills s' p → Fills s p
      joins s' (going s'') open_window k f = Filled-after s s' s'' open_window k f
      joins s' (failing s'') open_window k f = tt

      andthen :
          may_send s ≡ true
          → (p : Progress) → Counts s p
          → ((s' : Sender) → room s'.not_acked < fuel → Fills s' (fill_loop fuel w s'))
          → Fills s (p >>= λ s'. fill_loop fuel w s')
      andthen open_window (failing s') k again = tt
      andthen open_window (going s') k again = elim k.counted [
        | inl last ↦
            let stopped = may_send-failing s' last.1 in
            subst (Fills s) (sym (fill_loop-stopped fuel w s' stopped))
              (Filled-after s s' s' open_window k (Filled-self s' stopped))
        | inr grown ↦ joins s' (fill_loop fuel w s') open_window k (
            again s' (
              omega
                (arith, h, ap room grown, room-grown s.not_acked (may_send-cases s open_window).2)))
      ]

  -- The sending loop ends within its fuel, and where `transmit` goes on it has filled the window:
  -- nothing more may be sent, no more was sent than `cwnd_` and `maxNotAcked_` allow, and what the
  -- congestion control keeps is as before.
  pub fill_window-Fills : (s : Sender) → Fills s (fill_window w s)
  unfolding fill_window
  fill_window-Fills s = fill_loop-Fills _ s (omega arith)
