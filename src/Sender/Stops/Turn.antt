-- ===== src/Sender/Stops/Turn.antt =====
-- What one turn of the sending loop of `transmit` changes of the window.
use comnet.Base.{
  ℕ, ◌≡◌, refl, sym, ap, true, false, List, inl, inr, ◌⊎◌, Bool-cases, if_false, subst,
}
use comnet.Base.Int.{ℤ, pos, ◌+ℤ◌, ltb_ℤ}
use comnet.Stream.{read, chunk}
use comnet.Sender.Sync.{clash, launch-going, launch-failing, launch-full}
use comnet.Sender.Window.{advance, launch, send_chunk}
use comnet.Sender.{
  Sender, World, Progress, going, failing, mms_bytes, send_data, bytes_sent, cleared,
}

-- What one datagram changes of the window.
pub record Counted (s s' : Sender) : Type 0 where
  pub cwnd : s'.cwnd ≡ s.cwnd
  pub ssthresh : s'.ssthresh ≡ s.ssthresh
  pub state : s'.state ≡ s.state
  pub dups : s'.dup_ack_count ≡ s.dup_ack_count
  pub growth : s'.ca_ack_count ≡ s.ca_ack_count
  pub acked : s'.acked_position ≡ s.acked_position
  pub counted :
      ((s'.not_acked ≡ s.not_acked) × (s'.message.failing ≡ true))
      ⊎ (s'.not_acked ≡ s.not_acked +ℤ pos 1)

abbrev pub Counts : Sender → Progress → Type 0
Counts s (going s') = Counted s s'
Counts s (failing s') = Unit {0}

pub worked-Counted :
    (w : World) (s : Sender) (memory : List ℕ) (len : ℕ) (n : ℤ)
    → w.works s.asked ≡ true
    → Counted s (advance (send_data w s memory len) n)
unfolding send_data
worked-Counted w s memory len n ok = rw ok (record {
  cwnd = refl;
  ssthresh = refl;
  state = refl;
  dups = refl;
  growth = refl;
  acked = refl;
  counted = inr refl;
})

pub last-Counted :
    (w : World) (s : Sender) (memory : List ℕ) (len : ℕ) (n : ℤ)
    → s.message.failing ≡ true
    → Counted s (advance (send_data w s memory len) n)
unfolding send_data
last-Counted w s memory len n last = elim (Bool-cases (w.works s.asked)) [
  | inl ok ↦ worked-Counted w s memory len n ok
  | inr bad ↦ rw bad (record {
    cwnd = refl;
    ssthresh = refl;
    state = refl;
    dups = refl;
    growth = refl;
    acked = refl;
    counted = inl (refl, last);
  })
]

-- A sendTo that works, since the result is not negative.
pub sent_well :
    (w : World) (s : Sender) (memory : List ℕ)
    → ltb_ℤ (bytes_sent w s memory) (pos 0) ≡ false
    → w.works s.asked ≡ true
unfolding bytes_sent
sent_well w s memory h = elim (Bool-cases (w.works s.asked)) [
  | inl ok ↦ ok
  | inr bad ↦ absurd (clash (ap (λ z. ltb_ℤ z (pos 0)) (if_false _ _ _ bad)) h)
]

pub launch-Counts : (w : World) (s : Sender) (bytes : List ℕ) → Counts s (launch w s bytes)
launch-Counts w s bytes = elim (Bool-cases s.message.failing) [
  | inl last ↦
      subst (Counts s) (sym (launch-going w s bytes last))
        (last-Counted w s _ _ (bytes_sent w s (cleared w s bytes)) last)
  | inr more ↦ elim (Bool-cases (ltb_ℤ (bytes_sent w s (cleared w s bytes)) (pos 0))) [
    | inl bad ↦ subst (Counts s) (sym (launch-failing w s bytes more bad)) tt
    | inr good ↦ subst (Counts s) (sym (launch-full w s bytes more good)) (
        worked-Counted w s _ _ (bytes_sent w s (cleared w s bytes))
          (sent_well w s (cleared w s bytes) good))
  ]
]

pub send_chunk-Counts : (w : World) (s : Sender) → Counts s (send_chunk w s)
unfolding send_chunk
send_chunk-Counts w s = shift (launch w _ (chunk w.disk mms_bytes s.message)) (
    launch-Counts w (record s { message = read w.disk mms_bytes s.message })
      (chunk w.disk mms_bytes s.message))
  where
    shift :
        (p : Progress)
        → Counts (record s { message = read w.disk mms_bytes s.message }) p
        → Counts s p
    shift (going s') k = record {
      cwnd = k.cwnd;
      ssthresh = k.ssthresh;
      state = k.state;
      dups = k.dups;
      growth = k.growth;
      acked = k.acked;
      counted = k.counted;
    }
    shift (failing s') k = tt
