-- ===== src/Sender/Alone.antt =====
-- One datagram alone: what `transmit` does after a timeout, with a window of one segment.
use comnet.Base.{
  ℕ, ◌+◌, ◌≡◌, refl, sym, ap, ◌∙◌, true, false, List, [], ◌∷◌, ◌++◌, inl, inr, arith, length, ltb,
  Bool-cases,
}
use comnet.Base.Int.{ℤ, pos, neg_part, ◌+ℤ◌, ltb_ℤ}
use comnet.Packet.{Packet}
use comnet.Stream.{Stream, read, chunk}
use comnet.Sender.Segments.{bytes_at, bytes_at-NonZero, length-bytes_at-le, bytes_sent-full}
use comnet.Sender.Sync.{IsSynced, Suits, launch-going, launch-full}
use comnet.Sender.Transfer.{read_there, bound_of}
use comnet.Sender.Stops.{fill_loop-stopped}
use comnet.Sender.Window.{advance, launch, send_chunk, may_send, fill_loop, fill_window}
use comnet.Sender.{Sender, World, going, mms_bytes, segment, send_data, bytes_sent, cleared}

-- `sendTo` that works.
record Worked (s s' : Sender) (p : Packet) : Type 0 where
  sent : s'.sent ≡ s.sent ++ p ∷ []
  not_acked : s'.not_acked ≡ s.not_acked +ℤ pos 1
  cwnd : s'.cwnd ≡ s.cwnd
  state : s'.state ≡ s.state
  acked : s'.acked_position ≡ s.acked_position
  message : s'.message ≡ s.message

worked :
    (w : World) (s : Sender) (memory : List ℕ) (len : ℕ) (n : ℤ)
    → w.works s.asked ≡ true
    → Worked s (advance (send_data w s memory len) n) (segment s memory len)
unfolding send_data
worked w s memory len n ok = rw ok (record {
  sent = refl;
  not_acked = refl;
  cwnd = refl;
  state = refl;
  acked = refl;
  message = refl;
})

-- The one datagram, with the chunk of the file at `filePosition_`, and the sender afterwards.
pub record One (w : World) (s s' : Sender) (p : Packet) : Type 0 where
  pub filled : fill_window w s ≡ going s'
  pub sent : s'.sent ≡ s.sent ++ p ∷ []
  pub state : s'.state ≡ s.state
  pub acked : s'.acked_position ≡ s.acked_position
  pub failing : s'.message.failing ≡ ltb (length (bytes_at w.disk s.file_position)) 100
  pub position : s'.message.position ≡ s.file_position + length (bytes_at w.disk s.file_position)
  pub seq_num : p.seq_num ≡ s.file_position + 1
  pub data_len : p.data_len ≡ length (bytes_at w.disk s.file_position)
  pub fin : p.fin ≡ ltb (length (bytes_at w.disk s.file_position)) 100

module _ (w : World) (suits : Suits w) (works : (n : ℕ) → w.works n ≡ true) where
  -- The state once the chunk at `p` is read.
  pub launch-works :
      (s : Sender) (p : ℕ)
      → s.message.failing ≡ ltb (length (bytes_at w.disk p)) 100
      → launch w s (bytes_at w.disk p)
        ≡ going (
            advance
              (send_data w s (cleared w s (bytes_at w.disk p)) (length (bytes_at w.disk p)))
              (bytes_sent w s (cleared w s (bytes_at w.disk p))))
  launch-works s p flag = elim (Bool-cases s.message.failing) [
    | inl last ↦ launch-going w s (bytes_at w.disk p) last
    | inr more ↦
        (let full : length (bytes_at w.disk p) ≡ 100 =
            ground (arith, length-bytes_at-le w.disk suits.text p, sym flag ∙ more) in
          let hundred =
            bytes_sent-full w s (bytes_at w.disk p) (bytes_at-NonZero w.disk suits.text p)
              (works s.asked) (suits.two_behind s.asked) full in
          launch-full w s (bytes_at w.disk p) more (ap (λ z. ltb_ℤ z (pos 0)) hundred)
          ∙ ap
              (λ n. going (
                advance (send_data w s (cleared w s (bytes_at w.disk p)) n)
                  (bytes_sent w s (cleared w s (bytes_at w.disk p)))))
              (sym full))
  ]

  may_send-empty :
      (s : Sender)
      → s.message.failing ≡ false
      → s.cwnd ≡ 1
      → s.not_acked ≡ pos 0
      → may_send s ≡ true
  unfolding may_send
  may_send-empty s ok one none_out = rw (ok, one, none_out)

  may_send-full : (s : Sender) → s.cwnd ≡ 1 → s.not_acked ≡ pos 0 +ℤ pos 1 → may_send s ≡ false
  unfolding may_send ◌+ℤ◌
  may_send-full s one out = elim (Bool-cases s.message.failing) [
    | inl last ↦ rw last
    | inr more ↦ rw (more, one, out)
  ]

  -- A sender at the chunk of `filePosition_` with a window of one segment and nothing out sends that
  -- chunk and stops.
  pub one_sent :
      (s : Sender)
      → IsSynced w.disk.contents s
      → s.message.failing ≡ false
      → s.cwnd ≡ 1
      → s.not_acked ≡ pos 0
      → (s' : Sender) × (p : Packet) × One w s s' p
  one_sent s v ok one none_out = (
    s',
    p,
    record {
      filled = run;
      sent = k.sent;
      state = k.state;
      acked = k.acked;
      failing = ap (λ (m : Stream). m.failing) k.message ∙ r.1;
      position = ap (λ (m : Stream). m.position) k.message ∙ r.2;
      seq_num = number;
      data_len = counted;
      fin = final;
    },
  )
    where
      r :
          (chunk w.disk mms_bytes s.message ≡ bytes_at w.disk s.file_position)
          × ((read w.disk mms_bytes s.message).failing
              ≡ ltb (length (bytes_at w.disk s.file_position)) 100)
          × ((read w.disk mms_bytes s.message).position
              ≡ s.file_position + length (bytes_at w.disk s.file_position))
      r = read_there w suits s.message s.file_position ok (v.aligned ok)

      after_read : Sender
      after_read = record s { message = read w.disk mms_bytes s.message }

      memory : List ℕ
      memory = cleared w after_read (bytes_at w.disk s.file_position)

      len : ℕ
      len = length (bytes_at w.disk s.file_position)

      p : Packet
      p = segment after_read memory len

      s' : Sender
      s' = advance (send_data w after_read memory len) (bytes_sent w after_read memory)

      k : Worked after_read s' p
      k = worked w after_read memory len (bytes_sent w after_read memory) (works s.asked)

      sends : send_chunk w s ≡ going s'
      sends =
          unfold send_chunk in
          ap (launch w after_read) r.0 ∙ launch-works after_read s.file_position r.1

      first : fill_loop 27 w s ≡ fill_loop 26 w s'
      first = unfold fill_loop in rw (may_send-empty s ok one none_out, fill_loop, sends)

      run : fill_window w s ≡ going s'
      run =
          unfold fill_window in
          ap (λ n. fill_loop n w s) (omega (arith, ap neg_part none_out))
          ∙ first
          ∙ fill_loop-stopped 26 w s'
              (may_send-full s' (k.cwnd ∙ one) (k.not_acked ∙ ap (λ z. z +ℤ pos 1) none_out))

      number : p.seq_num ≡ s.file_position + 1
      number = unfold segment in omega (arith, bound_of w suits s v ok, suits.text.small)

      counted : p.data_len ≡ len
      counted =
          unfold segment in omega (arith, length-bytes_at-le w.disk suits.text s.file_position)

      final : p.fin ≡ ltb len 100
      final = unfold segment in r.1
