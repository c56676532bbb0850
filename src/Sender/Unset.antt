-- ===== src/Sender/Unset.antt =====
-- The members that the constructor leaves as the memory is, `caAckCount_` and `message_`.
pub mod Heard
pub mod Alike
use comnet.Base.{
  ℕ, zero, suc, ◌≡◌, refl, sym, ap, ◌∙◌, Bool, true, false, List, inl, inr, Bool-cases,
  if◌then◌else◌, length, u32,
}
use comnet.Base.Int.{pos, ltb_ℤ}
use comnet.Stream.{seek}
use comnet.Sender.{
  Sender, World, Progress, going, failing, mms_bytes, segment, send_data, bytes_sent, cleared,
  uncleared,
}
use comnet.Sender.Window.{
  ◌>>=◌, advance, launch, send_chunk, may_send, fill_loop, fill_window, resume_point, relaunch,
  resend, retransmit_missing_segment,
}
use comnet.Sender.Stops.{fill_loop-stopped, fill_loop-more}

-- Another value of `caAckCount_`.
abbrev pub recount : ℕ → Sender → Sender
recount g s = record s { ca_ack_count = g }

abbrev pub recount_progress : ℕ → Progress → Progress
recount_progress g (going s) = going (recount g s)
recount_progress g (failing s) = failing (recount g s)

if-recount :
    (g : ℕ) (b : Bool) (p q p' q' : Progress)
    → p' ≡ recount_progress g p
    → q' ≡ recount_progress g q
    → (if b then p' else q') ≡ recount_progress g (if b then p else q)
if-recount g true p q p' q' h k = h
if-recount g false p q p' q' h k = k

module _ (g : ℕ) (w : World) where
  send_data-recount :
      (s : Sender) (memory : List ℕ) (len : ℕ)
      → send_data w (recount g s) memory len ≡ recount g (send_data w s memory len)
  unfolding send_data segment
  send_data-recount s memory len = pick (w.works s.asked) _ _
    where
      pick :
          (b : Bool) (x y : Sender)
          → (if b then recount g x else recount g y) ≡ recount g (if b then x else y)
      pick true x y = refl
      pick false x y = refl

  launch-recount :
      (s : Sender) (bytes : List ℕ)
      → launch w (recount g s) bytes ≡ recount_progress g (launch w s bytes)
  unfolding launch bytes_sent
  launch-recount s bytes =
      let memory = cleared w s bytes in
      let n = bytes_sent w s memory in
      let last = send_data-recount s memory (length bytes) in
      let full = send_data-recount s memory mms_bytes in
      if-recount g s.message.failing _ _ _ _ (ap (λ x. going (advance x n)) last) (
        if-recount g (ltb_ℤ n (pos 0)) _ _ _ _ (ap failing full)
          (ap (λ x. going (advance x n)) full))

  send_chunk-recount :
      (s : Sender) → send_chunk w (recount g s) ≡ recount_progress g (send_chunk w s)
  unfolding send_chunk
  send_chunk-recount s = launch-recount _ _

  may_send-recount : (s : Sender) → may_send (recount g s) ≡ may_send s
  unfolding may_send
  may_send-recount s = refl

  fill_loop-recount :
      (fuel : ℕ) (s : Sender)
      → fill_loop fuel w (recount g s) ≡ recount_progress g (fill_loop fuel w s)
  unfolding fill_loop
  fill_loop-recount zero s = refl
  fill_loop-recount (suc fuel) s = elim (Bool-cases (may_send s)) [
    | inl more ↦
        fill_loop-more w fuel (recount g s) (may_send-recount s ∙ more)
        ∙ ap (λ p. p >>= λ s'. fill_loop fuel w s') (send_chunk-recount s)
        ∙ andthen (send_chunk w s) (λ s'. fill_loop-recount fuel s')
        ∙ ap (recount_progress g) (sym (fill_loop-more w fuel s more))
    | inr stop ↦
        fill_loop-stopped (suc fuel) w (recount g s) (may_send-recount s ∙ stop)
        ∙ ap (recount_progress g) (sym (fill_loop-stopped (suc fuel) w s stop))
  ]
    where
      andthen :
          (p : Progress)
          → ((s' : Sender)
              → fill_loop fuel w (recount g s') ≡ recount_progress g (fill_loop fuel w s'))
          → (recount_progress g p >>= λ s'. fill_loop fuel w s')
            ≡ recount_progress g (p >>= λ s'. fill_loop fuel w s')
      andthen (going s') h = h s'
      andthen (failing s') h = refl

  pub fill_window-recount :
      (s : Sender) → fill_window w (recount g s) ≡ recount_progress g (fill_window w s)
  unfolding fill_window
  fill_window-recount s = fill_loop-recount _ s

  relaunch-recount :
      (s : Sender) (bytes : List ℕ) (start : ℕ)
      → relaunch w (recount g s) bytes start ≡ recount_progress g (relaunch w s bytes start)
  unfolding relaunch bytes_sent
  relaunch-recount s bytes start =
      let memory = uncleared w s bytes in
      let k = send_data-recount s memory (if s.message.failing then length bytes else mms_bytes) in
      if-recount g (ltb_ℤ (bytes_sent w s memory) (pos 0)) _ _ _ _ (ap failing k) (
        ap
          (λ (x : Sender).
            going (record x { message = seek start x.message; file_position = u32 start }))
          k)

  pub retransmit-recount :
      (s : Sender)
      → retransmit_missing_segment w (recount g s)
        ≡ recount_progress g (retransmit_missing_segment w s)
  unfolding retransmit_missing_segment resend resume_point
  retransmit-recount s = relaunch-recount _ _ _
