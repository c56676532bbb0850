-- ===== src/Sender/Going.antt =====
-- A `sendTo` that always works: the sending loop does not make `transmit` fail.
use comnet.Base.{ℕ, zero, suc, ◌≡◌, refl, ap, ◌∙◌, subst, true, false, inl, inr, Bool-cases}
use comnet.Stream.{read}
use comnet.Sender.Sync.{IsSynced, Suits, Keeps}
use comnet.Sender.Transfer.{read_there, send_chunk-Keeps, may_send-works}
use comnet.Sender.Stops.{fill_loop-stopped, fill_loop-more, Fills, fill_window-Fills}
use comnet.Sender.Alone.{launch-works}
use comnet.Sender.Window.{◌>>=◌, launch, send_chunk, may_send, fill_loop, fill_window}
use comnet.Sender.{Sender, World, going, mms_bytes}

module _ (w : World) (suits : Suits w) (works : (n : ℕ) → w.works n ≡ true) where
  send_chunk-going :
      (s : Sender)
      → IsSynced w.disk.contents s
      → s.message.failing ≡ false
      → (s' : Sender) × (send_chunk w s ≡ going s')
  unfolding send_chunk
  send_chunk-going s v ok =
      let r = read_there w suits s.message s.file_position ok (v.aligned ok) in
      let after_read : Sender = record s { message = read w.disk mms_bytes s.message } in
      (_, ap (launch w after_read) r.0 ∙ launch-works w suits works after_read s.file_position r.1)

  fill_loop-going :
      (fuel : ℕ) (s : Sender)
      → IsSynced w.disk.contents s
      → (s' : Sender) × (fill_loop fuel w s ≡ going s')
  fill_loop-going zero s v = (s, unfold fill_loop in refl)
  fill_loop-going (suc fuel) s v = elim (Bool-cases (may_send s)) [
    | inr stop ↦ (s, fill_loop-stopped (suc fuel) w s stop)
    | inl more ↦
        (let ok = may_send-works w suits s more in
          let (t, sent) = send_chunk-going s v ok in
          let (s', rest) =
            fill_loop-going fuel t
              (subst (Keeps w.disk.contents) sent (send_chunk-Keeps w suits s v ok)) in
          (s', fill_loop-more w fuel s more ∙ ap (λ p. p >>= λ u. fill_loop fuel w u) sent ∙ rest))
  ]

  -- The window is filled, and what is acknowledged stays.
  pub fill_window-going :
      (s : Sender)
      → IsSynced w.disk.contents s
      → (s' : Sender) × (fill_window w s ≡ going s') × (s'.acked_position ≡ s.acked_position)
  fill_window-going s v =
      let (s', e) = filled s v in (s', e, (subst (Fills s) e (fill_window-Fills w s)).acked)
    where
      filled :
          (s : Sender) → IsSynced w.disk.contents s → (s' : Sender) × (fill_window w s ≡ going s')
      filled s v = unfold fill_window in fill_loop-going _ s v
