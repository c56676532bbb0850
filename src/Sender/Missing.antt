-- ===== src/Sender/Missing.antt =====
-- A file that cannot be read.
use comnet.Base.{
  ℕ, zero, suc, ◌≡◌, refl, sym, ap, ◌∙◌, Bool, true, false, List, [], ◌∷◌, replicate, if_true,
  subst,
}
use comnet.Stream.{Stream, open_file, seek-failing}
use comnet.Sender.{Sender, World, going, initial, open_socket}
use comnet.Sender.Main.{Start, waits, exit_of, send_out, sender_main}
use comnet.Sender.Stops.{fill_loop-stopped, may_send-failing}
use comnet.Sender.Window.{fill_window, before_acked, process_timeout}
use comnet.Sender.Replies.{
  nothing, Outcome, waiting, returned, decide, await, receive, transmit_loop, transmit,
}

-- It still waits, and has sent no more than before.
abbrev pub Idles : Sender → Outcome → Type 0
Idles s (waiting s') = s'.sent ≡ s.sent
Idles s (returned b s') = ⊥

module _ (w : World) (missing : w.disk.readable ≡ false) where
  open_file-fails : (open_file w.disk).failing ≡ true
  unfolding open_file
  open_file-fails = rw missing

  process_timeout-fails :
      (s : Sender) → s.message.failing ≡ true → (process_timeout w s).message.failing ≡ true
  unfolding process_timeout
  process_timeout-fails s bad =
      seek-failing (before_acked s) _
      ∙ ap (λ (m : Stream). m.failing) (if_true _ _ _ bad)
      ∙ open_file-fails

  fill_window-fails : (s : Sender) → s.message.failing ≡ true → fill_window w s ≡ going s
  unfolding fill_window
  fill_window-fails s bad = fill_loop-stopped _ w s (may_send-failing s bad)

  transmit_loop-Idles :
      (n : ℕ) (s : Sender)
      → s.message.failing ≡ true
      → Idles s (transmit_loop w s (replicate n nothing))
  unfolding transmit_loop await decide receive
  transmit_loop-Idles zero s bad = rw (fill_window-fails s bad) refl
  transmit_loop-Idles (suc n) s bad =
      rw (fill_window-fails s bad)
        (same _ (transmit_loop-Idles n (process_timeout w s) (process_timeout-fails s bad)))
    where
      same : (out : Outcome) → Idles (process_timeout w s) out → Idles s out
      same (waiting s') h = h ∙ unfold process_timeout in refl
      same (returned b s') h = h

  -- With a file that cannot be read, `transmit` does not fail: however many timeouts pass, it sends
  -- nothing and goes on waiting.
  pub transmit-Idles :
      (n : ℕ) (s : Sender) → s.opened ≡ true → Idles s (transmit w s (replicate n nothing))
  unfolding transmit
  transmit-Idles n s works =
      subst (Idles s) (sym (if_true _ _ _ works))
        (same _ (transmit_loop-Idles n (record s { message = open_file w.disk }) open_file-fails))
    where
      same : (out : Outcome) → Idles (record s { message = open_file w.disk }) out → Idles s out
      same (waiting s') h = h
      same (returned b s') h = h

exit_of-Waits :
    (out : Outcome) (s : Sender)
    → Idles s out
    → (s' : Sender) × (exit_of out ≡ waits s') × (s'.sent ≡ s.sent)
unfolding exit_of
exit_of-Waits (waiting s') s h = (s', refl, h)
exit_of-Waits (returned b s') s h = absurd h

-- With three arguments, a socket that works and a file that cannot be read, the program does not
-- fail: however many timeouts pass, it has sent nothing and goes on waiting.
pub sender_main-waits :
    (w : World) (st : Start) (name host port : List ℕ) (n : ℕ)
    → st.opens ≡ true
    → (st.disks name).readable ≡ false
    → (s : Sender) × (sender_main w st (name ∷ host ∷ port ∷ []) (replicate n nothing) ≡ waits s)
      × (s.sent ≡ [])
unfolding sender_main send_out open_socket initial
sender_main-waits w st name host port n opens missing =
    let started = record (initial st.garbage st.unset) { opened = true } in
    let (s, ends, none_sent) =
      exit_of-Waits _ started
        (transmit-Idles (record w { disk = st.disks name }) missing n started refl) in
    (
      s,
      ap
            (λ (b : Bool).
              send_out (record w { disk = st.disks name }) (replicate n nothing)
                (open_socket b (initial st.garbage st.unset)))
            opens
          ∙ ends,
      none_sent,
    )
