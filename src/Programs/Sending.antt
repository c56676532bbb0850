-- ===== src/Programs/Sending.antt =====
-- The sender, one reply after the other.
use comnet.Base.{
  ℕ, ◌≡◌, refl, sym, ap, ◌∙◌, subst, true, false, List, [], ◌∷◌, ◌++◌, inl, inr, Bool-cases,
}
use comnet.Sender.{Sender, World, Progress, going, failing, initial, open_socket}
use comnet.Sender.Window.{fill_window}
use comnet.Sender.Replies.{
  Reply, Status, finished, normal, error, receive, Outcome, waiting, returned, decide, await,
  transmit_loop, transmit,
}
use comnet.Sender.Sync.{IsSynced, Suits, AllSegments, Keeps}
use comnet.Sender.Transfer.{fill_window-Keeps}
use comnet.Sender.Closed.{Timely, After, receive-After}
use comnet.Sender.Main.{Exit, waits, done, exit_of, send_out, sender_main}
use comnet.Sender.Main
use comnet.System.{started, started-IsSafe}
use comnet.Programs.{Setting, there, sending, transmitting}

-- The sender once it has replied to `r`.
abbrev pub after_reply : World → Sender → Reply → Outcome
after_reply w s r = decide (receive w s r) λ s'. await (fill_window w s') waiting

await-waiting :
    (p : Progress) (next : Sender → Outcome) (s' : Sender)
    → await p next ≡ waiting s'
    → (s : Sender) × (p ≡ going s) × (next s ≡ waiting s')
unfolding await
await-waiting (going s) next s' e = (s, refl, e)
await-waiting (failing s) next s' e = cc

decide-waiting :
    (out : Sender × Status) (next : Sender → Outcome) (s' : Sender)
    → decide out next ≡ waiting s'
    → (s : Sender) × (out ≡ (s, normal)) × (next s ≡ waiting s')
unfolding decide
decide-waiting (s, finished) next s' e = cc
decide-waiting (s, normal) next s' e = (s, refl, e)
decide-waiting (s, error) next s' e = cc

sender_of : Outcome → Sender
sender_of (waiting s) = s
sender_of (returned worked s) = s

-- One more reply to a sender that waits.
pub transmit_loop-append :
    (w : World) (s s' : Sender) (rs : List Reply) (r : Reply)
    → transmit_loop w s rs ≡ waiting s'
    → transmit_loop w s (rs ++ r ∷ []) ≡ after_reply w s' r
unfolding transmit_loop await decide sender_of
transmit_loop-append w s s' [] r e =
    let (t, filled, same) = await-waiting (fill_window w s) waiting s' e in
    ap (λ p. await p λ u. after_reply w u r) filled
    ∙ ap (λ u. after_reply w u r) (ap sender_of same)
transmit_loop-append w s s' (q ∷ rs) r e =
    let (t, filled, on) = await-waiting (fill_window w s) _ s' e in
    let (u, heard, rest) = decide-waiting (receive w t q) _ s' on in
    ap (λ p. await p λ x. decide (receive w x q) λ y. transmit_loop w y (rs ++ r ∷ [])) filled
    ∙ ap (λ out. decide out λ y. transmit_loop w y (rs ++ r ∷ [])) heard
    ∙ transmit_loop-append w u s' rs r rest

-- The sender that `transmit` starts with.
abbrev pub begun : Setting → Sender
begun g = (started (there g) g.start.garbage g.start.unset).sender

transmitting-begun :
    (g : Setting) (rs : List Reply)
    → g.start.opens ≡ true
    → transmitting g rs ≡ transmit_loop (there g) (begun g) rs
unfolding transmit open_socket
transmitting-begun g rs opens =
    ap (λ b. transmit (there g) (open_socket b (initial g.start.garbage g.start.unset)).0 rs) opens

sending-begun :
    (g : Setting) (rs : List Reply)
    → g.start.opens ≡ true
    → sending g rs ≡ exit_of (transmit_loop (there g) (begun g) rs)
unfolding sender_main send_out transmit open_socket
sending-begun g rs opens =
    ap (λ b. send_out (there g) rs (open_socket b (initial g.start.garbage g.start.unset))) opens

sending-closed :
    (g : Setting) (rs : List Reply) → g.start.opens ≡ false → sending g rs ≡ Main.no_socket
unfolding sender_main send_out open_socket
sending-closed g rs shut =
    ap (λ b. send_out (there g) rs (open_socket b (initial g.start.garbage g.start.unset))) shut

exit_of-waits : (out : Outcome) (s : Sender) → exit_of out ≡ waits s → out ≡ waiting s
unfolding exit_of
exit_of-waits (waiting t) s e = ap waiting (ap held e)
  where
    held : Exit → Sender
    held (waits u) = u
    held (done u) = u
    held Main.usage = s
    held Main.no_socket = s
exit_of-waits (returned worked t) s e = cc

-- A sender that waits, and one more reply.
module _ (g : Setting) (s : Sender) (rs : List Reply) (r : Reply) (e : sending g rs ≡ waits s) where
  opened : g.start.opens ≡ true
  opened = elim (Bool-cases g.start.opens) [
    | inl opens ↦ opens
    | inr shut ↦ absurd (clash (sym (sending-closed g rs shut) ∙ e))
  ]
    where
      clash : Main.no_socket ≡ waits s → ⊥
      clash h = cc

  looping : transmit_loop (there g) (begun g) (rs ++ r ∷ []) ≡ after_reply (there g) s r
  looping =
      transmit_loop-append (there g) (begun g) s rs r
        (exit_of-waits _ s (sym (sending-begun g rs opened) ∙ e))

  pub transmitting-append : transmitting g (rs ++ r ∷ []) ≡ after_reply (there g) s r
  transmitting-append = transmitting-begun g (rs ++ r ∷ []) opened ∙ looping

  pub sending-append : sending g (rs ++ r ∷ []) ≡ exit_of (after_reply (there g) s r)
  sending-append = sending-begun g (rs ++ r ∷ []) opened ∙ ap exit_of looping

-- Segments of the file only are sent, and a sender that waits stands where `filePosition_` says.
abbrev pub Holds : List ℕ → Exit → Type 0
Holds file Main.usage = Unit {0}
Holds file Main.no_socket = Unit {0}
Holds file (waits s) = IsSynced file s
Holds file (done s) = AllSegments file s.sent

module _ (w : World) (suits : Suits w) where
  abbrev file : List ℕ
  file = w.disk.contents

  filled-Holds :
      (s : Sender) → IsSynced file s → Holds file (exit_of (await (fill_window w s) waiting))
  filled-Holds s v = ended (fill_window w s) (fill_window-Keeps w suits s v)
    where
      ended : (p : Progress) → Keeps file p → Holds file (exit_of (await p waiting))
      ended (going s') k = unfold await exit_of in k
      ended (failing s') k = unfold await exit_of in k

  pub after_reply-Holds :
      (s : Sender) (r : Reply)
      → IsSynced file s
      → Timely w suits s r
      → Holds file (exit_of (after_reply w s r))
  after_reply-Holds s r v t = decided (receive w s r) (receive-After w suits s r v t)
    where
      decided :
          (out : Sender × Status)
          → After w suits out
          → Holds file (exit_of (decide out λ s'. await (fill_window w s') waiting))
      decided (s', finished) k = unfold decide exit_of in k.segments
      decided (s', normal) k = unfold decide in filled-Holds s' k
      decided (s', error) k = unfold decide exit_of in k

pub sending-begins : (g : Setting) → Suits (there g) → Holds (there g).disk.contents (sending g [])
sending-begins g suits = elim (Bool-cases g.start.opens) [
  | inl opens ↦ subst (Holds (there g).disk.contents) (sym (sending-begun g [] opens)) (
      unfold transmit_loop in
      filled-Holds (there g) suits (begun g)
        (started-IsSafe (there g) suits g.start.garbage g.start.unset).synced)
  | inr shut ↦ subst (Holds (there g).disk.contents) (sym (sending-closed g [] shut)) tt
]

-- `transmit` returns true only at a reply that finishes it.
await-true : (p : Progress) (s : Sender) → await p waiting ≡ returned true s → ⊥
unfolding await
await-true (going s') s e = cc
await-true (failing s') s e = cc

pub after_reply-true :
    (w : World) (s s' : Sender) (r : Reply)
    → after_reply w s r ≡ returned true s'
    → (t : Sender) × (receive w s r ≡ (t, finished))
unfolding decide
after_reply-true w s s' r e = decided (receive w s r) e
  where
    decided :
        (out : Sender × Status)
        → decide out (λ t. await (fill_window w t) waiting) ≡ returned true s'
        → (t : Sender) × (out ≡ (t, finished))
    decided (t, finished) h = (t, refl)
    decided (t, normal) h = absurd (await-true (fill_window w t) s' h)
    decided (t, error) h = cc

pub transmitting-begins : (g : Setting) (s : Sender) → transmitting g [] ≡ returned true s → ⊥
transmitting-begins g s e = elim (Bool-cases g.start.opens) [
  | inl opens ↦
      await-true (fill_window (there g) (begun g)) s
        (unfold transmit_loop in sym (transmitting-begun g [] opens) ∙ e)
  | inr shut ↦ refused (sym (transmitting-shut shut) ∙ e)
]
  where
    transmitting-shut :
        g.start.opens ≡ false
        → transmitting g [] ≡ returned false (initial g.start.garbage g.start.unset)
    transmitting-shut shut =
        unfold transmit open_socket initial in
        ap (λ b. transmit (there g) (open_socket b (initial g.start.garbage g.start.unset)).0 [])
          shut

    refused : returned false (initial g.start.garbage g.start.unset) ≡ returned true s → ⊥
    refused h = cc
