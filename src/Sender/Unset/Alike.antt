-- ===== src/Sender/Unset/Alike.antt =====
-- What `transmit` does, whatever the constructor leaves in `caAckCount_` and `message_`.
use comnet.Base.{ℕ, ◌≡◌, refl, sym, subst, true, List, [], ◌∷◌, inl, inr}
use comnet.Stream.{Stream}
use comnet.Sender.{Sender, World, Progress, going, failing, initial, open_socket}
use comnet.Sender.Window.{fill_window}
use comnet.Sender.Replies.{
  Reply, Status, finished, normal, error, receive, Outcome, waiting, returned, decide, await,
  transmit_loop, transmit,
}
use comnet.Sender.Reno.Grows.{fill_window-control}
use comnet.Sender.Unset.{recount, recount_progress, fill_window-recount}
use comnet.Sender.Unset.Heard.{Alike, AlikeOut, Outside, Controls-Outside, receive-Alike}

module _ (g : ℕ) (w : World) where
  -- The same end, or the same wait.
  abbrev pub AlikeEnd : Outcome → Outcome → Type 0
  AlikeEnd (waiting s) (waiting s') = Alike g w s s'
  AlikeEnd (waiting s) (returned worked' s') = ⊥
  AlikeEnd (returned worked s) (waiting s') = ⊥
  AlikeEnd (returned worked s) (returned worked' s') = (worked' ≡ worked) × Alike g w s s'

  abbrev AlikeNext : (Sender → Outcome) → Type 0
  AlikeNext next = (s s' : Sender) → Alike g w s s' → AlikeEnd (next s) (next s')

  await-Alike :
      (s s' : Sender) (next : Sender → Outcome)
      → Alike g w s s'
      → AlikeNext next
      → AlikeEnd (await (fill_window w s) next) (await (fill_window w s') next)
  await-Alike s s' next (inl e) h =
      subst (λ x. AlikeEnd (await (fill_window w s) next) (await (fill_window w x) next)) (sym e)
        (same (fill_window w s))
    where
      same : (p : Progress) → AlikeEnd (await p next) (await p next)
      same (going t) = unfold await in h t t (inl refl)
      same (failing t) = unfold await in (refl, inl refl)
  await-Alike s s' next (inr (e, out)) h =
      subst (λ x. AlikeEnd (await (fill_window w s) next) (await (fill_window w x) next)) (sym e)
        (subst (λ p. AlikeEnd (await (fill_window w s) next) (await p next))
          (sym (fill_window-recount g w s))
          (other (fill_window w s) (Controls-Outside g w s _ out (fill_window-control w s))))
    where
      other :
          (p : Progress)
          → Outside g w p
          → AlikeEnd (await p next) (await (recount_progress g p) next)
      other (going t) k = unfold await in h t (recount g t) (inr (refl, k))
      other (failing t) k = unfold await in (refl, inr (refl, k))

  decide-Alike :
      (out out' : Sender × Status) (next : Sender → Outcome)
      → AlikeOut g w out out'
      → AlikeNext next
      → AlikeEnd (decide out next) (decide out' next)
  decide-Alike (s, st) (s', st') next (e, a) h =
      subst (λ x. AlikeEnd (decide (s, st) next) (decide (s', x) next)) (sym e) (same st)
    where
      same : (t : Status) → AlikeEnd (decide (s, t) next) (decide (s', t) next)
      same finished = unfold decide in (refl, a)
      same normal = unfold decide in h s s' a
      same error = unfold decide in (refl, a)

  transmit_loop-Alike : (replies : List Reply) → AlikeNext (λ s. transmit_loop w s replies)
  unfolding transmit_loop
  transmit_loop-Alike [] s s' a = await-Alike s s' waiting a λ t t' k. k
  transmit_loop-Alike (r ∷ rest) s s' a = await-Alike s s' _ a λ t t' k.
      decide-Alike (receive w t r) (receive w t' r) _ (receive-Alike g w t t' r k)
        (transmit_loop-Alike rest)

-- Whatever the constructor leaves in `caAckCount_` and `message_`, with its socket open the sender
-- sends the same, waits and returns the same after any replies, and agrees in every member but
-- `caAckCount_`, which may differ only outside of congestion avoidance.
pub transmit-Alike :
    (w : World) (garbage garbage' : ℕ) (unset unset' : Stream) (replies : List Reply)
    → AlikeEnd garbage' w
        (transmit w (open_socket true (initial garbage unset)).0 replies)
        (transmit w (open_socket true (initial garbage' unset')).0 replies)
unfolding transmit open_socket initial
transmit-Alike w garbage garbage' unset unset' replies =
    transmit_loop-Alike garbage' w replies _ _ (inr (refl, λ e. cc))
