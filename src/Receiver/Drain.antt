-- ===== src/Receiver/Drain.antt =====
-- The loop of `checkEarlyData`, against its big-step meaning without fuel.
use comnet.Base.{
  ℕ, zero, suc, ◌+◌, ◌≤◌, ◌<◌, ◌≡◌, refl, List, [], ◌∷◌, none, some, inl, inr, arith, length, u32,
  Option-cases,
}
use comnet.Receiver.{Receiver, Early, find, erase, take_early, check_early_loop, check_early_data}

-- What `while(true)` does: a round at the entry that is due, until there is none.
pub data Drains : Receiver → Receiver → Type 0 where
  stop : {r : Receiver} → find (u32 (r.acked_position + 1)) r.buffer ≡ none → Drains r r
  round :
      {r r' : Receiver} (e : Early)
      → find (u32 (r.acked_position + 1)) r.buffer ≡ some e
      → Drains (take_early r (u32 (r.acked_position + 1)) e) r'
      → Drains r r'

length-erase-le : (k : ℕ) (m : List (ℕ × Early)) → length (erase k m) ≤ length m
unfolding erase
length-erase-le k [] = omega arith
length-erase-le k ((j, e) ∷ m) = ground (arith, length-erase-le k m)

length-erase-lt :
    (k : ℕ) (m : List (ℕ × Early)) (e : Early) → find k m ≡ some e → length (erase k m) < length m
unfolding erase find
length-erase-lt k [] e h = cc
length-erase-lt k ((j, d) ∷ m) e h = ground (arith, length-erase-lt k m e, length-erase-le k m)

check_early_loop-Drains :
    (fuel : ℕ) (r : Receiver) → length r.buffer ≤ fuel → Drains r (check_early_loop fuel r)
unfolding check_early_loop
check_early_loop-Drains zero r h = stop (nothing r.buffer h)
  where
    nothing : (m : List (ℕ × Early)) → length m ≤ 0 → find (u32 (r.acked_position + 1)) m ≡ none
    nothing [] h = unfold find in refl
    nothing (x ∷ m) h = absurd (omega arith)
check_early_loop-Drains (suc fuel) r h =
    elim (Option-cases (find (u32 (r.acked_position + 1)) r.buffer)) [
      | inl e ↦ rw (e, check_early_loop) (stop e)
      | inr (d, e) ↦
          rw (e, check_early_loop)
            (round {r = r} d e (
              check_early_loop-Drains fuel _
                (unfold take_early in omega (arith, length-erase-lt _ r.buffer d e))))
    ]

-- As many rounds as there are entries are enough: `checkEarlyData` ends, having taken each entry
-- that was due in turn, and stops only where the buffer has none for the next position.
pub check_early_data-Drains : (r : Receiver) → Drains r (check_early_data r)
unfolding check_early_data
check_early_data-Drains r = check_early_loop-Drains (length r.buffer) r (omega arith)
