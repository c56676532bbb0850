-- ===== src/Sender/Branches.antt =====
-- The branches of `ssReceive`, `caReceive` and `frReceive`, told apart once for every proof.
use comnet.Base.{ℕ, ◌≡◌, refl, Bool, true, false, if◌then◌else◌}
use comnet.Packet.{Packet}
use comnet.Sender.Replies.{
  Status, finished, normal, final_ack, is_dup_ack, is_new_ack, accept_ack, count_dup, third_dup,
  grow_slow_start, grow_avoidance, leave_recovery, ss_receive, ca_receive, inflate, fr_receive,
  receive_in,
}
use comnet.Sender.{State, slow_start, congestion_avoidance, fast_recovery, Sender, World}

-- A ladder of three tests, as the three functions have it.
pub branches {ℓ} :
    {A : Type 0} (P : A → Type ℓ) (x y : A) {a z : A} (f d n : Bool)
    → P a
    → P x
    → (n ≡ true → P y)
    → P z
    → P (if f then a else if d then x else if n then y else z)
branches P x y true d n pa px py pz = pa
branches P x y false true n pa px py pz = px
branches P x y false false true pa px py pz = py refl
branches P x y false false false pa px py pz = pz

-- The growth of the window on a new acknowledgement.
unfoldable pub grow : State → ℕ → ℕ → Sender → Sender
grow slow_start temp ack = grow_slow_start
grow congestion_avoidance temp ack = grow_avoidance
grow fast_recovery temp ack = leave_recovery temp ack

-- What a duplicate does.
unfoldable pub on_dup : State → World → Sender → Sender × Status
on_dup slow_start w s = third_dup w (count_dup s)
on_dup congestion_avoidance w s = third_dup w (count_dup s)
on_dup fast_recovery w s = (inflate (count_dup s), normal)

-- The four ways through a reply, in every state.
pub receive_in_cases {ℓ} :
    (P : Sender × Status → Type ℓ) (st : State) (w : World) (s : Sender) (p : Packet)
    → P (s, finished)
    → P (on_dup st w s)
    → (is_new_ack s p ≡ true → P (grow st s.acked_position p.ack_num (accept_ack w s p), normal))
    → P (s, normal)
    → P (receive_in st w s p)
unfolding receive_in ss_receive ca_receive fr_receive on_dup grow
receive_in_cases P slow_start w s p last dup new other =
    branches P _ _ (final_ack p) (is_dup_ack s p) (is_new_ack s p) last dup new other
receive_in_cases P congestion_avoidance w s p last dup new other =
    branches P _ _ (final_ack p) (is_dup_ack s p) (is_new_ack s p) last dup new other
receive_in_cases P fast_recovery w s p last dup new other =
    branches P _ _ (final_ack p) (is_dup_ack s p) (is_new_ack s p) last dup new other
