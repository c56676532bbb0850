-- ===== src/Sender/Reno.antt =====
-- TCP Reno without segments, streams and clocks: what the congestion control of the sender is to do.
pub mod Implements
pub mod Grows
use comnet.Base.{ℕ, ◌+◌, ◌*◌, ◌/◌, ◌≡◌, refl, true, ltb, leb, arith, ◌==◌, ◌&&◌, if◌then◌else◌}
use comnet.Base.{◌≢◌}
use comnet.Sender.{State, slow_start, congestion_avoidance, fast_recovery, Sender}
use comnet.Sender.Replies.{Reply, nothing, reply, final_ack}

-- What the congestion control keeps: windows in segments, the threshold in bytes.
pub record Control : Type 0 where
  pub state : State
  pub cwnd : ℕ
  pub ssthresh : ℕ
  pub dups : ℕ
  pub growth : ℕ
  pub acked : ℕ

abbrev pub control : Sender → Control
control s = record {
  state = s.state;
  cwnd = s.cwnd;
  ssthresh = s.ssthresh;
  dups = s.dup_ack_count;
  growth = s.ca_ack_count;
  acked = s.acked_position;
}

pub data Event : Type 0 where
  timeout last repeated other : Event
  fresh : ℕ → Event

abbrev pub event_of : ℕ → Reply → Event
event_of acked nothing = timeout
event_of acked (reply p) =
    if final_ack p
    then last
    else if p.ack && leb p.ack_num acked
    then repeated
    else if p.ack && ltb acked p.ack_num
    then fresh p.ack_num
    else other

-- The third duplicate halves the window, and three segments are known to have left the network.
pub count_repeated : Control → Control
count_repeated c =
    if c.dups == 2
    then record c {
      state = fast_recovery;
      cwnd = c.cwnd / 2 + 3;
      ssthresh = c.cwnd / 2 * 100;
      dups = 3;
    }
    else record c { dups = c.dups + 1 }

pub on_repeated : State → Control → Control
on_repeated slow_start c = count_repeated c
on_repeated congestion_avoidance c = count_repeated c
on_repeated fast_recovery c = record c { cwnd = c.cwnd + 1; dups = c.dups + 1 }

-- Exponential growth up to the threshold, one segment for each window after that.
pub on_fresh : State → Control → Control
on_fresh slow_start c =
    if ltb ((c.cwnd + 1) * 100) c.ssthresh
    then record c { cwnd = c.cwnd + 1 }
    else record c { state = congestion_avoidance; cwnd = c.cwnd + 1; growth = 0 }
on_fresh congestion_avoidance c =
    if c.growth + 1 == c.cwnd
    then record c { cwnd = c.cwnd + 1; growth = 0 }
    else record c { growth = c.growth + 1 }
on_fresh fast_recovery c = record c {
  state = congestion_avoidance;
  cwnd = c.ssthresh / 100;
  growth = 0;
}

pub reno : Control → Event → Control
reno c timeout = record c { state = slow_start; cwnd = 1; ssthresh = c.cwnd * 50; dups = 0 }
reno c last = c
reno c other = c
reno c repeated = on_repeated c.state c
reno c (fresh ack) = on_fresh c.state (record c { dups = 0; acked = ack })

pub reno-enters :
    (c : Control)
    → c.state ≢ fast_recovery
    → c.dups ≡ 2
    → ((reno c repeated).state ≡ fast_recovery) × ((reno c repeated).ssthresh ≡ c.cwnd / 2 * 100)
unfolding reno
reno-enters c outside second = entering c.state outside
  where
    second_one : (c.dups == 2) ≡ true
    second_one = ground arith

    counted :
        ((count_repeated c).state ≡ fast_recovery)
        × ((count_repeated c).ssthresh ≡ c.cwnd / 2 * 100)
    counted = unfold count_repeated in rw second_one (refl, refl)

    entering :
        (st : State)
        → st ≢ fast_recovery
        → ((on_repeated st c).state ≡ fast_recovery)
          × ((on_repeated st c).ssthresh ≡ c.cwnd / 2 * 100)
    entering slow_start out = unfold on_repeated in counted
    entering congestion_avoidance out = unfold on_repeated in counted
    entering fast_recovery out = absurd (out refl)

pub reno-stays :
    (c : Control)
    → c.state ≡ fast_recovery
    → ((reno c repeated).state ≡ fast_recovery) × ((reno c repeated).ssthresh ≡ c.ssthresh)
unfolding reno on_repeated
reno-stays c e = rw e (refl, refl)

pub reno-leaves :
    (c : Control) (ack : ℕ)
    → c.state ≡ fast_recovery
    → ((reno c (fresh ack)).state ≡ congestion_avoidance)
      × ((reno c (fresh ack)).cwnd ≡ c.ssthresh / 100)
unfolding reno on_fresh
reno-leaves c ack e = rw e (refl, refl)
