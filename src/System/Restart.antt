-- ===== src/System/Restart.antt =====
-- A transfer after a timeout, with both ends in step.
use comnet.Base.{ℕ, ◌+◌, ◌≡◌, refl, false, List, arith}
use comnet.Base.Int.{pos}
use comnet.Sender.{slow_start, World}
use comnet.Sender.Sync.{Suits}
use comnet.Sender.Window.{process_timeout}
use comnet.Sender.Replies
use comnet.Sender.Resending.{process_timeout-works}
use comnet.Receiver.{Machine}
use comnet.Receiver.Direct.{IsDirect}
use comnet.System.{System, Step, times_out, Reach, here, next, IsSafe, Step-IsSafe}

-- The sender knows how far the receiver has come, which drops nothing, keeps nothing early and
-- waits for more.
pub record IsInStep (y : System) : Type 0 where
  pub together : y.sender.acked_position ≡ y.receiver.acked_position + 1
  pub direct : IsDirect y.receiver
  pub running : y.receiver.fin ≡ false

module _ (w : World) (mach : Machine) (suits : Suits w) where
  abbrev file : List ℕ
  file = w.disk.contents

  -- After the timeout.
  pub record Restarted (y z : System) : Type 0 where
    pub reached : Reach w mach y z
    pub safe : IsSafe file z
    pub in_step : IsInStep z
    pub starting : z.sender.state ≡ slow_start
    pub one_segment : z.sender.cwnd ≡ 1
    pub none_out : z.sender.not_acked ≡ pos 0
    pub ready : z.sender.message.failing ≡ false
    pub place : z.sender.file_position ≡ z.receiver.acked_position
    pub same_receiver : z.receiver ≡ y.receiver

  pub restart : (y : System) → IsSafe file y → IsInStep y → (z : System) × Restarted y z
  restart y v i = (
    z,
    record {
      reached = next here st;
      safe = Step-IsSafe w mach suits st v;
      in_step = record {
        together = unfold process_timeout in i.together;
        direct = i.direct;
        running = i.running;
      };
      starting = unfold process_timeout in refl;
      one_segment = unfold process_timeout in refl;
      none_out = unfold process_timeout in refl;
      ready = process_timeout-works w suits y.sender;
      place = unfold process_timeout in omega (arith, i.together, v.prefix.fits, suits.text.small);
      same_receiver = refl;
    },
  )
    where
      z : System
      z = record y { sender = process_timeout w y.sender }

      st : Step w mach y z
      st = times_out {y = y} (process_timeout w y.sender) (unfold Replies.receive in refl)
