-- ===== src/Receiver/Loss.antt =====
-- The simulated loss of `receivePacket`.
use comnet.Base.{◌+◌, inl, inr, Bool-cases, ◌==◌}
use comnet.Receiver.{
  Receiver, Machine, Endpoint, Reading, skipped, periodic_loss, specific_loss, filter_loss,
}

-- The three ways through the filter.
pub filter_loss_cases {ℓ} :
    (P : Receiver × Reading → Type ℓ) (mach : Machine) (r : Receiver) (from : Endpoint)
    (reading : Reading)
    → P (r, skipped)
    → P (record r { specific_position = r.specific_position + 1 }, skipped)
    → P (record r { source = from }, reading)
    → P (r, reading)
    → P (filter_loss mach r from reading)
unfolding filter_loss
filter_loss_cases P mach r from reading periodically specifically first later =
    elim (Bool-cases (periodic_loss r)) [
      | inl drop ↦ rw drop periodically
      | inr keep ↦ elim (Bool-cases (specific_loss mach r)) [
        | inl drop ↦ rw (keep, drop) specifically
        | inr keep' ↦ elim (Bool-cases (r.acked_position == 0)) [
          | inl new ↦ rw (keep, keep', new) first
          | inr old ↦ rw (keep, keep', old) later
        ]
      ]
    ]
