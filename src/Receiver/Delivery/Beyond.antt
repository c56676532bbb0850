-- ===== src/Receiver/Delivery/Beyond.antt =====
-- The bytes behind `packet` in memory, that `storeEarlyData` reads where a chunk is full: the string
-- is cut back to the chunk, and they make no difference.
use comnet.Base.{ℕ, ◌+◌, ◌≡◌, refl, sym, ap, ◌∙◌, List, resize-c_string}
use comnet.Packet.{Packet}
use comnet.Segment.{IsSegment}
use comnet.Receiver.Loss.{filter_loss_cases}
use comnet.Receiver.Delivery.Prefix.{Carries}
use comnet.Receiver.{
  Receiver, Machine, Endpoint, Arrival, received, failed, raised, Reading, got, skipped, assign,
  filter_loss, specific_loss, receive_packet, store_early_data, respond, act, step,
}

module _ (file : List ℕ) (mach : Machine) (past : List ℕ) where
  -- The same memory, but for what lies behind `packet`.
  abbrev pub other : Machine
  other = record mach { past_packet = past }

  store_early_data-other :
      (r : Receiver) (p : Packet)
      → IsSegment file p
      → store_early_data other r p ≡ store_early_data mach r p
  unfolding store_early_data
  store_early_data-other r p s =
      ap
        (λ (b : List ℕ). record r {
          buffer = assign p.seq_num (record { bytes = b; last = p.fin }) r.buffer;
        })
        (resize-c_string p.data_len p.payload past s.short s.no_nul
          ∙ sym (resize-c_string p.data_len p.payload mach.past_packet s.short s.no_nul))

  respond-other :
      (r : Receiver) (p : Packet) → IsSegment file p → respond other r p ≡ respond mach r p
  unfolding respond
  respond-other r p s = rw (store_early_data-other r p s)

  act-other :
      (r : Receiver) (from : Endpoint) (reading : Reading)
      → ((q : Receiver) → act other q reading ≡ act mach q reading)
      → act other (filter_loss mach r from reading).0 (filter_loss mach r from reading).1
        ≡ act mach (filter_loss mach r from reading).0 (filter_loss mach r from reading).1
  act-other r from reading same =
      filter_loss_cases (λ out. act other out.0 out.1 ≡ act mach out.0 out.1) mach r from reading
        (unfold act in refl) (unfold act in refl) (same _) (same r)

  pub step-other : (r : Receiver) (a : Arrival) → Carries file a → step other r a ≡ step mach r a
  unfolding step receive_packet filter_loss specific_loss
  step-other r (received p from) s =
      act-other (record r { rsn = r.rsn + 1 }) from (got p) (λ q. unfold act in respond-other q p s)
  step-other r (failed from) s =
      act-other (record r { rsn = r.rsn + 1 }) from skipped (λ q. unfold act in refl)
  step-other r raised s = unfold act in refl
