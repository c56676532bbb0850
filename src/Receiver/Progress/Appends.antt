-- ===== src/Receiver/Progress/Appends.antt =====
-- What saving, keeping early segments and taking them up do to the bytes that are held:
-- `processPacket`, `storeEarlyData` and `checkEarlyData`.
use comnet.Base.{
  ℕ, zero, suc, ◌+◌, ◌≡◌, refl, sym, true, List, [], ◌∷◌, ◌++◌, some, inl, inr, arith, length,
  length-append, u32, read_array, Option-cases, append_assoc, append-nil,
}
use comnet.Packet.{Packet}
use comnet.Receiver.{
  Receiver, Early, Machine, find, take_packet, store_early_data, take_early, check_early_loop,
}

-- `ackedPosition_` counts the bytes that were saved.
abbrev pub IsCounted : Receiver → Type 0
IsCounted r = r.acked_position ≡ u32 (length r.recv_data)

-- `r'` is a later state of `r`: bytes were only appended, the count is kept, FIN is not undone.
pub record Advances (r r' : Receiver) : Type 0 where
  pub added : List ℕ
  pub appended : r'.recv_data ≡ r.recv_data ++ added
  pub counted : r'.acked_position ≡ u32 (length r'.recv_data)
  pub final : r.fin ≡ true → r'.fin ≡ true

pub Advances-self : (r : Receiver) → IsCounted r → Advances r r
Advances-self r c = record {
  added = [];
  appended = sym (append-nil r.recv_data);
  counted = c;
  final = λ e. e;
}

pub Advances-trans : {r s t : Receiver} → Advances r s → Advances s t → Advances r t
Advances-trans {r} a b = record {
  added = a.added ++ b.added;
  appended = rw (b.appended, a.appended) (append_assoc r.recv_data a.added b.added);
  counted = b.counted;
  final = λ e. b.final (a.final e);
}

pub length-read_array : (n : ℕ) (xs ys : List ℕ) → read_array n xs ≡ some ys → length ys ≡ n
unfolding read_array
length-read_array zero xs ys h = ground arith
length-read_array (suc n) [] ys h = cc
length-read_array (suc n) (x ∷ xs) ys h = elim (Option-cases (read_array n xs)) [
  | inl e ↦ ground arith
  | inr (zs, e) ↦ ground (arith, length-read_array n xs zs e)
]

pub take_packet-Advances :
    (r : Receiver) (p : Packet) (bytes : List ℕ)
    → IsCounted r
    → length bytes ≡ p.data_len
    → Advances r (take_packet r p bytes)
unfolding take_packet
take_packet-Advances r p bytes c h = record {
  added = bytes;
  appended = refl;
  counted = omega (arith, length-append r.recv_data bytes);
  final = λ e. ground arith;
}

pub take_early-Advances :
    (r : Receiver) (k : ℕ) (e : Early) → IsCounted r → Advances r (take_early r k e)
unfolding take_early
take_early-Advances r k e c = record {
  added = e.bytes;
  appended = refl;
  counted = omega (arith, length-append r.recv_data e.bytes);
  final = λ e. ground arith;
}

pub store_early_data-Advances :
    (mach : Machine) (r : Receiver) (p : Packet)
    → IsCounted r
    → Advances r (store_early_data mach r p)
unfolding store_early_data
store_early_data-Advances mach r p c = record {
  added = [];
  appended = sym (append-nil r.recv_data);
  counted = c;
  final = λ e. e;
}

pub check_early_loop-Advances :
    (fuel : ℕ) (r : Receiver) → IsCounted r → Advances r (check_early_loop fuel r)
unfolding check_early_loop
check_early_loop-Advances zero r c = Advances-self r c
check_early_loop-Advances (suc fuel) r c =
    elim (Option-cases (find (u32 (r.acked_position + 1)) r.buffer)) [
      | inl e ↦ rw (e, check_early_loop) (Advances-self r c)
      | inr (d, e) ↦
          let a = take_early-Advances r (u32 (r.acked_position + 1)) d c in
          rw (e, check_early_loop) (Advances-trans a (check_early_loop-Advances fuel _ a.counted))
    ]
