-- ===== src/Receiver/Specific.antt =====
-- The specific losses of `receivePacket`, when their numbers rise.
use comnet.Base.{
  ℕ, ◌+◌, ◌≤◌, ◌<◌, ◌≡◌, refl, sym, ap, ◌∙◌, Bool, true, false, ◌||◌, List, [], ◌∷◌, ◌++◌,
  append_assoc, inl, inr, arith, ◌==◌, length, length-append, get_or, if◌then◌else◌, if_true,
  if_false, Bool-cases, subst, ◌-◌,
}
use comnet.Packet.{Packet}
use comnet.Receiver.{
  Receiver, Machine, Endpoint, received, Reading, got, skipped, receive_packet, filter_loss,
  periodic_loss, specific_loss, note_source,
}

pub elem : ℕ → List ℕ → Bool
elem n [] = false
elem n (p ∷ ps) = (n == p) || elem n ps

abbrev pub Rising : ℕ → List ℕ → Type 0
Rising n [] = Unit {0}
Rising n (p ∷ ps) = (n < p) × Rising p ps

abbrev pub Past : ℕ → List ℕ → Type 0
Past n [] = Unit {0}
Past n (p ∷ ps) = (p ≤ n) × Past n ps

-- `specificPosition_` is at the first loss that is to come.
pub record IsOnTrack (r : Receiver) : Type 0 where
  pub past : List ℕ
  pub ahead : List ℕ
  pub split : r.specific_packets ≡ past ++ ahead
  pub at : r.specific_position ≡ length past
  pub over : Past r.rsn past
  pub rising : Rising r.rsn ahead
  pub on : r.specific ≡ true
  pub only : r.periodic ≡ false

get_or-append : (xs ys : List ℕ) (d : ℕ) → get_or (xs ++ ys) (length xs) d ≡ get_or ys 0 d
get_or-append [] ys d = refl
get_or-append (x ∷ xs) ys d = get_or-append xs ys d

elem-append : (n : ℕ) (xs ys : List ℕ) → elem n (xs ++ ys) ≡ elem n xs || elem n ys
unfolding elem
elem-append n [] ys = refl
elem-append n (x ∷ xs) ys = ground (arith, elem-append n xs ys)

elem-Past : (n : ℕ) (ps : List ℕ) → Past n ps → elem (n + 1) ps ≡ false
unfolding elem
elem-Past n [] h = refl
elem-Past n (p ∷ ps) h = ground (arith, elem-Past n ps h.1)

elem-Rising : (n m : ℕ) (ps : List ℕ) → n ≤ m → Rising m ps → elem n ps ≡ false
unfolding elem
elem-Rising n m [] k h = refl
elem-Rising n m (p ∷ ps) k h = ground (arith, elem-Rising n p ps (omega (arith, h.0)) h.1)

Past-later : (n m : ℕ) (ps : List ℕ) → n ≤ m → Past n ps → Past m ps
Past-later n m [] k h = tt
Past-later n m (p ∷ ps) k h = (omega (arith, h.0), Past-later n m ps k h.1)

Past-append : (n p : ℕ) (ps : List ℕ) → Past n ps → p ≤ n → Past n (ps ++ p ∷ [])
Past-append n p [] h k = (k, tt)
Past-append n p (q ∷ ps) h k = (h.0, Past-append n p ps h.1 k)

elem-IsOnTrack :
    (r : Receiver) (v : IsOnTrack r)
    → elem (r.rsn + 1) r.specific_packets ≡ elem (r.rsn + 1) v.ahead
elem-IsOnTrack r v =
    ap (elem (r.rsn + 1)) v.split
    ∙ elem-append (r.rsn + 1) v.past v.ahead
    ∙ ap (λ b. b || elem (r.rsn + 1) v.ahead) (elem-Past r.rsn v.past v.over)

-- The number that the next datagram is compared with.
due :
    (mach : Machine) (r : Receiver) (v : IsOnTrack r)
    → get_or r.specific_packets r.specific_position
        (mach.past_specific (r.specific_position - length r.specific_packets))
      ≡ get_or v.ahead 0 (mach.past_specific 0)
due mach r v =
    ap (λ k. get_or r.specific_packets r.specific_position (mach.past_specific k)) not_past
    ∙ rw (v.split, v.at) (get_or-append v.past v.ahead (mach.past_specific 0))
  where
    not_past : r.specific_position - length r.specific_packets ≡ 0
    not_past = omega (arith, v.at, ap length v.split, length-append v.past v.ahead)

-- The two ways of a datagram.
module _ (mach : Machine) (r : Receiver) (p : Packet) (from : Endpoint) (v : IsOnTrack r) where
  abbrev after : Receiver × Reading
  after = receive_packet mach r (received p from)

  abbrev Exact : Receiver × Reading → Type 0
  Exact out =
      IsOnTrack out.0 × (out.1 ≡ (if elem (r.rsn + 1) r.specific_packets then skipped else got p))

  drop :
      (r.rsn + 1 == get_or v.ahead 0 (mach.past_specific 0)) ≡ true
      → after ≡ (record r { rsn = r.rsn + 1; specific_position = r.specific_position + 1 }, skipped)
  unfolding receive_packet filter_loss periodic_loss specific_loss
  drop e = rw (v.only, v.on, due mach r v, e)

  keep :
      (r.rsn + 1 == get_or v.ahead 0 (mach.past_specific 0)) ≡ false
      → after ≡ (note_source (record r { rsn = r.rsn + 1 }) from, got p)
  unfolding receive_packet filter_loss periodic_loss specific_loss
  keep e = rw (v.only, v.on, due mach r v, e)

  counted-IsOnTrack :
      (ahead : List ℕ)
      → v.ahead ≡ ahead
      → Rising (r.rsn + 1) ahead
      → IsOnTrack (note_source (record r { rsn = r.rsn + 1 }) from)
  unfolding note_source
  counted-IsOnTrack ahead e rising = elim (Bool-cases (r.acked_position == 0)) [
    | inl new ↦ rw new (record {
      past = v.past;
      ahead = ahead;
      split = v.split ∙ ap (λ xs. v.past ++ xs) e;
      at = v.at;
      over = Past-later r.rsn (r.rsn + 1) v.past (omega arith) v.over;
      rising = rising;
      on = v.on;
      only = v.only;
    })
    | inr old ↦ rw old (record {
      past = v.past;
      ahead = ahead;
      split = v.split ∙ ap (λ xs. v.past ++ xs) e;
      at = v.at;
      over = Past-later r.rsn (r.rsn + 1) v.past (omega arith) v.over;
      rising = rising;
      on = v.on;
      only = v.only;
    })
  ]

  kept-Exact :
      (ahead : List ℕ)
      → v.ahead ≡ ahead
      → Rising (r.rsn + 1) ahead
      → (r.rsn + 1 == get_or v.ahead 0 (mach.past_specific 0)) ≡ false
      → Exact after
  kept-Exact ahead e rising other = subst Exact (sym (keep other)) (
    counted-IsOnTrack ahead e rising,
    sym (
        if_false _ _ _ (
          elem-IsOnTrack r v
          ∙ ap (elem (r.rsn + 1)) e
          ∙ elem-Rising (r.rsn + 1) (r.rsn + 1) ahead (omega arith) rising)),
  )

  dropped-Exact : (ps : List ℕ) → v.ahead ≡ (r.rsn + 1) ∷ ps → Rising (r.rsn + 1) ps → Exact after
  dropped-Exact ps e rising = subst Exact (sym (drop same)) (
    record {
      past = v.past ++ (r.rsn + 1) ∷ [];
      ahead = ps;
      split = v.split ∙ ap (λ xs. v.past ++ xs) e ∙ sym (append_assoc v.past ((r.rsn + 1) ∷ []) ps);
      at = omega (arith, length-append v.past ((r.rsn + 1) ∷ []), v.at);
      over =
          Past-append (r.rsn + 1) (r.rsn + 1) v.past
            (Past-later r.rsn (r.rsn + 1) v.past (omega arith) v.over) (omega arith);
      rising = rising;
      on = v.on;
      only = v.only;
    },
    sym (if_true _ _ _ (elem-IsOnTrack r v ∙ ap (elem (r.rsn + 1)) e ∙ here)),
  )
    where
      same : (r.rsn + 1 == get_or v.ahead 0 (mach.past_specific 0)) ≡ true
      same = rw e (ground arith)

      here : elem (r.rsn + 1) ((r.rsn + 1) ∷ ps) ≡ true
      here = unfold elem in ground arith

  -- If the numbers of the specific losses rise and 0 lies behind them in memory, a datagram is
  -- dropped exactly if its number is one of them, and the numbers that are left still rise.
  pub receive_packet-IsOnTrack :
      mach.past_specific 0 ≡ 0
      → IsOnTrack (receive_packet mach r (received p from)).0
        × ((receive_packet mach r (received p from)).1
            ≡ (if elem (r.rsn + 1) r.specific_packets then skipped else got p))
  receive_packet-IsOnTrack zero_behind = with_ahead v.ahead refl
    where
      with_ahead : (ahead : List ℕ) → v.ahead ≡ ahead → Exact after
      with_ahead [] e = kept-Exact [] e tt (rw (e, zero_behind) (ground arith))
      with_ahead (a ∷ ps) e = elim (Bool-cases (r.rsn + 1 == a)) [
        | inl now ↦
            let same : a ≡ r.rsn + 1 = ground arith in
            dropped-Exact ps (e ∙ ap (λ n. n ∷ ps) same)
              (subst (λ n. Rising n ps) same (subst (Rising r.rsn) e v.rising).1)
        | inr later ↦
            let h = subst (Rising r.rsn) e v.rising in
            kept-Exact (a ∷ ps) e (ground (arith, h.0), h.1) (rw e later)
      ]
