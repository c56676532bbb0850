-- ===== src/Receiver/Complete/Buffer.antt =====
-- Datagrams that came, at a position of the receiver and with what it keeps.
use comnet.Base.{
  Bool, ◌||◌, ◌≢◌, ℕ, suc, zero, ◌+◌, ◌<◌, ◌≡◌, ◌⊎◌, refl, sym, ap, ◌∙◌, true, false, List, [], ◌∷◌,
  none, some, inl, inr, arith, Bool-cases, ◌==◌, length, if_true,
}
use comnet.Packet.{Packet}
use comnet.Receiver.{Early, find, erase, assign}

find-erase : (k j : ℕ) (m : List (ℕ × Early)) → (k == j) ≡ false → find k (erase j m) ≡ find k m
unfolding find erase
find-erase k j [] h = refl
find-erase k j ((i, e) ∷ m) h = ground (arith, find-erase k j m h)

pub find-assign_other :
    (k j : ℕ) (e : Early) (m : List (ℕ × Early))
    → (k == j) ≡ false
    → find k (assign j e m) ≡ find k m
unfolding find assign
find-assign_other k j e m h = ground (arith, find-erase k j m h)

pub find-assign_same : (k : ℕ) (e : Early) (m : List (ℕ × Early)) → find k (assign k e m) ≡ some e
unfolding find assign
find-assign_same k e m = if_true _ _ _ (self k)
  where
    self : (n : ℕ) → (n == n) ≡ true
    self n = ground arith

-- The length of a segment, and whether it is the last one, are told by its sequence number.
module _ (span : ℕ → ℕ) (final : ℕ → Bool) where
  abbrev pub Sized : List (ℕ × Early) → Type 0
  Sized [] = Unit {0}
  Sized ((k, e) ∷ m) = (length e.bytes ≡ span k) × (e.last ≡ final k) × Sized m

  pub erase-Sized : (k : ℕ) (m : List (ℕ × Early)) → Sized m → Sized (erase k m)
  unfolding erase
  erase-Sized k [] h = tt
  erase-Sized k ((j, e) ∷ m) h = ground (arith, erase-Sized k m h.2)

  pub find-Sized :
      (k : ℕ) (m : List (ℕ × Early)) (e : Early)
      → Sized m
      → find k m ≡ some e
      → (length e.bytes ≡ span k) × (e.last ≡ final k)
  unfolding find
  find-Sized k [] e h f = cc
  find-Sized k ((j, d) ∷ m) e h f = elim (Bool-cases (j == k)) [
    | inl hit ↦
        let same_key : j ≡ k = ground arith in
        let same_value : d ≡ e = ground arith in rw (← same_key, ← same_value) (h.0, h.1)
    | inr miss ↦ find-Sized k m e h.2 (ground arith)
  ]

  -- A datagram starts below what is acknowledged, or is kept, or is due and has nothing to add.
  abbrev pub Handled : ℕ → Bool → List (ℕ × Early) → Packet → Type 0
  Handled a f m p =
      (p.data_len ≡ span p.seq_num)
      × (p.fin ≡ final p.seq_num)
      × ((p.seq_num < a + 1)
          ⊎ (((e : Early) × (find p.seq_num m ≡ some e))
              ⊎ ((p.seq_num ≡ a + 1) × (p.data_len ≡ 0) × (p.fin ≡ true → f ≡ true))))

  or_right : (f b c : Bool) → c ≡ b → c ≡ true → (f || b) ≡ true
  or_right f b c e h = ground arith

  or_left : (f b : Bool) → f ≡ true → (f || b) ≡ true
  or_left f b h = ground arith

  -- The datagram at the position that is due, once the bytes there are saved.
  pub Handled-due :
      (a n : ℕ) (f b : Bool) (m : List (ℕ × Early)) (p : Packet)
      → p.seq_num ≡ a + 1
      → p.data_len ≡ span p.seq_num
      → p.fin ≡ final p.seq_num
      → n ≡ span (a + 1)
      → b ≡ final (a + 1)
      → Handled (a + n) (f || b) m p
  Handled-due a zero f b m p due same flag size end = (
    same,
    flag,
    inr (
        inr (
          omega (arith, due),
          same ∙ ap span due ∙ sym size,
          λ h. or_right f b p.fin (flag ∙ ap final due ∙ sym end) h,
        )),
  )
  Handled-due a (suc n) f b m p due same flag size end = (same, flag, inl (omega (arith, due)))

  -- Bytes at the position that is due are saved.
  pub Handled-saved :
      (a n : ℕ) (f b : Bool) (m : List (ℕ × Early)) (p : Packet)
      → n ≡ span (a + 1)
      → b ≡ final (a + 1)
      → Handled a f m p
      → Handled (a + n) (f || b) m p
  Handled-saved a n f b m p size end (same, flag, inl below) = (same, flag, inl (omega arith))
  Handled-saved a n f b m p size end (same, flag, inr (inl kept)) = (same, flag, inr (inl kept))
  Handled-saved a n f b m p size end (same, flag, inr (inr (due, none_more, ends))) =
      Handled-due a n f b m p due same flag size end

  -- The entry that is due is taken.
  pub Handled-taken :
      (a n : ℕ) (f b : Bool) (m : List (ℕ × Early)) (p : Packet)
      → n ≡ span (a + 1)
      → b ≡ final (a + 1)
      → Handled a f m p
      → Handled (a + n) (f || b) (erase (a + 1) m) p
  Handled-taken a n f b m p size end (same, flag, inl below) = (same, flag, inl (omega arith))
  Handled-taken a n f b m p size end (same, flag, inr (inr (due, none_more, ends))) =
      Handled-due a n f b (erase (a + 1) m) p due same flag size end
  Handled-taken a n f b m p size end (same, flag, inr (inl (d, e))) =
      elim (Bool-cases (p.seq_num == a + 1)) [
        | inl due ↦ Handled-due a n f b (erase (a + 1) m) p (ground arith) same flag size end
        | inr other ↦ (same, flag, inr (inl (d, find-erase p.seq_num (a + 1) m other ∙ e)))
      ]

  -- An early segment is kept.
  pub Handled-kept :
      (a : ℕ) (f : Bool) (k : ℕ) (e : Early) (m : List (ℕ × Early)) (p : Packet)
      → Handled a f m p
      → Handled a f (assign k e m) p
  unfolding find assign
  Handled-kept a f k e m p (same, flag, inl below) = (same, flag, inl below)
  Handled-kept a f k e m p (same, flag, inr (inr here)) = (same, flag, inr (inr here))
  Handled-kept a f k e m p (same, flag, inr (inl (d, g))) = elim (Bool-cases (p.seq_num == k)) [
    | inl hit ↦ (same, flag, inr (inl (e, if_true _ _ _ (turned hit))))
    | inr other ↦ (same, flag, inr (inl (d, find-assign_other p.seq_num k e m other ∙ g)))
  ]
    where
      turned : (p.seq_num == k) ≡ true → (k == p.seq_num) ≡ true
      turned h = ground arith

  abbrev pub AllHandled : ℕ → Bool → List (ℕ × Early) → List Packet → Type 0
  AllHandled a f m [] = Unit {0}
  AllHandled a f m (p ∷ ps) = Handled a f m p × AllHandled a f m ps

  pub AllHandled-map :
      (a b : ℕ) (f g : Bool) (m n : List (ℕ × Early)) (ps : List Packet)
      → ((p : Packet) → Handled a f m p → Handled b g n p)
      → AllHandled a f m ps
      → AllHandled b g n ps
  AllHandled-map a b f g m n [] go h = tt
  AllHandled-map a b f g m n (p ∷ ps) go h = (go p h.0, AllHandled-map a b f g m n ps go h.1)

  -- Where nothing that is kept is due and FIN is still to come, no datagram that came has bytes or
  -- FIN for the next position.
  abbrev pub NoneDue : ℕ → List Packet → Type 0
  NoneDue a [] = Unit {0}
  NoneDue a (p ∷ ps) = (p.seq_num ≡ a + 1 → (p.data_len ≡ 0) × (p.fin ≢ true)) × NoneDue a ps

  pub AllHandled-NoneDue :
      (a : ℕ) (f : Bool) (m : List (ℕ × Early)) (ps : List Packet)
      → find (a + 1) m ≡ none
      → f ≡ false
      → AllHandled a f m ps
      → NoneDue a ps
  AllHandled-NoneDue a f m [] idle more h = tt
  AllHandled-NoneDue a f m (p ∷ ps) idle more h =
      (here (h.0).2, AllHandled-NoneDue a f m ps idle more h.1)
    where
      here :
          (p.seq_num < a + 1)
            ⊎ (((e : Early) × (find p.seq_num m ≡ some e))
                ⊎ ((p.seq_num ≡ a + 1) × (p.data_len ≡ 0) × (p.fin ≡ true → f ≡ true)))
          → p.seq_num ≡ a + 1
          → (p.data_len ≡ 0) × (p.fin ≢ true)
      here (inl below) due = absurd (omega (arith, below, due))
      here (inr (inr (x, none_more, ends))) due = (none_more, λ e. cc (ends e, more))
      here (inr (inl (e, g))) due = absurd (clash (sym g ∙ ap (λ k. find k m) due ∙ idle))
        where
          clash : some e ≡ none → ⊥
          clash c = cc

  -- The positions that segments in turn lead to, and whether one of them was the last.
  pub data Chain : ℕ → Bool → Type 0 where
    start : Chain 0 false
    more :
        {a b : ℕ} {f g : Bool}
        → Chain a f
        → b ≡ a + span (a + 1)
        → g ≡ (f || final (a + 1))
        → Chain b g
