-- ===== src/Receiver/Complete/Responds.antt =====
-- The turns of a receiver that simulates no loss, at the datagrams that came.
use comnet.Base.{
  Bool, ℕ, ◌+◌, ◌<◌, ◌^◌, ◌≡◌, sym, ◌∙◌, subst, true, false, List, [], ◌∷◌, ◌++◌, some, inl, inr,
  arith, Bool-cases, ◌==◌, length, take, resize, length-resize, c_string, ltb, u32,
  read_array-eq-take, if_true, if_false,
}
use comnet.Packet.{Packet}
use comnet.Segment.{IsSegment}
use comnet.Receiver.{
  Receiver, Early, Machine, Endpoint, received, Turn, go_on, give_up, undefined, find, assign,
  note_source, process_packet, take_packet, store_early_data, respond, step,
}
use comnet.Receiver.Delivery.{store_early_data-IsPrefix}
use comnet.Receiver.Direct.{noted, filtered}
use comnet.Receiver.Drain.{check_early_data-Drains}
use comnet.Receiver.Complete.Buffer.{
  Sized, erase-Sized, Handled-kept, AllHandled-map, find-assign_other, find-assign_same,
}
use comnet.Receiver.Complete.Turns.{
  IsTidy, IsIdle, next_position, Drains-IsTidy, take_packet-IsTidy,
}

module _ (file : List ℕ) (small : length file < 2 ^ 31) (span : ℕ → ℕ) (final : ℕ → Bool) where
  -- A turn that handles what came.
  abbrev pub Tidies : List Packet → Turn → Type 0
  Tidies ps (go_on r acks) = IsTidy file small span final ps r × IsIdle file small span final r
  Tidies ps give_up = ⊥
  Tidies ps undefined = ⊥

  store_early_data-Tidies :
      (mach : Machine) (ps : List Packet) (r : Receiver) (p : Packet) (acks : List Packet)
      → IsTidy file small span final ps r
      → IsIdle file small span final r
      → IsSegment file p
      → p.data_len ≡ span p.seq_num
      → p.fin ≡ final p.seq_num
      → ltb (u32 (r.acked_position + 1)) p.seq_num ≡ true
      → Tidies (p ∷ ps) (go_on (store_early_data mach r p) acks)
  unfolding store_early_data
  store_early_data-Tidies mach ps r p acks t idle s same flag early = (
    record {
      prefix = unfold store_early_data in store_early_data-IsPrefix file small mach r p t.prefix s;
      steady = t.steady;
      unspecific = t.unspecific;
      sized = sized;
      handled = (
        (same, flag, inr (inl (kept, hit))),
        AllHandled-map span final r.acked_position r.acked_position r.fin r.fin r.buffer
            (assign p.seq_num kept r.buffer) ps
            (λ q. Handled-kept span final r.acked_position r.fin p.seq_num kept r.buffer q)
            t.handled,
      );
      chain = t.chain;
    },
    find-assign_other (u32 (r.acked_position + 1)) p.seq_num kept r.buffer other ∙ idle,
  )
    where
      kept : Early
      kept = record {
        bytes = resize p.data_len (c_string (p.payload ++ mach.past_packet));
        last = p.fin;
      }

      other : (u32 (r.acked_position + 1) == p.seq_num) ≡ false
      other = ground arith

      hit : find p.seq_num (assign p.seq_num kept r.buffer) ≡ some kept
      hit = find-assign_same p.seq_num kept r.buffer

      sized : Sized span final (assign p.seq_num kept r.buffer)
      sized =
          unfold assign in
          (
            length-resize p.data_len _ ∙ same,
            flag,
            erase-Sized span final p.seq_num r.buffer t.sized,
          )

  respond-Tidies :
      (mach : Machine) (ps : List Packet) (r : Receiver) (p : Packet)
      → IsTidy file small span final ps r
      → IsIdle file small span final r
      → IsSegment file p
      → p.data_len ≡ span p.seq_num
      → p.fin ≡ final p.seq_num
      → Tidies (p ∷ ps) (respond mach r p)
  unfolding respond process_packet
  respond-Tidies mach ps r p t idle s same flag =
      elim (Bool-cases (ltb (u32 (r.acked_position + 1)) p.seq_num)) [
        | inl early ↦ rw early (store_early_data-Tidies mach ps r p [] t idle s same flag early)
        | inr timely ↦ elim (Bool-cases (ltb p.seq_num (u32 (r.acked_position + 1)))) [
          | inl old ↦ rw (timely, old) (below old, idle)
          | inr due ↦
              rw (timely, due, process_packet, read_array-eq-take p.data_len p.payload s.short)
                (Drains-IsTidy file small span final (p ∷ ps)
                  (check_early_data-Drains (take_packet r p (take p.data_len p.payload)))
                  (take_packet-IsTidy file small span final ps r p t s same flag (ground arith)))
        ]
      ]
    where
      below :
          ltb p.seq_num (u32 (r.acked_position + 1)) ≡ true
          → IsTidy file small span final (p ∷ ps) r
      below old = record {
        prefix = t.prefix;
        steady = t.steady;
        unspecific = t.unspecific;
        sized = t.sized;
        handled = (
          (same, flag, inl (ground (arith, next_position file small span final r t.prefix))),
          t.handled,
        );
        chain = t.chain;
      }

  counted-IsTidy :
      (ps : List Packet) (r : Receiver) (n : ℕ) (from : Endpoint)
      → IsTidy file small span final ps r
      → IsTidy file small span final ps (record r { rsn = n; source = from })
  counted-IsTidy ps r n from t = record {
    prefix = record {
      fits = t.prefix.fits;
      held = t.prefix.held;
      early = t.prefix.early;
      ended = t.prefix.ended;
    };
    steady = t.steady;
    unspecific = t.unspecific;
    sized = t.sized;
    handled = t.handled;
    chain = t.chain;
  }

  pub noted-IsTidy :
      (ps : List Packet) (r : Receiver) (from : Endpoint)
      → IsTidy file small span final ps r
      → IsIdle file small span final r
      → IsTidy file small span final ps (noted r from) × IsIdle file small span final (noted r from)
  unfolding noted note_source
  noted-IsTidy ps r from t idle = elim (Bool-cases (r.acked_position == 0)) [
    | inl new ↦
        subst (λ q. IsTidy file small span final ps q × IsIdle file small span final q)
          (sym (if_true _ _ _ new)) (counted-IsTidy ps r (r.rsn + 1) from t, idle)
    | inr old ↦
        subst (λ q. IsTidy file small span final ps q × IsIdle file small span final q)
          (sym (if_false _ _ _ old)) (counted-IsTidy ps r (r.rsn + 1) r.source t, idle)
  ]

  pub step-Tidies :
      (mach : Machine) (ps : List Packet) (r : Receiver) (p : Packet) (from : Endpoint)
      → IsTidy file small span final ps r
      → IsIdle file small span final r
      → IsSegment file p
      → p.data_len ≡ span p.seq_num
      → p.fin ≡ final p.seq_num
      → Tidies (p ∷ ps) (step mach r (received p from))
  step-Tidies mach ps r p from t idle s same flag =
      subst (Tidies (p ∷ ps)) (sym (filtered mach r p from t.steady t.unspecific)) (
        respond-Tidies mach ps (noted r from) p (noted-IsTidy ps r from t idle).0
          (noted-IsTidy ps r from t idle).1 s same flag)
