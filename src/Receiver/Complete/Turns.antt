-- ===== src/Receiver/Complete/Turns.antt =====
-- What a receiver that simulates no loss does with the segment that is due.
use comnet.Base.{
  Bool, ◌||◌, ℕ, ◌+◌, ◌<◌, ◌^◌, ◌≡◌, sym, ap, ◌∙◌, subst, false, List, ◌∷◌, none, some, arith,
  length, take, length-take, u32,
}
use comnet.Packet.{Packet}
use comnet.Segment.{IsChunk, IsSegment}
use comnet.Receiver.{Receiver, Early, find, erase, take_packet, take_early}
use comnet.Receiver.Delivery.{IsPrefix, find-IsChunk, erase-Buffered, extend}
use comnet.Receiver.Drain.{Drains, stop, round}
use comnet.Receiver.Complete.Buffer.{
  Chain, more, Sized, erase-Sized, find-Sized, Handled-due, Handled-saved, Handled-taken,
  AllHandled, AllHandled-map,
}

module _ (file : List ℕ) (small : length file < 2 ^ 31) (span : ℕ → ℕ) (final : ℕ → Bool) where
  -- The datagrams that came are handled.
  pub record IsTidy (ps : List Packet) (r : Receiver) : Type 0 where
    pub prefix : IsPrefix file r
    pub steady : r.periodic ≡ false
    pub unspecific : r.specific ≡ false
    pub sized : Sized span final r.buffer
    pub handled : AllHandled span final r.acked_position r.fin r.buffer ps
    pub chain : Chain span final r.acked_position r.fin

  abbrev pub IsIdle : Receiver → Type 0
  IsIdle r = find (u32 (r.acked_position + 1)) r.buffer ≡ none

  pub next_position :
      (r : Receiver) → IsPrefix file r → u32 (r.acked_position + 1) ≡ r.acked_position + 1
  next_position r v = omega (arith, v.fits, small)

  take_early-IsTidy :
      (ps : List Packet) (r : Receiver) (e : Early)
      → IsTidy ps r
      → find (u32 (r.acked_position + 1)) r.buffer ≡ some e
      → IsTidy ps (take_early r (u32 (r.acked_position + 1)) e)
  unfolding take_early
  take_early-IsTidy ps r e t f = record {
    prefix =
        extend file small r e.bytes e.last _ t.prefix chunk
          (erase-Buffered file _ r.buffer t.prefix.early);
    steady = t.steady;
    unspecific = t.unspecific;
    sized = erase-Sized span final (u32 (r.acked_position + 1)) r.buffer t.sized;
    handled =
        subst
          (λ a.
            AllHandled span final a (r.fin || e.last) (erase (u32 (r.acked_position + 1)) r.buffer)
              ps)
          (sym wide)
          (subst
            (λ k.
              AllHandled span final (r.acked_position + length e.bytes) (r.fin || e.last)
                (erase k r.buffer) ps)
            (sym due)
            (AllHandled-map span final r.acked_position (r.acked_position + length e.bytes) r.fin
              (r.fin || e.last) r.buffer (erase (r.acked_position + 1) r.buffer) ps
              (λ p.
                Handled-taken span final r.acked_position (length e.bytes) r.fin e.last r.buffer p
                  size end)
              t.handled));
    chain = more t.chain (wide ∙ ap (λ n. r.acked_position + n) size) (ap (λ b. r.fin || b) end);
  }
    where
      due : u32 (r.acked_position + 1) ≡ r.acked_position + 1
      due = next_position r t.prefix

      chunk : IsChunk file (u32 (r.acked_position + 1)) e.bytes e.last
      chunk = find-IsChunk file _ r.buffer e t.prefix.early f

      wide : u32 (r.acked_position + length e.bytes) ≡ r.acked_position + length e.bytes
      wide = omega (arith, chunk.inside, due, small)

      size : length e.bytes ≡ span (r.acked_position + 1)
      size =
          (find-Sized span final (u32 (r.acked_position + 1)) r.buffer e t.sized f).0 ∙ ap span due

      end : e.last ≡ final (r.acked_position + 1)
      end =
          (find-Sized span final (u32 (r.acked_position + 1)) r.buffer e t.sized f).1 ∙ ap final due

  pub Drains-IsTidy :
      (ps : List Packet) {r r' : Receiver} → Drains r r' → IsTidy ps r → IsTidy ps r' × IsIdle r'
  Drains-IsTidy ps (stop e) t = (t, e)
  Drains-IsTidy ps {r} (round e f d) t = Drains-IsTidy ps d (take_early-IsTidy ps r e t f)

  pub take_packet-IsTidy :
      (ps : List Packet) (r : Receiver) (p : Packet)
      → IsTidy ps r
      → IsSegment file p
      → p.data_len ≡ span p.seq_num
      → p.fin ≡ final p.seq_num
      → p.seq_num ≡ u32 (r.acked_position + 1)
      → IsTidy (p ∷ ps) (take_packet r p (take p.data_len p.payload))
  unfolding take_packet
  take_packet-IsTidy ps r p t s same flag due = record {
    prefix = rw whole at (
        extend file small r (take p.data_len p.payload) p.fin r.buffer t.prefix (rw due at s.chunk)
          t.prefix.early);
    steady = t.steady;
    unspecific = t.unspecific;
    sized = t.sized;
    handled =
        subst (λ a. AllHandled span final a (r.fin || p.fin) r.buffer (p ∷ ps)) (sym wide)
          (
            Handled-due span final r.acked_position p.data_len r.fin p.fin r.buffer p at_next same
                flag size end,
            AllHandled-map span final r.acked_position (r.acked_position + p.data_len) r.fin
                (r.fin || p.fin) r.buffer r.buffer ps
                (λ q.
                  Handled-saved span final r.acked_position p.data_len r.fin p.fin r.buffer q size
                    end)
                t.handled,
          );
    chain = more t.chain (wide ∙ ap (λ n. r.acked_position + n) size) (ap (λ b. r.fin || b) end);
  }
    where
      whole : length (take p.data_len p.payload) ≡ p.data_len
      whole = omega (arith, length-take p.data_len p.payload, s.short)

      at_next : p.seq_num ≡ r.acked_position + 1
      at_next = due ∙ next_position r t.prefix

      wide : u32 (r.acked_position + p.data_len) ≡ r.acked_position + p.data_len
      wide = omega (arith, s.chunk.inside, whole, at_next, small)

      size : p.data_len ≡ span (r.acked_position + 1)
      size = same ∙ ap span at_next

      end : p.fin ≡ final (r.acked_position + 1)
      end = flag ∙ ap final at_next
