-- ===== src/Receiver/Main/Answers.antt =====
-- What the receiver answers to, one datagram after the other.
use comnet.Base.{
  ℕ, ◌<◌, ◌^◌, ◌≡◌, sym, ap, ◌∙◌, subst, Bool, true, false, List, [], ◌∷◌, ◌++◌, inl, inr, arith,
  length, length-take, Bool-cases, if_true, if_false,
}
use comnet.Packet.{Packet}
use comnet.Receiver.{
  Receiver, Machine, Arrival, Turn, go_on, give_up, undefined, Outcome, waiting, returned,
  returned_null, faulted, receive_loop, follow, step,
}
use comnet.Receiver.Delivery.{IsPrefix, AllCarry, Keeps, step-Keeps}
use comnet.Receiver.Progress.{Acknowledges, step-Acknowledges}
use comnet.System.{AllWithin, AllWithin-append, IsPrefix-counted}
use comnet.System.Finish.{AllFinal}

-- The acknowledgements are of bytes of the file, and those with FIN of a receiver that has it.
abbrev pub Answers : List ℕ → Outcome → Type 0
Answers file (waiting r sent) = AllWithin (length file) sent × AllFinal r sent × (r.fin ≡ false)
Answers file (returned r sent) = AllWithin (length file) sent
Answers file returned_null = Unit {0}
Answers file faulted = Unit {0}

AllFinal-append :
    (r : Receiver) (ps qs : List Packet) → AllFinal r ps → AllFinal r qs → AllFinal r (ps ++ qs)
AllFinal-append r [] qs h k = k
AllFinal-append r (p ∷ ps) qs h k = (h.0, AllFinal-append r ps qs h.1 k)

AllFinal-running :
    (r r' : Receiver) (ps : List Packet) → r.fin ≡ false → AllFinal r ps → AllFinal r' ps
AllFinal-running r r' [] running h = tt
AllFinal-running r r' (p ∷ ps) running h =
    (λ e. absurd (clash (h.0 e)), AllFinal-running r r' ps running h.1)
  where
    clash : r.fin ≡ true → ⊥
    clash e = cc (e, running)

-- The loop, by whether `fin_` is set.
module _ (mach : Machine) (r : Receiver) (sent : List Packet) where
  pub waits_here : r.fin ≡ false → receive_loop mach r sent [] ≡ waiting r sent
  unfolding receive_loop
  waits_here more = if_false _ _ _ more

  pub returns :
      (arrivals : List Arrival) → r.fin ≡ true → receive_loop mach r sent arrivals ≡ returned r sent
  unfolding receive_loop
  returns [] done = if_true _ _ _ done
  returns (a ∷ rest) done =
      ap
        (λ (b : Bool). elim b as (λ c. Outcome) [
          | true ↦ returned r sent
          | false ↦ follow (step mach r a) (λ q acks. receive_loop mach q (sent ++ acks) rest)
        ])
        done

  turns :
      (a : Arrival) (rest : List Arrival)
      → r.fin ≡ false
      → receive_loop mach r sent (a ∷ rest)
        ≡ follow (step mach r a) (λ q acks. receive_loop mach q (sent ++ acks) rest)
  unfolding receive_loop
  turns a rest more =
      ap
        (λ (b : Bool). elim b as (λ c. Outcome) [
          | true ↦ returned r sent
          | false ↦ follow (step mach r a) (λ q acks. receive_loop mach q (sent ++ acks) rest)
        ])
        more

module _ (file : List ℕ) (small : length file < 2 ^ 31) (mach : Machine) where
  -- What a turn answers.
  turn-Answers :
      (r r' : Receiver) (acks : List Packet)
      → IsPrefix file r'
      → Acknowledges r (go_on r' acks)
      → AllWithin (length file) acks × AllFinal r' acks
  turn-Answers r r' [] v a = (tt, tt)
  turn-Answers r r' (x ∷ []) v a = (
    (omega (arith, a.2, ap length v.held, length-take r'.acked_position file, v.fits, small), tt),
    (λ e. sym a.3 ∙ e, tt),
  )
  turn-Answers r r' (x ∷ y ∷ rest) v a = absurd a

  follow-Answers :
      (r : Receiver) (sent : List Packet) (t : Turn) (next : Receiver → List Packet → Outcome)
      → AllWithin (length file) sent
      → AllFinal r sent
      → r.fin ≡ false
      → Keeps file small t
      → Acknowledges r t
      → ((r' : Receiver) (acks : List Packet)
          → IsPrefix file r'
          → AllWithin (length file) (sent ++ acks)
          → AllFinal r' (sent ++ acks)
          → Answers file (next r' acks))
      → Answers file (follow t next)
  unfolding follow
  follow-Answers r sent (go_on r' acks) next w f running k a h =
      let (within, final) = turn-Answers r r' acks k a in
      h r' acks k (AllWithin-append (length file) sent acks w within)
        (AllFinal-append r' sent acks (AllFinal-running r r' sent running f) final)
  follow-Answers r sent give_up next w f running k a h = tt
  follow-Answers r sent undefined next w f running k a h = tt

  pub receive_loop-Answers :
      (r : Receiver) (sent : List Packet) (arrivals : List Arrival)
      → IsPrefix file r
      → AllCarry file small arrivals
      → AllWithin (length file) sent
      → AllFinal r sent
      → Answers file (receive_loop mach r sent arrivals)
  receive_loop-Answers r sent [] v c w f = elim (Bool-cases r.fin) [
    | inl done ↦ subst (Answers file) (sym (returns mach r sent [] done)) w
    | inr more ↦ subst (Answers file) (sym (waits_here mach r sent more)) (w, f, more)
  ]
  receive_loop-Answers r sent (a ∷ rest) v c w f = elim (Bool-cases r.fin) [
    | inl done ↦ subst (Answers file) (sym (returns mach r sent (a ∷ rest) done)) w
    | inr more ↦ subst (Answers file) (sym (turns mach r sent a rest more)) (
        follow-Answers r sent (step mach r a) _ w f more (step-Keeps file small mach r a v c.0)
          (step-Acknowledges mach r a (IsPrefix-counted file r small v))
          (λ r' acks v' w' f'. receive_loop-Answers r' (sent ++ acks) rest v' c.1 w' f'))
  ]

-- A receiver that has returned reads nothing more.
follow-returned :
    (t : Turn) (next more : Receiver → List Packet → Outcome) (r : Receiver) (acks : List Packet)
    → ((q : Receiver) (sent : List Packet)
        → next q sent ≡ returned r acks
        → more q sent ≡ returned r acks)
    → follow t next ≡ returned r acks
    → follow t more ≡ returned r acks
unfolding follow
follow-returned (go_on q sent) next more r acks h e = h q sent e
follow-returned give_up next more r acks h e = cc
follow-returned undefined next more r acks h e = cc

pub receive_loop-returned :
    (mach : Machine) (q r : Receiver) (sent acks : List Packet) (arrivals : List Arrival)
    (a : Arrival)
    → receive_loop mach q sent arrivals ≡ returned r acks
    → receive_loop mach q sent (arrivals ++ a ∷ []) ≡ returned r acks
receive_loop-returned mach q r sent acks [] a e = elim (Bool-cases q.fin) [
  | inl done ↦ returns mach q sent (a ∷ []) done ∙ sym (returns mach q sent [] done) ∙ e
  | inr more ↦ absurd (clash (sym (waits_here mach q sent more) ∙ e))
]
  where
    clash : waiting q sent ≡ returned r acks → ⊥
    clash h = cc
receive_loop-returned mach q r sent acks (b ∷ rest) a e = elim (Bool-cases q.fin) [
  | inl done ↦
      returns mach q sent (b ∷ rest ++ a ∷ []) done ∙ sym (returns mach q sent (b ∷ rest) done) ∙ e
  | inr more ↦
      turns mach q sent b (rest ++ a ∷ []) more
      ∙ follow-returned (step mach q b) _ _ r acks
          (λ p more_sent h. receive_loop-returned mach p r (sent ++ more_sent) acks rest a h)
          (sym (turns mach q sent b rest more) ∙ e)
]

-- A receiver that waits, and one arrival more.
follow-waiting :
    (t : Turn) (next more : Receiver → List Packet → Outcome) (r : Receiver) (acks : List Packet)
    (out : Outcome)
    → ((q : Receiver) (sent : List Packet) → next q sent ≡ waiting r acks → more q sent ≡ out)
    → follow t next ≡ waiting r acks
    → follow t more ≡ out
unfolding follow
follow-waiting (go_on q sent) next more r acks out h e = h q sent e
follow-waiting give_up next more r acks out h e = cc
follow-waiting undefined next more r acks out h e = cc

pub receive_loop-append :
    (mach : Machine) (q r : Receiver) (sent acks : List Packet) (arrivals : List Arrival)
    (a : Arrival)
    → receive_loop mach q sent arrivals ≡ waiting r acks
    → receive_loop mach q sent (arrivals ++ a ∷ [])
      ≡ follow (step mach r a) (λ t new. receive_loop mach t (acks ++ new) [])
receive_loop-append mach q r sent acks [] a e = elim (Bool-cases q.fin) [
  | inl done ↦ absurd (clash (sym (returns mach q sent [] done) ∙ e))
  | inr more ↦
      let same = sym (waits_here mach q sent more) ∙ e in
      turns mach q sent a [] more
      ∙ ap (λ u. follow (step mach u a) (λ t new. receive_loop mach t (sent ++ new) []))
          (ap held same)
      ∙ ap (λ l. follow (step mach r a) (λ t new. receive_loop mach t (l ++ new) [])) (ap told same)
]
  where
    clash : returned q sent ≡ waiting r acks → ⊥
    clash h = cc

    held : Outcome → Receiver
    held (waiting u l) = u
    held other = q

    told : Outcome → List Packet
    told (waiting u l) = l
    told other = sent
receive_loop-append mach q r sent acks (b ∷ rest) a e = elim (Bool-cases q.fin) [
  | inl done ↦ absurd (clash (sym (returns mach q sent (b ∷ rest) done) ∙ e))
  | inr more ↦
      turns mach q sent b (rest ++ a ∷ []) more
      ∙ follow-waiting (step mach q b) _ _ r acks _
          (λ p more_sent h. receive_loop-append mach p r (sent ++ more_sent) acks rest a h)
          (sym (turns mach q sent b rest more) ∙ e)
]
  where
    clash : returned q sent ≡ waiting r acks → ⊥
    clash h = cc
