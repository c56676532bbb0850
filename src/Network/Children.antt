-- ===== src/Network/Children.antt =====
-- What the server's loop does with a sequence of connections.
use comnet.Base.{
  ℕ, ◌+◌, ◌^◌, ◌%◌, ◌≡◌, refl, sym, ap, ◌∙◌, Bool, true, false, List, [], ◌∷◌, ◌++◌, append_assoc,
  append-nil, arith, some, length, map, if_true, if◌then◌else◌,
}
use comnet.Base.Decimal.{atoi}
use comnet.Network.Server.{Answer}
use comnet.Network.ClientMain.{port_of}
use comnet.Network.ServerMain.{
  Setup, Visitor, Call, refused, accepted, Log, accept_error, serving, answer_to, take_visitor,
  serve, start, server_main,
}

-- One answer for each connection that got a process.
unfoldable pub answers_to : List Visitor → List Answer
answers_to [] = []
answers_to (v ∷ vs) = if v.forks then answer_to v ∷ answers_to vs else answers_to vs

abbrev pub after_all : Log → List Visitor → Log
after_all log vs = record {
  answers = log.answers ++ answers_to vs;
  opened = log.opened + length vs;
}

log_path :
    {before behind : List Answer} {m n : ℕ}
    → before ≡ behind
    → m ≡ n
    → ◌≡◌ {A = Log}
        (record { answers = before; opened = m })
        (record { answers = behind; opened = n })
log_path p q i = record { answers = p i; opened = q i }

one_more :
    (forks : Bool) (answers more : List Answer) (a : Answer)
    → (if forks then answers ++ a ∷ [] else answers) ++ more
      ≡ answers ++ (if forks then a ∷ more else more)
one_more true answers more a = append_assoc answers (a ∷ []) more
one_more false answers more a = refl

taken :
    (log : Log) (v : Visitor) (vs : List Visitor)
    → after_all (take_visitor log v) vs ≡ after_all log (v ∷ vs)
unfolding take_visitor answers_to
taken log v vs = log_path (one_more v.forks log.answers (answers_to vs) (answer_to v)) (omega arith)

serve-accepted :
    (log : Log) (vs : List Visitor) (rest : List Call)
    → serve log (map accepted vs ++ rest) ≡ serve (after_all log vs) rest
unfolding serve answers_to
serve-accepted log [] rest =
    ap (λ t. serve t rest) (log_path (sym (append-nil log.answers)) (omega arith))
serve-accepted log (v ∷ vs) rest =
    serve-accepted (take_visitor log v) vs rest ∙ ap (λ t. serve t rest) (taken log v vs)

start-serve :
    (s : Setup) (port : ℕ) (calls : List Call)
    → s.opens ≡ true
    → s.named ≡ true
    → s.binds (port % 2 ^ 16) ≡ true
    → s.listens ≡ true
    → start s (some port) calls ≡ serve (record { answers = []; opened = 1 }) calls
unfolding start
start-serve s port calls o n b l =
    if_true _ _ _ o ∙ if_true _ _ _ n ∙ if_true _ _ _ b ∙ if_true _ _ _ l

-- With a good port and a system that does its part, `main` of the server gives every connection that
-- gets a process its answer, in the order of `accept`, whatever comes over the others; the parent
-- keeps a descriptor open for each of them; and the first failure of `accept` ends it, whatever
-- would come next.
pub server_main-answers :
    (s : Setup) (arg : List ℕ) (port : ℕ) (vs : List Visitor) (rest : List Call)
    → port_of (atoi arg) ≡ some port
    → s.opens ≡ true
    → s.named ≡ true
    → s.binds (port % 2 ^ 16) ≡ true
    → s.listens ≡ true
    → (server_main s (arg ∷ []) (map accepted vs)
        ≡ serving (record { answers = answers_to vs; opened = 1 + length vs }))
      × (server_main s (arg ∷ []) (map accepted vs ++ refused ∷ rest)
          ≡ accept_error (record { answers = answers_to vs; opened = length vs }))
unfolding server_main serve
server_main-answers s arg port vs rest e o n b l = (
  ap (λ p. start s p (map accepted vs)) e
      ∙ start-serve s port (map accepted vs) o n b l
      ∙ ap (serve _) (sym (append-nil (map accepted vs)))
      ∙ serve-accepted (record { answers = []; opened = 1 }) vs [],
  ap (λ p. start s p (map accepted vs ++ refused ∷ rest)) e
      ∙ start-serve s port (map accepted vs ++ refused ∷ rest) o n b l
      ∙ serve-accepted (record { answers = []; opened = 1 }) vs (refused ∷ rest)
      ∙ ap accept_error (log_path refl (omega arith)),
)
