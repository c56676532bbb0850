-- ===== src/Network/Visit.antt =====
-- The whole client against the server.
pub mod Examples
use comnet.Base.{
  ℕ, suc, ◌+◌, ◌-◌, ◌≤◌, ◌^◌, ◌%◌, ◌≡◌, refl, sym, ap, ◌∙◌, true, false, List, [], ◌∷◌, ◌++◌,
  append-nil, arith, Option, some, ltb, length, drop, c_string, replicate, if_true, if_false, subst,
  ◌<◌,
}
use comnet.Base.Int.{pos}
use comnet.Base.Join.{Lacks, Lacks-append, lacks-Lacks}
use comnet.Network.{
  Send, Sending, sent, failed, blocked, send_string, whole, partial, missing, waits, overflows,
}
use comnet.Network.Server.{Answer, rejects, serves, misses, get_word, handle_connection}
use comnet.Network.Client.{content, request, read_response}
use comnet.Network.Lines.{c_string-append_nul}
use comnet.Network.Strings.{Sends, send_string-Sends}
use comnet.Network.Fetch.{fetch}
use comnet.Network.Order.{Delivers, recv_stream-Delivers}
use comnet.Network.ClientMain.{
  World, shows, show_content, fetch_content, request_buffer, read_args, converse, connect,
  client_main,
}

-- All that an answer sends.
unfoldable pub sent_bytes : Sending → List ℕ
sent_bytes (sent out left) = out
sent_bytes (failed out left) = out
sent_bytes (blocked out) = out

unfoldable pub answer_bytes : Answer → List ℕ
answer_bytes (rejects s) = sent_bytes s
answer_bytes (misses s) = sent_bytes s
answer_bytes (serves (whole out)) = out
answer_bytes (serves (partial out)) = out
answer_bytes (serves missing) = []
answer_bytes (serves (waits out)) = out
answer_bytes (serves overflows) = []

request-Lacks :
    (d : ℕ) (name : List ℕ)
    → Lacks d get_word
    → Lacks d (b'\r' ∷ b'\n' ∷ [])
    → Lacks d name
    → Lacks d (request name)
request-Lacks d name h k z =
    Lacks-append d (get_word ++ name) (b'\r' ∷ b'\n' ∷ []) (Lacks-append d get_word name h z) k

request_buffer-c_string :
    (name : List ℕ)
    → Lacks 0 name
    → length (request name) + 1 ≤ 1024
    → c_string (request_buffer name) ≡ request name
request_buffer-c_string name z fits =
    ap (λ n. c_string (request name ++ replicate n 0)) room
    ∙ c_string-append_nul (request name) (replicate (1023 - length (request name)) 0) (
        request-Lacks 0 name (lacks-Lacks 0 get_word refl) (lacks-Lacks 0 (b'\r' ∷ b'\n' ∷ []) refl)
          z)
  where
    room : 1024 - length (request name) ≡ suc (1023 - length (request name))
    room = omega arith

-- A visit where nothing fails: the arguments are good, the system does its part, the request went
-- out whole as `out`, and the server, which has the file, sent all of its answer.
pub record Succeeds (w : World) (files : List ℕ → Option (List ℕ)) (args : List (List ℕ))
    (host name file out page buffer : List ℕ) (port : ℕ) (left events : List Send) : Type 0 where
  pub good : read_args args ≡ some (host, port, name)
  pub opened : w.opens ≡ true
  pub resolved : w.resolves host ≡ true
  pub connected : w.connects host (port % 2 ^ 16) ≡ true
  pub fits : length (request name) + 1 ≤ 1024
  pub one_line : Lacks b'\r' name
  pub no_nul : Lacks 0 name
  pub asked : send_string (request_buffer name) w.sends ≡ sent out left
  pub found : files name ≡ some file
  pub text : Lacks 0 file
  pub small : length file < 2 ^ 31 - 1
  pub served : handle_connection true files buffer out events ≡ serves (whole page)
  pub answered : w.responds out ≡ answer_bytes (handle_connection true files buffer out events)
  pub stored : w.memory (length file) ≡ true
  pub delivered : Delivers file (w.delivers file)

connect-converse :
    (w : World) (host name : List ℕ) (port : ℕ)
    → w.opens ≡ true
    → w.resolves host ≡ true
    → w.connects host (port % 2 ^ 16) ≡ true
    → ltb 1024 (length (request name) + 1) ≡ false
    → connect w (some (host, port, name))
      ≡ converse w name (send_string (request_buffer name) w.sends)
unfolding connect
connect-converse w host name port o r c fits =
    if_true _ _ _ o ∙ if_true _ _ _ r ∙ if_true _ _ _ c ∙ if_false _ _ _ fits

module _ (w : World) (files : List ℕ → Option (List ℕ)) (args : List (List ℕ))
    (host name file out page buffer : List ℕ) (port : ℕ) (left events : List Send)
    (h : Succeeds w files args host name file out page buffer port left events) where
  asked-whole : out ≡ request name
  asked-whole =
      subst (Sends (c_string (request_buffer name))) h.asked
        (send_string-Sends (request_buffer name) w.sends)
      ∙ request_buffer-c_string name h.no_nul h.fits

  responds-page : w.responds out ≡ page
  unfolding answer_bytes
  responds-page = h.answered ∙ ap answer_bytes h.served

  read_response-file :
      read_response w.len (request_buffer name) (w.responds out) ≡ content (pos (length file)) file
  read_response-file =
      ap (read_response w.len (request_buffer name)) responds-page
      ∙ fetch files name file [] page buffer (request_buffer name) events w.len h.one_line h.no_nul
          h.text h.small h.found
          (ap (λ t. handle_connection true files buffer t events)
              (append-nil (request name) ∙ sym asked-whole)
            ∙ h.served)

  -- The client against the server. With good arguments, a file without NUL bytes and of less than
  -- 2 ^ 31 - 1 bytes, a name without "\r" and NUL that fits the buffer, and system calls that do
  -- their part: where the request and the answer go out whole, in whatever pieces, and the content
  -- is delivered, `main` of the client prints the file that it is asked to fetch, and then what lies
  -- behind it in memory up to the next NUL.
  pub client_main-shows : client_main w args ≡ shows (c_string (file ++ drop (length file) w.heap))
  unfolding client_main converse fetch_content show_content
  client_main-shows =
      ap (connect w) h.good
      ∙ connect-converse w host name port h.opened h.resolved h.connected fits
      ∙ ap (converse w name) h.asked
      ∙ ap (fetch_content w) read_response-file
      ∙ if_true _ _ _ h.stored
      ∙ ap (show_content w.heap) (recv_stream-Delivers file _ h.delivered)
    where
      fits : ltb 1024 (length (request name) + 1) ≡ false
      fits = let k : length (request name) + 1 ≤ 1024 = h.fits in ground arith
