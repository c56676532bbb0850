-- ===== src/Mp0/Reads.antt =====
-- The client of MP0 against its server.
use comnet.Base.{
  ℕ, ◌+◌, ◌≤◌, ◌<◌, ◌^◌, ◌≡◌, ◌↔◌, sym, ap, ◌∙◌, subst, true, List, [], ◌∷◌, ◌++◌, some, arith,
  if_true, length, length-append, take, take_all, length-take, c_string,
}
use comnet.Base.Int.{to_int-small}
use comnet.Base.Decimal.{read_digits, read_digits-show, to_string, to_string-AllDigits, Stops}
use comnet.Base.Join.{Lacks, Lacks-take, c_string-Lacks}
use comnet.Mp0.{Address, first_attached}
use comnet.Mp0.Server.{
  Call, f_length, out, serving, bind_first, bound, serve, accepted, get_file_size, measured, offer,
  bind_any, after_bind, listen, server_main,
}
use comnet.Mp0.Server
use comnet.Mp0.Client
use comnet.Mp0.Client.{
  shows, take_digits, show_number, show_received, receive_from, connect_any, client_main,
}
use comnet.Mp0.Digits.{take_digits-append, c_string-shorter, show_two, show_number-Stops}

f_length-lt : (n : ℕ) → f_length n < 100
unfolding f_length
f_length-lt n = ground arith

read_back : (n : ℕ) → read_digits 0 (to_string n) ≡ n
unfolding to_string
read_back n = read_digits-show (n + 1) n (omega arith)

out-number :
    (contents : List ℕ)
    → Lacks 0 contents
    → show_received (some (out (length contents) contents))
      ≡ show_number
          (take_digits (f_length (length contents)) (take (f_length (length contents)) contents))
unfolding show_received out
out-number contents no_nul =
    ap (λ t. show_number (take_digits 0 t)) (take_all 102 (out (length contents) contents) short)
    ∙ ap show_number (
        take_digits-append 0 (to_string n) (c_string (take n contents)) (to_string-AllDigits n)
        ∙ ap (λ k. take_digits k (c_string (take n contents))) (read_back n)
        ∙ ap (take_digits n) (c_string-Lacks (take n contents) (Lacks-take 0 n contents no_nul)))
  where
    n : ℕ
    n = f_length (length contents)

    short : length (to_string n ++ c_string (take n contents)) ≤ 102
    short = omega (
      arith,
      length-append (to_string n) (c_string (take n contents)),
      show_two n (f_length-lt (length contents)),
      c_string-shorter (take n contents),
      length-take n contents,
      f_length-lt (length contents),
    )

serve-one : (text : List ℕ) → serve text [] (accepted true (length text) ∷ []) ≡ serving (text ∷ [])
unfolding serve
serve-one text = ap (λ t. serving (t ∷ [])) (take_all (length text) text (omega arith))

server_main-serve :
    (w : Server.World) (name contents : List ℕ) (places : List Address) (calls : List Call)
    → w.files name ≡ some contents
    → w.sizes ≡ true
    → length contents < 2 ^ 31
    → w.addresses ≡ some places
    → bind_first places ≡ bound
    → w.listens ≡ true
    → w.handles ≡ true
    → server_main w (name ∷ []) calls ≡ serve (out (length contents) contents) [] calls
unfolding server_main offer measured get_file_size bind_any after_bind listen
server_main-serve w name contents places calls f s small a b l g =
    ap (offer w calls) f
    ∙ ap (λ t. measured w calls contents (get_file_size t contents)) s
    ∙ ap (measured w calls contents) (to_int-small (length contents) small)
    ∙ ap (bind_any w (out (length contents) contents) calls) a
    ∙ ap (after_bind w (out (length contents) contents) calls) b
    ∙ if_true _ _ _ l
    ∙ if_true _ _ _ g

-- Where both ends reach each other, the file has no NUL and less than 2 ^ 31 bytes, and the client receives all that the server
-- sends over its connection, the length of the file and the file, cut off at 99 bytes: the client
-- shows just that length and that text if the text does not begin with a digit, and only then.
pub client_main-served :
    (sw : Server.World) (cw : Client.World) (name host contents : List ℕ)
    (places spots : List Address) (a : Address)
    → sw.files name ≡ some contents
    → Lacks 0 contents
    → sw.sizes ≡ true
    → length contents < 2 ^ 31
    → sw.addresses ≡ some places
    → bind_first places ≡ bound
    → sw.listens ≡ true
    → sw.handles ≡ true
    → cw.addresses host ≡ some spots
    → first_attached spots ≡ some a
    → cw.receives ≡ some (out (length contents) contents)
    → (server_main sw (name ∷ []) (accepted true (length (out (length contents) contents)) ∷ [])
        ≡ serving (out (length contents) contents ∷ []))
      × ((client_main cw (host ∷ [])
            ≡ shows (f_length (length contents)) (take (f_length (length contents)) contents))
          ↔ Stops (take (f_length (length contents)) contents))
unfolding client_main connect_any receive_from
client_main-served sw cw name host contents places spots a f no_nul s small p b l g r t e = (
  server_main-serve sw name contents places _ f s small p b l g
      ∙ serve-one (out (length contents) contents),
  subst
      (λ x.
        (x ≡ shows (f_length (length contents)) (take (f_length (length contents)) contents))
        ↔ Stops (take (f_length (length contents)) contents))
      (sym shown)
      (show_number-Stops (f_length (length contents)) (take (f_length (length contents)) contents)
        (f_length-lt (length contents))
        (Lacks-take 0 (f_length (length contents)) contents no_nul)),
)
  where
    shown :
        client_main cw (host ∷ [])
        ≡ show_number
            (take_digits (f_length (length contents)) (take (f_length (length contents)) contents))
    shown =
        ap (connect_any cw) r
        ∙ ap (receive_from cw) t
        ∙ ap show_received e
        ∙ out-number contents no_nul
