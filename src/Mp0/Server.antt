-- ===== src/Mp0/Server.antt =====
-- MP0/server.c: `main`, without its output.
use comnet.Base.{
  ℕ, zero, suc, Bool, true, false, List, [], ◌∷◌, ◌++◌, Option, none, some, ltb, if◌then◌else◌,
  length, take, c_string,
}
use comnet.Base.Int.{ℤ, pos, negsuc, to_int}
use comnet.Base.Decimal.{to_string}
use comnet.Mp0.{Address}

-- What the system does: `open` and `read`, `fstat`, `getaddrinfo`, `listen` and `sigaction`.
pub record World : Type 0 where
  pub files : List ℕ → Option (List ℕ)
  pub sizes : Bool
  pub addresses : Option (List Address)
  pub listens : Bool
  pub handles : Bool

-- A result of `accept`, and for a connection whether `fork` works and how many bytes `send` takes.
pub data Call : Type 0 where
  refused : Call
  accepted : Bool → ℕ → Call

-- How `main` ends, or what it has sent over the connections so far. `overruns` is a `read` of more
-- than `file_data` holds, which C leaves undefined.
pub data Run : Type 0 where
  usage : Run
  no_file : Run
  no_size : Run
  overruns : Run
  no_address : Run
  no_options : Run
  not_bound : Run
  not_listening : Run
  no_handler : Run
  serving : List (List ℕ) → Run

-- The size as an `int`, which keeps its low 32 bits; -1 where `fstat` fails.
unfoldable pub get_file_size : Bool → List ℕ → ℤ
get_file_size true contents = to_int (length contents)
get_file_size false contents = negsuc 0

-- `f_length`: at most MAX_FILE_LENGTH - 1.
unfoldable pub f_length : ℕ → ℕ
f_length n = if ltb 99 n then 99 else n

-- The text that `snprintf` makes, of the length that it returns, for a file of the size `n`.
unfoldable pub out : ℕ → List ℕ → List ℕ
out n contents = to_string (f_length n) ++ c_string (take (f_length n) contents)

-- The loop over the addresses.
pub data Bound : Type 0 where
  bound : Bound
  unbound : Bound
  unset : Bound

unfoldable pub bind_first : List Address → Bound
bind_first [] = unbound
bind_first (a ∷ rest) =
    let next = bind_first rest in
    if a.opens then (if a.reuses then (if a.attaches then bound else next) else unset) else next

-- The loop over `accept`: a failure is skipped, and a child sends what `send` takes at once.
unfoldable pub serve : List ℕ → List (List ℕ) → List Call → Run
serve text sent [] = serving sent
serve text sent (refused ∷ calls) = serve text sent calls
serve text sent (accepted forks n ∷ calls) =
    serve text (if forks then sent ++ take n text ∷ [] else sent) calls

unfoldable pub listen : World → List ℕ → List Call → Run
listen w text calls =
    if w.listens then (if w.handles then serve text [] calls else no_handler) else not_listening

unfoldable pub after_bind : World → List ℕ → List Call → Bound → Run
after_bind w text calls bound = listen w text calls
after_bind w text calls unbound = not_bound
after_bind w text calls unset = no_options

unfoldable pub bind_any : World → List ℕ → List Call → Option (List Address) → Run
bind_any w text calls none = no_address
bind_any w text calls (some addresses) = after_bind w text calls (bind_first addresses)

-- Another negative size than -1 is not cut off, and `read` takes it as a `size_t` of more than
-- 2 ^ 63.
unfoldable pub measured : World → List Call → List ℕ → ℤ → Run
measured w calls contents (pos n) = bind_any w (out n contents) calls w.addresses
measured w calls contents (negsuc zero) = no_size
measured w calls contents (negsuc (suc n)) = overruns

unfoldable pub offer : World → List Call → Option (List ℕ) → Run
offer w calls none = no_file
offer w calls (some contents) = measured w calls contents (get_file_size w.sizes contents)

unfoldable pub server_main : World → List (List ℕ) → List Call → Run
server_main w (name ∷ []) calls = offer w calls (w.files name)
server_main w [] calls = usage
server_main w (a ∷ b ∷ rest) calls = usage
