-- ===== src/Receiver/Pattern.antt =====
-- `openLossPatern` of MP2/receiver_state_machine.cpp: the losses that the receiver is to simulate,
-- from the first line of a file that is not empty.
pub mod Lines
pub mod Examples
pub mod Written
use comnet.Base.{
  ℕ, zero, suc, ◌+◌, ◌-◌, true, false, List, [], ◌∷◌, ◌++◌, Option, none, some, if◌then◌else◌, ◌==◌,
  length, c_string,
}
use comnet.Base.Int.{ℤ, pos, negsuc, ltb_ℤ, to_long, to_int_signed}
use comnet.Base.Decimal.{atoi}
use comnet.Stream.{Disk}
use comnet.Receiver.{Receiver}

-- FILE_BUF_LEN.
abbrev pub file_buf_len : ℕ
file_buf_len = 512

-- `getline` with room for `n` bytes: the line, and what is left of the stream, or `none` if it fails
-- from now on, at the end of the file or since the line is too long.
unfoldable pub get_line : ℕ → List ℕ → List ℕ × Option (List ℕ)
get_line n [] = ([], none)
get_line zero (c ∷ cs) = if c == b'\n' then ([], some cs) else ([], none)
get_line (suc n) (c ∷ cs) =
    let (line, left) = get_line n cs in if c == b'\n' then ([], some cs) else (c ∷ line, left)

-- The loop up to a line with `strlen` not 0, on fuel; `none` says that it never ends, as a stream
-- that fails gives empty lines for ever.
unfoldable pub first_line : ℕ → List ℕ → Option (List ℕ)
first_line zero text = none
first_line (suc fuel) text = elim (c_string (get_line (file_buf_len - 1) text).0) [
  | c ∷ cs ↦ some (c ∷ cs)
  | [] ↦ elim (get_line (file_buf_len - 1) text).1 [
    | none ↦ none
    | some left ↦ first_line fuel left
  ]
]

-- The tokens that `strtok` finds between blanks, one after the other.
unfoldable pub tokens_from : List ℕ → List ℕ → List (List ℕ)
tokens_from [] [] = []
tokens_from (x ∷ token) [] = (x ∷ token) ∷ []
tokens_from [] (c ∷ cs) = elim (c == b' ') [
  | true ↦ tokens_from [] cs
  | false ↦ tokens_from (c ∷ []) cs
]
tokens_from (x ∷ token) (c ∷ cs) = elim (c == b' ') [
  | true ↦ (x ∷ token) ∷ tokens_from [] cs
  | false ↦ tokens_from (x ∷ token ++ c ∷ []) cs
]

-- `atoi`, as an `int`. C leaves a number that does not fit undefined; the C library of Linux cuts
-- it off at a `long` and keeps the low 32 bits.
unfoldable pub to_number : List ℕ → ℤ
to_number token = to_int_signed (to_long (atoi token))

-- What becomes of the call: it returns 0 or -1, `atoi` is given NULL, or the loop never ends.
pub data Loading : Type 0 where
  loaded : Receiver → Loading
  refused : Receiver → Loading
  crashed : Loading
  hanging : Loading

-- Mode 1. The period is stored also where it is refused.
unfoldable pub load_periodic : Receiver → List (List ℕ) → Loading
load_periodic r [] = crashed
load_periodic r (token ∷ rest) =
    let r' = record r { loss_period = to_number token } in
    if ltb_ℤ (to_number token) (pos 2) then refused r' else loaded (record r' { periodic = true })

-- Mode 2. Only positive numbers are pushed.
unfoldable pub positive : ℤ → List ℕ
positive (pos zero) = []
positive (pos (suc n)) = suc n ∷ []
positive (negsuc n) = []

unfoldable pub push_packets : List (List ℕ) → List ℕ
push_packets [] = []
push_packets (token ∷ rest) = positive (to_number token) ++ push_packets rest

-- Refused with an empty list.
unfoldable pub load_packets : Receiver → Loading
load_packets r = elim r.specific_packets [
  | [] ↦ refused r
  | p ∷ ps ↦ loaded (record r { specific = true })
]

unfoldable pub load_specific : Receiver → List (List ℕ) → Loading
load_specific r tokens =
    load_packets (record r { specific_packets = r.specific_packets ++ push_packets tokens })

-- The switch on the mode.
unfoldable pub load_mode : Receiver → ℤ → List (List ℕ) → Loading
load_mode r mode rest = elim mode [
  | pos n ↦
      if n == 0
      then loaded r
      else if n == 1
      then load_periodic r rest
      else if n == 2
      then load_specific r rest
      else refused r
  | negsuc n ↦ refused r
]

unfoldable pub load_tokens : Receiver → List (List ℕ) → Loading
load_tokens r [] = crashed
load_tokens r (token ∷ rest) = load_mode r (to_number token) rest

unfoldable pub load_line : Receiver → Option (List ℕ) → Loading
load_line r none = hanging
load_line r (some line) = load_tokens r (tokens_from [] line)

-- A file that `open` does not find is a stream that fails; each line takes a byte of the others.
unfoldable pub open_loss_pattern : Disk → Receiver → Loading
open_loss_pattern d r =
    if d.readable then load_line r (first_line (length d.contents + 1) d.contents) else hanging
