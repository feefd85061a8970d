-- ===== src/Gateway/Lines.antt =====
-- The loops over the lines of a head in src/proxy.rs and src/cgi.rs, `for header in lines`. The
-- reader is behind a `BufReader`: its bytes are cut at the line feeds, and the last piece is what no
-- line feed ends. A result `none` is a panic.
pub mod Heads
use rouille.Common.{
  ℕ, ◌+◌, ◌*◌, ◌-◌, Bool, true, false, ◌&&◌, Option, none, some, List, [], ◌∷◌, ◌++◌, ltb, leb,
  within, ◌==◌, if◌then◌else◌, ◌>>=◌, is_empty, Bytes, Text, text,
}
use rouille.Common.Utf8.{from_utf8}
use rouille.Common.Results.{Result, ok, err}

-- `?` where there may also be a panic.
abbrev pub chain :
    {S T E : Type 0} → Option (Result S E) → (S → Option (Result T E)) → Option (Result T E)
chain none k = none
chain (some (ok s)) k = k s
chain (some (err e)) k = some (err e)

-- What `lines` takes off the end of a line beside the line feed.
unfoldable pub strip_cr : Bytes → Bytes
strip_cr [] = []
strip_cr (c ∷ []) = if c == 0x0d then [] else c ∷ []
strip_cr (c ∷ d ∷ s) = c ∷ strip_cr (d ∷ s)

-- What is left to read when so many pieces are.
unfoldable pub unread : List Bytes → Bytes
unread [] = []
unread (p ∷ []) = p
unread (p ∷ q ∷ ps) = p ++ 0x0a ∷ unread (q ∷ ps)

module _ {S E : Type 0} (io_error : E) (on_header : Text → S → Option (Result S E)) where
  -- A line, and what comes of the lines behind it: an empty line ends the head.
  unfoldable pub on_line :
      Option Text → Bytes → (S → Option (Result (S × Bytes) E)) → S → Option (Result (S × Bytes) E)
  on_line none rest later s = some (err io_error)
  on_line (some line) rest later s =
      if is_empty line then some (ok (s, rest)) else chain (on_header line s) later

  -- The headers, and the bytes behind the head.
  unfoldable pub read_headers : Bool → List Bytes → S → Option (Result (S × Bytes) E)
  unfolding on_line
  read_headers fails [] s = some (ok (s, []))
  read_headers fails (last ∷ []) s =
      if fails
      then some (err io_error)
      else on_line (from_utf8 last) [] (λ s'. some (ok (s', []))) s
  read_headers fails (p ∷ q ∷ ps) s =
      on_line (from_utf8 (strip_cr p)) (unread (q ∷ ps)) (read_headers fails (q ∷ ps)) s

-- The first line: none at the end of the bytes, or an error.
pub data FirstLine : Type 0 where
  no_line broken : FirstLine
  line_and : Text → List Bytes → FirstLine

abbrev line_or_broken : Option Text → List Bytes → FirstLine
line_or_broken none ps = broken
line_or_broken (some line) ps = line_and line ps

unfoldable pub first_line : Bool → List Bytes → FirstLine
first_line fails [] = no_line
first_line fails (last ∷ []) =
    if fails then broken else if is_empty last then no_line else line_or_broken (from_utf8 last) []
first_line fails (p ∷ q ∷ ps) = line_or_broken (from_utf8 (strip_cr p)) (q ∷ ps)

-- `&val[1..]`, which panics if the first byte is not a character.
unfoldable pub slice_from_1 : Text → Option Text
slice_from_1 [] = none
slice_from_1 (c ∷ s) = if ltb c 0x80 then some s else none

digits_from : ℕ → Text → Option ℕ
digits_from n [] = some n
digits_from n (c ∷ s) =
    if within b'0' b'9' c && leb (n * 10 + (c - b'0')) 0xffff
    then digits_from (n * 10 + (c - b'0')) s
    else none

-- `str::parse::<u16>`: a plus sign if there is one, and digits up to 65535.
unfoldable pub parse_u16 : Text → Option ℕ
unfolding digits_from
parse_u16 [] = none
parse_u16 (c ∷ []) = digits_from 0 (c ∷ [])
parse_u16 (c ∷ d ∷ s) = if c == b'+' then digits_from 0 (d ∷ s) else digits_from 0 (c ∷ d ∷ s)
