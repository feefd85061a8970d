-- ===== src/Http/Body.antt =====
-- Readers and the bodies made of them (`ResponseBody` of src/response.rs). A `Box<dyn Read>` is the
-- bytes that it brings and whether an error stands behind them instead of the end.
use rouille.Common.{
  ℕ, Bool, false, Option, none, some, [], ltb, if◌then◌else◌, length, take, Bytes, Text,
}
use rouille.Common.Utf8.{as_bytes}

pub record Reader : Type 0 where
  pub content : Bytes
  pub fails : Bool

-- `Read::read_to_end`; `none` is an I/O error.
abbrev pub read_to_end : Reader → Option Bytes
read_to_end r = if r.fails then none else some r.content

-- `Read::take`: at the limit no more is read, so that an error behind it does not show.
abbrev pub take_bytes : ℕ → Reader → Reader
take_bytes limit r =
    if ltb (length r.content) limit
    then r
    else record { content = take limit r.content; fails = false }

pub record ResponseBody : Type 0 where
  pub reader : Reader
  pub data_length : Option ℕ

abbrev pub cursor : Bytes → Reader
cursor bytes = record { content = bytes; fails = false }

unfoldable pub empty : ResponseBody
empty = record { reader = cursor []; data_length = some 0 }

unfoldable pub from_reader : Reader → ResponseBody
from_reader r = record { reader = r; data_length = none }

unfoldable from_reader_and_size : Reader → ℕ → ResponseBody
from_reader_and_size r size = record { reader = r; data_length = some size }

unfoldable pub from_data : Bytes → ResponseBody
from_data bytes = record { reader = cursor bytes; data_length = some (length bytes) }

-- The metadata of the file, if it can be read, gives the length.
unfoldable pub from_file : Reader → Option ℕ → ResponseBody
from_file file metadata_len = record { reader = file; data_length = metadata_len }

unfoldable pub from_string : Text → ResponseBody
unfolding from_data
from_string string = from_data (as_bytes string)

unfoldable pub into_reader_and_size : ResponseBody → Reader × Option ℕ
into_reader_and_size b = (b.reader, b.data_length)
