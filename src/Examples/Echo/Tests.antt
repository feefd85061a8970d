-- ===== src/Examples/Echo/Tests.antt =====
-- A client of examples/websocket.rs that the theorem on it is applied to.
use rouille.Common.{◌≡◌, refl, none, some, List, [], ◌∷◌, ◌++◌, Bytes, text, arith, inl, true}
use rouille.Common.Utf8.{as_bytes}
use rouille.Websocket.Frame.{ReadWrite, ReadResult, received}
use rouille.Websocket.Connection.{Websocket, build}
use rouille.Examples.Echo.{websocket_handling_thread}
use rouille.Examples.Echo.Sending.{Said, IsShort, frame_of, IsStream, IsIdle}
use rouille.Examples.Echo.Frames.{websocket_handling_thread_lem}

-- What is still to come, and what was written.
abbrev Line : Type 0
Line = List Bytes × Bytes

abbrev next_read : Line → ReadResult × Line
next_read ([], written) = (received [], ([], written))
next_read (bytes ∷ later, written) = (received bytes, (later, written))

abbrev line : ReadWrite
line = record {
  Stream = Line;
  read = next_read;
  write_all = λ bytes s. (true, (s.0, s.1 ++ bytes));
  flush = λ s. (true, s);
}

reads :
    (s : Line) (bytes : Bytes) (later : List Bytes)
    → s.0 ≡ bytes ∷ later
    → (t : Line) × (next_read s ≡ (received bytes, t)) × (t.0 ≡ later) × (t.1 ≡ s.1)
reads (incoming, written) bytes later e = ((later, written), rw e refl, refl, refl)

ends : (s : Line) → s.0 ≡ [] → (t : Line) × (next_read s ≡ (received [], t))
ends (incoming, written) e = (([], written), rw e refl)

abbrev line-IsStream : IsStream line
line-IsStream = record {
  incoming = λ s. s.0;
  written = λ s. s.1;
  reads = reads;
  ends = ends;
  writes = λ bytes s. ((s.0, s.1 ++ bytes), refl, refl, refl);
  flushes = λ s. (s, refl, refl, refl);
}

abbrev hi : Said
hi = record { a = 1; b = 2; c = 3; d = 4; txt = text "hi" }

abbrev ho : Said
ho = record { a = 9; b = 8; c = 7; d = 6; txt = text "ho" }

abbrev socket : Line
socket = (frame_of hi ∷ frame_of ho ∷ [], [])

abbrev opened : Websocket Line
opened = build line socket

opened-IsIdle : IsIdle line opened socket
opened-IsIdle = record {
  is_open = refl;
  no_queue = refl;
  is_between = refl;
  no_message = refl;
  no_frame = refl;
}

hi-IsShort : IsShort hi
unfolding text as_bytes
hi-IsShort = record {
  is_text = (inl (omega arith), (inl (omega arith), tt));
  is_full = refl;
  is_short = omega arith;
}

ho-IsShort : IsShort ho
unfolding text as_bytes
ho-IsShort = record {
  is_text = (inl (omega arith), (inl (omega arith), tt));
  is_full = refl;
  is_short = omega arith;
}

websocket_handling_thread_lem_example :
    (ws' : Websocket Line) × (t : Line) × (websocket_handling_thread line 3 2 opened
      ≡ websocket_handling_thread line 1 2 ws')
    × IsIdle line ws' t
    × (t.1 ≡ (0x81 ∷ 2 ∷ b'h' ∷ b'i' ∷ 0x81 ∷ 2 ∷ b'h' ∷ b'o' ∷ []))
    × (websocket_handling_thread line 3 2 opened ≡ some (record ws' { socket = none }))
unfolding text as_bytes
websocket_handling_thread_lem_example =
    websocket_handling_thread_lem line line-IsStream (hi ∷ ho ∷ []) opened socket
      (hi-IsShort, (ho-IsShort, tt)) opened-IsIdle refl
