-- ===== src/Packet/Line.antt =====
-- scamp/packet.go: `bufio.Reader.ReadLine` over the bytes still to come, with the default buffer of 4096 bytes.
pub mod Cut
use scamp_go.Base.{
  ℕ, zero, suc, Bool, true, false, List, [], ◌∷◌, Option, none, some, ◌==◌, if◌then◌else◌, Bytes,
  length,
}

abbrev pub buffer_size : ℕ
buffer_size = 4096

-- The outcomes of `ReadSlice('\n')`: the line before its newline, a buffer with no newline, or all
-- that was left when the input ended.
pub data Slice : Type 0 where
  found full ended : Bytes → Bytes → Slice

unfoldable pub put_back : ℕ → Slice → Slice
put_back c (found line rest) = found (c ∷ line) rest
put_back c (full line rest) = full (c ∷ line) rest
put_back c (ended line rest) = ended (c ∷ line) rest

-- The first argument is the room left in the buffer.
unfoldable pub read_slice : ℕ → Bytes → Slice
unfolding put_back
read_slice zero s = full [] s
read_slice (suc room) [] = ended [] []
read_slice (suc room) (c ∷ s) =
    let more = put_back c (read_slice room s) in if c == b'\n' then found [] s else more

-- A carriage return at the end of the line.
unfoldable pub ends_cr : Bytes → Bool
ends_cr [] = false
ends_cr (c ∷ []) = c == b'\r'
ends_cr (c ∷ d ∷ s) = ends_cr (d ∷ s)

unfoldable pub drop_last : Bytes → Bytes
drop_last [] = []
drop_last (c ∷ []) = []
drop_last (c ∷ d ∷ s) = c ∷ drop_last (d ∷ s)

-- A line ends in `\r\n` or `\n`. In a full buffer, a last `\r` is put back for the next call.
unfoldable pub line_of : Slice → Option (Bytes × Bytes)
unfolding ends_cr drop_last
line_of (found line rest) = if ends_cr line then some (drop_last line, rest) else some (line, rest)
line_of (full line rest) =
    if ends_cr line then some (drop_last line, b'\r' ∷ rest) else some (line, rest)
line_of (ended [] rest) = none
line_of (ended (c ∷ s) rest) = some (c ∷ s, rest)

-- `none` is the error at the end of the input.
unfoldable pub read_line : Bytes → Option (Bytes × Bytes)
unfolding read_slice line_of
read_line input = line_of (read_slice buffer_size input)
