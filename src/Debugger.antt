-- ===== src/Debugger.antt =====
-- scamp/debugger.go: the numbers that debuggers draw from a counter that goroutines share, the names of
-- their files, and what is written there. The random text of the process is an argument.
pub mod Drawn
use scamp_go.Base.{
  ℕ, zero, suc, ◌+◌, ◌%◌, Bool, true, false, List, [], ◌∷◌, ◌++◌, Option, none, some, ◌==◌,
  if◌then◌else◌, Bytes, codes, length,
}
use scamp_go.Base.Decimal.{two_64, format_uint, format_int}

-- Where a `newScampDebugger` is: about to load the counter, with the tries that are left, about to
-- compare and swap it against what it has loaded, with its number, or at its panic.
pub data Attempt : Type 0 where
  loading : ℕ → Attempt
  swapping : ℕ → ℕ → Attempt
  drawn : ℕ → Attempt
  gave_up : Attempt

abbrev pub first_attempt : Attempt
first_attempt = loading 10

abbrev pub swap : Bool → ℕ → ℕ → ℕ → ℕ × Attempt
swap true id left loaded = let this = (loaded + 1) % two_64 in (this, drawn this)
swap false id left loaded = (id, loading left)

-- A step of one goroutine, with the counter `scampDebuggerID`.
unfoldable pub attempt_step : ℕ → Attempt → ℕ × Attempt
attempt_step id (loading zero) = (id, gave_up)
attempt_step id (loading (suc left)) = (id, swapping left id)
attempt_step id (swapping left loaded) = swap (id == loaded) id left loaded
attempt_step id (drawn this) = (id, drawn this)
attempt_step id gave_up = (id, gave_up)

-- The path of the debugger's file.
unfoldable pub tee_path : Bytes → Bytes → ℕ → Bytes
tee_path random client_type this =
    codes "/tmp/scamp_proto.bin"
    ++ b'.' ∷ (random ++ b'.' ∷ (client_type ++ b'.' ∷ format_uint this))

-- A write to the debugger's file: what is in the file, the count that is returned, and whether it worked.
abbrev pub write_text : Bytes → Bool → Bytes → Bytes → Bytes × (ℕ × Bool)
write_text text false p file = (file, (0, false))
write_text text true p file = (file ++ text, (length p, true))

-- `Write`, at a given time.
unfoldable pub debugger_write : Bool → ℕ → Bytes → Bytes → Bytes × (ℕ × Bool)
debugger_write works now p file =
    write_text (codes "write: " ++ (format_int now ++ b' ' ∷ p)) works p file

-- `ReadWriter`.
unfoldable pub read_writer : Bool → ℕ → Bytes → Bytes → Bytes × (ℕ × Bool)
read_writer works now p file =
    write_text (codes "read: " ++ (format_int now ++ b' ' ∷ p)) works p file
