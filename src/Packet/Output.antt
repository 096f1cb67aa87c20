-- ===== src/Packet/Output.antt =====
-- scamp/packet.go: the `io.Writer` that packets are written to. Which of its calls fail, after how many bytes and
-- with which error, is a list of outcomes that the environment chooses, one for each call that is
-- still to come; past its end every call succeeds.
use scamp_go.Base.{ℕ, List, [], ◌∷◌, ◌++◌, Option, none, some, Bytes, length, take}

pub data Outcome : Type 0 where
  accepts : Outcome
  fails : ℕ → Bytes → Outcome

pub record Writer : Type 0 where
  pub sent : Bytes
  pub outcomes : List Outcome

-- The writer, how many bytes went out, and the error.
unfoldable pub write_outcome : Bytes → List Outcome → Bytes → Writer × ℕ × Option Bytes
write_outcome sent [] bs = (record { sent = sent ++ bs; outcomes = [] }, length bs, none)
write_outcome sent (accepts ∷ os) bs =
    (record { sent = sent ++ bs; outcomes = os }, length bs, none)
write_outcome sent (fails n e ∷ os) bs =
    (record { sent = sent ++ take n bs; outcomes = os }, length (take n bs), some e)

-- One call of `Write`.
unfoldable pub write_bytes : Writer → Bytes → Writer × ℕ × Option Bytes
unfolding write_outcome
write_bytes w bs = write_outcome w.sent w.outcomes bs
