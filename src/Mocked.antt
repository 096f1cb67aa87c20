-- ===== src/Mocked.antt =====
-- scamp/mocked.go: a requester that answers from a table.
-- Its two errors are told apart by their text, which is written out.
use scamp_go.Base.{List, [], ◌∷◌, ◌++◌, Option, some, Bytes, codes, bytes_Eq}
use scamp_go.Base.Dict.{lookup}
use scamp_go.Base.Result.{Result, ok, err}
use scamp_go.Message.{Message, new_response_message, set_action, write}

pub record MockedRequester : Type 0 where
  pub mock_requests : List (Bytes × Bytes)
  pub mock_errors : List Bytes

-- `NewMockedScampRequester`.
abbrev pub new_mocked : List (Bytes × Bytes) → MockedRequester
new_mocked mocks = record { mock_requests = mocks; mock_errors = [] }

abbrev pub response_of : Bytes → Option Bytes → Result Bytes Message
response_of action (some (b ∷ response)) =
    ok (write (set_action new_response_message action) (b ∷ response)).0
response_of action _ = err (codes "No response was found for action: " ++ action)

-- `getMockedResponse`.
unfoldable pub get_mocked_response : MockedRequester → Bytes → Result Bytes Message
get_mocked_response r action = response_of action (lookup action r.mock_requests)

-- `addError`.
abbrev pub add_error : MockedRequester → Bytes → MockedRequester
add_error r e = record r { mock_errors = r.mock_errors ++ e ∷ [] }

abbrev pub mocked_error : Bytes → Bytes
mocked_error e = codes "Error getting mocked response: " ++ e

-- `MakeJSONRequest` of the mocked requester.
unfoldable pub make_mocked_request :
    MockedRequester → Message → MockedRequester × Result Bytes Message
make_mocked_request r mssg = elim (get_mocked_response r mssg.action) [
  | ok response ↦ (r, ok response)
  | err e ↦ (add_error r (mocked_error e), err (mocked_error e))
]
