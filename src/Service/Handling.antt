-- ===== src/Service/Handling.antt =====
-- scamp/service.go: the messages of a client, and the callbacks that they reach.
use scamp_go.Base.{
  ℕ, ◌≡◌, refl, ap, ◌∙◌, false, List, [], ◌∷◌, map, Option, none, some, Bytes, bytes_Eq, All,
}
use scamp_go.Base.Dict.{lookup}
use scamp_go.Header.{Json}
use scamp_go.Message.{Message}
use scamp_go.Client.{Client}
use scamp_go.Ticket.{Crypto, KeyState, TicketError}
use scamp_go.Action.{needs_ticket, call}
use scamp_go.Service.{
  ServiceAction, Service, incoming, goes_on, run_action, handle_event, handle_loop,
}

-- A message whose action is registered and asks for no ticket.
pub record IsOpen (serv : Service) (msg : Message) : Type 0 where
  pub action : ServiceAction
  pub registered : lookup msg.action serv.actions ≡ some action
  pub no_ticket : needs_ticket action.options ≡ false

-- The callbacks of the messages' actions, one after the other.
abbrev pub callback_of : Option ServiceAction → Message → Option Client → Option Client
callback_of none msg client = client
callback_of (some action) msg client = action.callback msg client

abbrev pub run_callbacks : Service → List Message → Option Client → Option Client
run_callbacks serv [] client = client
run_callbacks serv (msg ∷ msgs) client =
    run_callbacks serv msgs (callback_of (lookup msg.action serv.actions) msg client)

module _ (j : Json) (c : Crypto) (text : TicketError → Bytes) (now : ℕ) where
  run_action-open :
      (action : ServiceAction) (state : KeyState c.Key) (client : Option Client) (msg : Message)
      → needs_ticket action.options ≡ false
      → run_action j c text now (some action) state client msg
        ≡ goes_on state (action.callback msg client)
  unfolding call
  run_action-open action state client msg open_ = rw (open_, call) refl

  handle_event-open :
      (serv : Service) (state : KeyState c.Key) (client : Option Client) (msg : Message)
      → IsOpen serv msg
      → handle_event j c text now serv state client (incoming msg)
        ≡ goes_on state (callback_of (lookup msg.action serv.actions) msg client)
  unfolding handle_event
  handle_event-open serv state client msg h =
      rw (h.registered) (run_action-open h.action state client msg h.no_ticket)

  -- Messages whose actions are registered and ask for no ticket come to the loop of `Handle`: it
  -- goes on after each of them, and the callbacks of their actions have been run on the client,
  -- once per message and in order; the read keys are as before.
  pub handle_loop-run_callbacks :
      (serv : Service) (state : KeyState c.Key) (client : Option Client) (msgs : List Message)
      → All (IsOpen serv) msgs
      → handle_loop j c text now serv (goes_on state client) (map incoming msgs)
        ≡ goes_on state (run_callbacks serv msgs client)
  unfolding handle_loop
  handle_loop-run_callbacks serv state client [] h = refl
  handle_loop-run_callbacks serv state client (msg ∷ msgs) (h, hs) =
      ap (λ r. handle_loop j c text now serv r (map incoming msgs))
        (handle_event-open serv state client msg h)
      ∙ handle_loop-run_callbacks serv state
          (callback_of (lookup msg.action serv.actions) msg client) msgs hs
