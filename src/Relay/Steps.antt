-- ===== src/Relay/Steps.antt =====
-- The steps that the relay can take, and the states that it can reach.
use axeno_relay.Prelude.{ℕ, ◌≡◌, true, false, Option, some, none, List, ◌∷◌, ◌++◌, Text, DbCall}
use axeno_relay.Ws.Session.{WsApi, State, Inputs}
use axeno_relay.Ws.Connection.{Session, handle_text, open_socket, close_socket}
use axeno_relay.Relay.Tasks.{meta_flush_tick, mailbox_gc_tick, queue_sweep_tick, file_sweep_tick}

module _ (api : WsApi) where
  -- The shared state, and the open sockets with their numbers.
  pub record Relay : Type 0 where
    pub state : State api
    pub sockets : List (ℕ × Session api)

  -- A socket opens or is turned away, receives a text message, or closes, on its own or because the
  -- handler of the message ended its loop; or one of the background tasks has a tick.
  pub data Step (r : Relay) : Relay → Type 0 where
    opened :
        (me now : ℕ) (session : Session api) (s : State api)
        → open_socket api now r.state ≡ (some session, s)
        → Step r (record { state = s; sockets = (me, session) ∷ r.sockets })
    turned_away :
        (now : ℕ) (s : State api)
        → open_socket api now r.state ≡ (none, s)
        → Step r (record { state = s; sockets = r.sockets })
    received :
        (inp : Inputs api) (me : ℕ) (text : Text) (session : Session api)
        (before after : List (ℕ × Session api))
        → r.sockets ≡ before ++ (me, session) ∷ after
        → (handle_text api inp me text session r.state).1.stops ≡ false
        → Step r (record {
          state = (handle_text api inp me text session r.state).1.state;
          sockets = before ++ (me, (handle_text api inp me text session r.state).0) ∷ after;
        })
    retired :
        (inp : Inputs api) (me : ℕ) (text : Text) (session : Session api)
        (before after : List (ℕ × Session api))
        → r.sockets ≡ before ++ (me, session) ∷ after
        → (handle_text api inp me text session r.state).1.stops ≡ true
        → Step r (record {
          state =
              close_socket api me
                (handle_text api inp me text session r.state).0
                (handle_text api inp me text session r.state).1.state;
          sockets = before ++ after;
        })
    closed :
        (me : ℕ) (session : Session api) (before after : List (ℕ × Session api))
        → r.sockets ≡ before ++ (me, session) ∷ after
        → Step r (record { state = close_socket api me session r.state; sockets = before ++ after })
    flushed :
        (auth_fault bundle_fault : Option DbCall)
        → Step r (record {
          state = meta_flush_tick api.state_api auth_fault bundle_fault r.state;
          sockets = r.sockets;
        })
    collected :
        (fault : Option DbCall) (now : ℕ) (snapshot : State api)
        → Step r (record {
          state = mailbox_gc_tick api.state_api fault now snapshot r.state;
          sockets = r.sockets;
        })
    swept_queues :
        (fault : Option DbCall) (now : ℕ)
        → Step r (record {
          state = queue_sweep_tick api.state_api fault now r.state;
          sockets = r.sockets;
        })
    swept_files :
        (faults : List (Option DbCall)) (now : ℕ)
        → Step r (record {
          state = file_sweep_tick api.state_api faults now r.state;
          sockets = r.sockets;
        })

  pub data Reaches : Relay → Relay → Type 0 where
    stays : {r : Relay} → Reaches r r
    goes : {r t u : Relay} → Reaches r t → Step t u → Reaches r u
