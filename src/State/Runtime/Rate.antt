-- ===== src/State/Runtime/Rate.antt =====
-- The send-rate window of a destination, over any sequence of sends to it and to others.
use axeno_relay.Prelude.{ℕ, ◌+◌, Bool, true, false, ◌&&◌, List, [], ◌∷◌, Text, text_eq}
use axeno_relay.State.Runtime.{StateApi, AppState, allow_dest_send}

module _ (api : StateApi) where
  abbrev one_if : Bool → ℕ
  one_if true = 1
  one_if false = 0

  -- How many of the sends, given by the clock and the destination, are allowed to go to `to`.
  unfoldable pub allowed_to : Text → List (ℕ × Text) → AppState api → ℕ
  allowed_to to [] s = 0
  allowed_to to ((now, dest) ∷ sends) s =
      one_if (text_eq dest to && (allow_dest_send api now dest s).0)
      + allowed_to to sends (allow_dest_send api now dest s).1
