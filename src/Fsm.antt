-- ===== src/Fsm.antt =====
-- Guarded state machines driven by a list of requests. `transition` is any partial step such as
-- `transition_to` of core/connection_state.py and core/transfer_state.py; a request that raises
-- leaves the state as it was, and the caller goes on.
use peerc.Common.{List, [], ◌∷◌, Result, ok, err}

module _ {S E : Type 0} where
  -- The state after one request.
  abbrev pub settle : S → Result E S → S
  settle s (ok t) = t
  settle s (err e) = s

  abbrev pub keep : Result E S → List S → List S
  keep (ok t) rest = t ∷ rest
  keep (err e) rest = rest

module _ {S E : Type 0} (transition : S → S → Result E S) where
  -- The state after a list of requests.
  unfoldable pub run : S → List S → S
  run s [] = s
  run s (r ∷ rs) = run (settle s (transition s r)) rs

  -- The states entered on the way, one for each request that did not raise.
  unfoldable pub entered : S → List S → List S
  entered s [] = []
  entered s (r ∷ rs) = keep (transition s r) (entered (settle s (transition s r)) rs)

  -- A property of states that one request keeps is kept by any list of requests.
  pub run-keeps {ℓ} :
      (P : S → Type ℓ)
      → ((s r : S) → P s → P (settle s (transition s r)))
      → (s : S) (rs : List S) → P s
      → P (run s rs)
  unfolding run
  run-keeps P step s [] h = h
  run-keeps P step s (r ∷ rs) h = run-keeps P step (settle s (transition s r)) rs (step s r h)
