-- ===== src/System/Subscription/Lifecycle.antt =====
-- The life of a subscription, from the request to its end.
use tpc_api.Prelude.{ℕ, String, Option, none, some, List, [], ◌∷◌, ◌++◌, Exception, std_exception}
use tpc_api.Prelude.{nat_eq}
use tpc_api.System.Subscription.{
  Subscription, Event, Answer, good, bad, item_created, cannot_monitor, on_item_created,
}

-- A subscription as `create` makes it.
abbrev pub unsubscribed {ℓ} : {N : Type ℓ} → Subscription N
unsubscribed = record { node_ids = []; subscription_id = none; monitored_item_ids = [] }

-- The answer for a node, and the text of the std::exception that the handlers of its information throw, if
-- they throw one.
abbrev pub Answered {ℓ} : Type ℓ → Type ℓ
Answered N = N × Answer × Option String

-- The identifiers of the items that the server made.
abbrev pub made_items {ℓ} : {N : Type ℓ} → List (Answered N) → List ℕ
made_items [] = []
made_items ((node, good id, handled) ∷ answers) = id ∷ made_items answers
made_items ((node, bad what, handled) ∷ answers) = made_items answers

abbrev pub exception_of : Option String → Option Exception
exception_of none = none
exception_of (some what) = some (std_exception what)

module _ {ℓ κ} {N : Type ℓ} (V : Type κ) (to_string : N → String) where
  -- The answers for the nodes, in the order in which they come: the state, and all events. The handlers of
  -- errors throw nothing.
  unfoldable pub answer_each :
      List (Answered N) → Subscription N → Option (Subscription N × List (Event N V))
  answer_each [] s = some (s, [])
  answer_each ((node, answer, handled) ∷ answers) s =
      elim (on_item_created {V = V} to_string (exception_of handled) none node s answer) [
        | none ↦ none
        | some (s', requests, events) ↦ elim (answer_each answers s') [
          | none ↦ none
          | some (s'', events') ↦ some (s'', events ++ events')
        ]
      ]

  -- What is reported of an answer: what was made, or why it was not. If a handler of the information throws,
  -- an error follows, though the item was made.
  abbrev pub report : N → Answer → Option String → List (Event N V)
  report node (good id) none = item_created to_string node ∷ []
  report node (good id) (some what) =
      item_created to_string node ∷ cannot_monitor to_string node what ∷ []
  report node (bad what) handled = cannot_monitor to_string node what ∷ []

  abbrev pub reports : List (Answered N) → List (Event N V)
  reports [] = []
  reports ((node, answer, handled) ∷ answers) = report node answer handled ++ reports answers
