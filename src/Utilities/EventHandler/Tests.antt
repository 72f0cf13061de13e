-- ===== src/Utilities/EventHandler/Tests.antt =====
-- The event handler at concrete inputs: a handler is a number that is added to a log, and 0 throws.
use tpc_api.Prelude.{
  ℕ, ◌+◌, ◌≡◌, refl, none, some, List, [], ◌∷◌, arith, ◌==◌, if◌then◌else◌, std_exception, Effect,
}
use tpc_api.Prelude.{nat_eq}
use tpc_api.Prelude.UnorderedMap
use tpc_api.Utilities.EventHandler.{EventHandler, initial, subscribe, snapshot, call_each, invoke}
use tpc_api.Utilities.EventHandler.Registry.{
  IsRegistry, subscribes, unsubscribes, step, run, found_after, find-step, step-IsRegistry,
  run-IsRegistry,
}
use tpc_api.Utilities.EventHandler.Invocation.{invoke_stops}

abbrev log : ℕ → ℕ → Effect (List ℕ)
log h a s = if h == 0 then (s, some (std_exception "zero")) else ((h + a) ∷ s, none)

abbrev two : EventHandler ℕ
two = record { next_id = 3; handlers = (1, 10) ∷ (2, 20) ∷ [] }

abbrev faulty : EventHandler ℕ
faulty = record { next_id = 4; handlers = (1, 10) ∷ (2, 0) ∷ (3, 30) ∷ [] }

two-IsRegistry : IsRegistry two
unfolding UnorderedMap.contains
two-IsRegistry = record {
  positive = omega arith;
  below = omega arith;
  distinct = (refl, (refl, tt));
}

two_built : (subscribe (subscribe initial 10).0 20).0 ≡ two
unfolding subscribe initial UnorderedMap.emplace UnorderedMap.contains UnorderedMap.insert_or_assign
two_built = refl

find-step_example :
    (UnorderedMap.find two.handlers 3 ≡ none)
    × (UnorderedMap.find (step two (unsubscribes 1)).handlers 2
        ≡ found_after two (unsubscribes 1) 2)
find-step_example = find-step two (unsubscribes 1) 2 two-IsRegistry (omega arith)

step-IsRegistry_example : IsRegistry (step two (unsubscribes 1))
step-IsRegistry_example = step-IsRegistry two (unsubscribes 1) two-IsRegistry (omega arith)

run-IsRegistry_example :
    IsRegistry {H = ℕ} (run initial (subscribes 10 ∷ unsubscribes 1 ∷ subscribes 20 ∷ []))
run-IsRegistry_example =
    run-IsRegistry (subscribes 10 ∷ unsubscribes 1 ∷ subscribes 20 ∷ []) (omega arith)

invoke_stops_example : invoke log faulty 5 [] ≡ (15 ∷ [], some (std_exception "zero"))
unfolding snapshot call_each
invoke_stops_example =
    invoke_stops log faulty ((1, 10) ∷ []) ((3, 30) ∷ []) 2 0 5 [] (15 ∷ []) (15 ∷ [])
      (std_exception "zero") refl refl refl
