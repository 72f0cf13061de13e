-- ===== src/Utilities/EventHandler.antt =====
-- include/tpc/utilities/event_handler.hpp: `event_handler<Args...>`. A handler is a value `H`, and
-- what a call of it does to the program's state is the parameter `call`. The mutex makes each
-- operation one step; `invoke` copies the handlers under it and calls them outside.
pub mod Registry
pub mod Invocation
mod Tests
use tpc_api.Prelude.{
  ℕ, ◌+◌, ◌%◌, ◌^◌, Bool, true, false, none, List, [], ◌∷◌, length, Effect, before,
}
use tpc_api.Prelude.{nat_eq}
use tpc_api.Prelude.UnorderedMap
use tpc_api.Prelude.UnorderedMap.{UnorderedMap}

pub record EventHandler {ℓ} (H : Type ℓ) : Type ℓ where
  pub next_id : ℕ
  pub handlers : UnorderedMap ℕ H

-- The identifiers are `std::uint64_t`.
abbrev pub id_mod : ℕ
id_mod = 2 ^ 64

module _ {ℓ} {H : Type ℓ} where
  unfoldable pub initial : EventHandler H
  initial = record { next_id = 1; handlers = [] }

  unfoldable pub subscribe : EventHandler H → H → EventHandler H × ℕ
  subscribe e handler =
      let id : ℕ = e.next_id in
      (
        record {
          next_id = (e.next_id + 1) % id_mod;
          handlers = UnorderedMap.emplace e.handlers id handler;
        },
        id,
      )

  pub unsubscribe : EventHandler H → ℕ → EventHandler H
  unsubscribe e id = record e { handlers = UnorderedMap.erase e.handlers id }

  pub release : EventHandler H → EventHandler H
  release e = record e { handlers = [] }

  pub dispose : EventHandler H → EventHandler H
  dispose e = record { next_id = 1; handlers = [] }

  pub empty : EventHandler H → Bool
  empty e = elim e.handlers [ [] ↦ true | _ ↦ false ]

  pub size : EventHandler H → ℕ
  size e = length e.handlers

  -- The copy that `invoke` takes under the mutex.
  unfoldable pub snapshot : UnorderedMap ℕ H → List H
  snapshot [] = []
  snapshot ((id, handler) ∷ m) = handler ∷ snapshot m

module _ {ℓ κ ρ} {H : Type ℓ} {A : Type κ} {S : Type ρ} (call : H → A → Effect S) where
  -- `for (const auto& handler : handlers) handler(args...);`
  unfoldable pub call_each : List H → A → Effect S
  call_each [] args s = (s, none)
  call_each (handler ∷ rest) args s = before (call handler args s) (call_each rest args)

  unfoldable pub invoke : EventHandler H → A → Effect S
  unfolding snapshot call_each
  invoke e args s = call_each (snapshot e.handlers) args s
