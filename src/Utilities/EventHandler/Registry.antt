-- ===== src/Utilities/EventHandler/Registry.antt =====
-- Who is registered, and under which identifier.
use tpc_api.Prelude.{
  ℕ, suc, ◌+◌, ◌%◌, ◌≤◌, ◌<◌, ◌≡◌, refl, false, Option, none, some, List, [], ◌∷◌, arith, ◌==◌,
  if◌then◌else◌, length,
}
use tpc_api.Prelude.{nat_eq}
use tpc_api.Prelude.UnorderedMap
use tpc_api.Prelude.UnorderedMap.{UnorderedMap, IsMap}
use tpc_api.Utilities.EventHandler.{
  EventHandler, id_mod, initial, subscribe, unsubscribe, release, dispose,
}

-- Every identifier in use lies below `next_id`, and none is used twice.
abbrev pub Below {ℓ} : {H : Type ℓ} → ℕ → UnorderedMap ℕ H → Type 0
Below n [] = Unit
Below n ((id, h) ∷ m) = (0 < id) × (id < n) × Below n m

pub record IsRegistry {ℓ} {H : Type ℓ} (e : EventHandler H) : Type 0 where
  pub positive : 0 < e.next_id
  pub below : Below e.next_id e.handlers
  pub distinct : IsMap e.handlers

-- The calls that change an `event_handler`.
pub data Request {ℓ} (H : Type ℓ) : Type ℓ where
  subscribes : H → Request H
  unsubscribes : ℕ → Request H
  releases : Request H
  disposes : Request H

module _ {ℓ} {H : Type ℓ} where
  pub step : EventHandler H → Request H → EventHandler H
  step e (subscribes h) = (subscribe e h).0
  step e (unsubscribes id) = unsubscribe e id
  step e releases = release e
  step e disposes = dispose e

  pub run : EventHandler H → List (Request H) → EventHandler H
  run e [] = e
  run e (r ∷ rs) = run (step e r) rs

  Below-mono : {m n : ℕ} (hs : UnorderedMap ℕ H) → m ≤ n → Below m hs → Below n hs
  Below-mono [] le b = tt
  Below-mono (h ∷ hs) le b = (b.0, omega arith, Below-mono hs le b.2)

  contains-Below :
      (n id : ℕ) (hs : UnorderedMap ℕ H) → n ≤ id → Below n hs → UnorderedMap.contains hs id ≡ false
  unfolding UnorderedMap.contains
  contains-Below n id [] le b = refl
  contains-Below n id ((j, h) ∷ hs) le b = ground (arith, contains-Below n id hs le b.2)

  insert-Below :
      (n id : ℕ) (h : H) (hs : UnorderedMap ℕ H)
      → 0 < id
      → id < n
      → Below n hs
      → Below n (UnorderedMap.insert_or_assign hs id h)
  unfolding UnorderedMap.insert_or_assign
  insert-Below n id h [] p q b = (p, q, tt)
  insert-Below n id h ((j, w) ∷ hs) p q b = ground (arith, insert-Below n id h hs p q b.2)

  erase-Below : (n id : ℕ) (hs : UnorderedMap ℕ H) → Below n hs → Below n (UnorderedMap.erase hs id)
  unfolding UnorderedMap.erase
  erase-Below n id [] b = tt
  erase-Below n id ((j, w) ∷ hs) b = ground (arith, erase-Below n id hs b.2)

  next_is_free : (e : EventHandler H) → IsRegistry e → UnorderedMap.find e.handlers e.next_id ≡ none
  next_is_free e r =
      UnorderedMap.contains-find e.handlers e.next_id
        (contains-Below e.next_id e.next_id e.handlers (omega arith) r.below)

  -- While identifiers do not wrap, a new subscription is found under the identifier that it was
  -- given, that identifier was free, and every other subscription is as before.
  pub find-subscribe :
      (e : EventHandler H) (h : H) (j : ℕ)
      → IsRegistry e
      → e.next_id + 1 < id_mod
      → let (after, id) = subscribe e h in
        (UnorderedMap.find e.handlers id ≡ none)
        × (UnorderedMap.find after.handlers j
            ≡ (if id == j then some h else UnorderedMap.find e.handlers j))
  unfolding subscribe
  find-subscribe e h j r small =
      let free = contains-Below e.next_id e.next_id e.handlers (omega arith) r.below in
      (next_is_free e r, rw (UnorderedMap.find-emplace e.handlers e.next_id j h, free))

  subscribe-IsRegistry :
      (e : EventHandler H) (h : H)
      → IsRegistry e
      → e.next_id + 1 < id_mod
      → IsRegistry (subscribe e h).0
  unfolding subscribe UnorderedMap.emplace
  subscribe-IsRegistry e h r small =
      let next : (e.next_id + 1) % id_mod ≡ suc e.next_id = omega arith in
      let free = contains-Below e.next_id e.next_id e.handlers (omega arith) r.below in
      rw next (record {
        positive = omega arith;
        below = rw free (
            insert-Below (suc e.next_id) e.next_id h e.handlers r.positive (omega arith)
              (Below-mono e.handlers (omega arith) r.below));
        distinct = UnorderedMap.emplace-IsMap e.handlers e.next_id h r.distinct;
      })

  -- Every call keeps the identifiers distinct, positive and below the next one, as long as the
  -- counter stays inside `std::uint64_t`.
  pub step-IsRegistry :
      (e : EventHandler H) (r : Request H)
      → IsRegistry e
      → e.next_id + 1 < id_mod
      → IsRegistry (step e r)
  unfolding step unsubscribe release dispose
  step-IsRegistry e (subscribes h) v small = subscribe-IsRegistry e h v small
  step-IsRegistry e (unsubscribes id) v small = record {
    positive = v.positive;
    below = erase-Below e.next_id id e.handlers v.below;
    distinct = UnorderedMap.erase-IsMap e.handlers id v.distinct;
  }
  step-IsRegistry e releases v small = record { positive = v.positive; below = tt; distinct = tt }
  step-IsRegistry e disposes v small = record { positive = omega arith; below = tt; distinct = tt }

  next_id-step :
      (e : EventHandler H) (r : Request H)
      → e.next_id + 1 < id_mod
      → 0 < e.next_id
      → (step e r).next_id ≤ e.next_id + 1
  unfolding step subscribe unsubscribe release dispose
  next_id-step e (subscribes h) small p = omega arith
  next_id-step e (unsubscribes id) small p = omega arith
  next_id-step e releases small p = omega arith
  next_id-step e disposes small p = omega arith

  run_from-IsRegistry :
      (e : EventHandler H) (rs : List (Request H))
      → IsRegistry e
      → e.next_id + length rs < id_mod
      → IsRegistry (run e rs)
  unfolding run
  run_from-IsRegistry e [] v small = v
  run_from-IsRegistry e (r ∷ rs) v small =
      run_from-IsRegistry (step e r) rs (step-IsRegistry e r v (omega arith))
        (omega (arith, next_id-step e r (omega arith) v.positive))

  -- From a new event handler every history of fewer than 2^64 - 1 calls leaves distinct, positive
  -- identifiers, all below the next one to be given.
  pub run-IsRegistry :
      (rs : List (Request H)) → length rs + 1 < id_mod → IsRegistry (run initial rs)
  unfolding initial
  run-IsRegistry rs small =
      run_from-IsRegistry _ rs (record { positive = omega arith; below = tt; distinct = tt })
        (omega arith)

  -- After `unsubscribe` the identifier leads to no handler, and the others lead where they led.
  pub find-unsubscribe :
      (e : EventHandler H) (id j : ℕ)
      → IsRegistry e
      → UnorderedMap.find (unsubscribe e id).handlers j
        ≡ (if id == j then none else UnorderedMap.find e.handlers j)
  unfolding unsubscribe
  find-unsubscribe e id j v = UnorderedMap.find-erase e.handlers id j v.distinct

  -- Who is found under an identifier after a call.
  abbrev pub found_after : EventHandler H → Request H → ℕ → Option H
  found_after e (subscribes h) j = if e.next_id == j then some h else UnorderedMap.find e.handlers j
  found_after e (unsubscribes id) j = if id == j then none else UnorderedMap.find e.handlers j
  found_after e releases j = none
  found_after e disposes j = none

  -- While identifiers do not wrap: a new subscription is found under the next identifier, which was
  -- free; after `unsubscribe` the identifier leads to no handler; each other identifier leads where it led;
  -- and after `release` and `dispose` none leads to a handler.
  pub find-step :
      (e : EventHandler H) (r : Request H) (j : ℕ)
      → IsRegistry e
      → e.next_id + 1 < id_mod
      → (UnorderedMap.find e.handlers e.next_id ≡ none)
        × (UnorderedMap.find (step e r).handlers j ≡ found_after e r j)
  unfolding step release dispose UnorderedMap.find subscribe
  find-step e (subscribes h) j v small = find-subscribe e h j v small
  find-step e (unsubscribes id) j v small = (next_is_free e v, find-unsubscribe e id j v)
  find-step e releases j v small = (next_is_free e v, refl)
  find-step e disposes j v small = (next_is_free e v, refl)
