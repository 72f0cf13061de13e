-- ===== src/Utilities/EventHandler/Invocation.antt =====
-- Which handlers a call of `invoke` reaches.
use tpc_api.Prelude.{
  ℕ, ◌≡◌, refl, ap, none, some, List, [], ◌∷◌, ◌++◌, arith, Exception, Effect, before,
}
use tpc_api.Prelude.UnorderedMap.{UnorderedMap}
use tpc_api.Utilities.EventHandler.{EventHandler, snapshot, call_each, invoke}

snapshot-append {ℓ} :
    {H : Type ℓ} (xs ys : UnorderedMap ℕ H) → snapshot (xs ++ ys) ≡ snapshot xs ++ snapshot ys
unfolding snapshot
snapshot-append [] ys = refl
snapshot-append ((id, h) ∷ xs) ys = ap (◌∷◌ h) (snapshot-append xs ys)

-- The handlers called one after the other, when none of them throws.
abbrev pub fold_calls {ℓ κ ρ} :
    {H : Type ℓ} {A : Type κ} {S : Type ρ} → (H → A → S → S) → List H → A → S → S
fold_calls apply [] args s = s
fold_calls apply (h ∷ hs) args s = fold_calls apply hs args (apply h args s)

module _ {ℓ κ ρ} {H : Type ℓ} {A : Type κ} {S : Type ρ} (call : H → A → Effect S) where
  call_each-append :
      (hs hs' : List H) (args : A) (s : S)
      → call_each call (hs ++ hs') args s
        ≡ before (call_each call hs args s) (call_each call hs' args)
  unfolding call_each
  call_each-append [] hs' args s = refl
  call_each-append (h ∷ hs) hs' args s =
      ground (arith, call_each-append hs hs' args (call h args s).0)

  -- A handler that throws ends the call of `invoke` with that exception: the handlers walked
  -- before it, which return, have had their effect, and no handler after it is called.
  pub invoke_stops :
      (e : EventHandler H) (earlier later : UnorderedMap ℕ H) (id : ℕ) (h : H) (args : A)
      (s s' s'' : S) (x : Exception)
      → e.handlers ≡ earlier ++ ((id, h) ∷ later)
      → call_each call (snapshot earlier) args s ≡ (s', none)
      → call h args s' ≡ (s'', some x)
      → invoke call e args s ≡ (s'', some x)
  unfolding invoke
  invoke_stops e earlier later id h args s s' s'' x walked calm bad = rw (
    walked,
    snapshot-append earlier ((id, h) ∷ later),
    call_each-append (snapshot earlier) (h ∷ snapshot later) args s,
    calm,
    bad,
  )

  -- If no handler throws, all of them are called, in the order in which the map is walked, each
  -- on the state that the one before it left.
  pub invoke_all :
      (apply : H → A → S → S) (e : EventHandler H) (args : A) (s : S)
      → ((h : H) (a : A) (t : S) → call h a t ≡ (apply h a t, none))
      → invoke call e args s ≡ (fold_calls apply (snapshot e.handlers) args s, none)
  unfolding invoke
  invoke_all apply e args s calm = go (snapshot e.handlers) s
    where
      go : (hs : List H) (t : S) → call_each call hs args t ≡ (fold_calls apply hs args t, none)
      go [] t = refl
      go (h ∷ hs) t = rw (calm h args t) (go hs (apply h args t))
