-- ===== src/System/Calibration/Gauss.antt =====
-- What a frame request reports of the samples.
use tpc_api.Double.{Double}
use tpc_api.Prelude.{
  ◌<◌, String, ◌≡◌, refl, sym, subst, ◌⊎◌, Bool, true, false, not, ◌&&◌, Option, none, some, List,
  [], ◌∷◌, arith, leb, Eq, beq_refl, length,
}
use tpc_api.Prelude.{string_eq}
use tpc_api.Prelude.UnorderedMap
use tpc_api.Prelude.UnorderedMap.{
  UnorderedMap, IsMap, find-insert_or_assign, insert_or_assign-IsMap,
}
use tpc_api.System.FrameReceiver.{add_back}
use tpc_api.System.Client
use tpc_api.System.Client.{Client, average, on_subscription_data_received}
use tpc_api.System.Client.Frame.{HasUniqueNames, get_frame_lem}
use tpc_api.System.Calibration.{calibrate, calibrate_all, get_frame_request}

module _ {ℓ} {W : Type ℓ} ⦃d : Double W⦄ where
  find-calibrate_all :
      (frame : UnorderedMap String W) (name : String) (value : W)
      → UnorderedMap.find frame name ≡ some value
      → UnorderedMap.find (calibrate_all frame) name ≡ some (calibrate name value)
  unfolding calibrate_all UnorderedMap.find
  find-calibrate_all [] name value h = cc
  find-calibrate_all ((j, v) ∷ frame) name value h =
      ground (arith, string_eq.beq_iff j name, find-calibrate_all frame name value)

  -- Calibration changes no name.
  pub calibrated-find :
      (frame : UnorderedMap String W) (name : String)
      → UnorderedMap.find (calibrate_all frame) name ≡ elim (UnorderedMap.find frame name) [
        | none ↦ none
        | some value ↦ some (calibrate name value)
      ]
  unfolding calibrate_all UnorderedMap.find
  calibrated-find [] name = refl
  calibrated-find ((j, v) ∷ frame) name =
      ground (arith, string_eq.beq_iff j name, calibrated-find frame name)

module _ {ℓ κ} {N : Type ℓ} {W : Type κ} ⦃e : Eq N⦄ ⦃d : Double W⦄ where
  pub get_frame_request-calibrate_all :
      (c : Client N W) (frame : UnorderedMap String W)
      → Client.get_frame c ≡ some frame
      → get_frame_request c ≡ some (calibrate_all frame)
  unfolding get_frame_request
  get_frame_request-calibrate_all c frame got = rw (got, get_frame_request)

  -- If no two nodes have the same name, a frame request gives at a node's name the sample of the
  -- node, turned into gauss where the table has the name.
  pub get_frame_request_lem :
      (c : Client N W) (n : N) (name : String) (value : W)
      → HasUniqueNames c.channels_info
      → IsMap c.frame_receiver.received
      → UnorderedMap.find c.channels_info n ≡ some name
      → UnorderedMap.find c.frame_receiver.received n ≡ some value
      → (frame : UnorderedMap String W) × (get_frame_request c ≡ some frame)
        × (UnorderedMap.find frame name ≡ some (calibrate name value))
  unfolding get_frame_request
  get_frame_request_lem c n name value unique h named sampled =
      let (frame, got, at) =
        get_frame_lem c.channels_info unique c n name value refl h named sampled in
      (calibrate_all frame, rw (got, get_frame_request), find-calibrate_all frame name value at)

  -- Let no two channels have the same name, and let the receiver hold one sample for each node. A data
  -- change of a channel with some values, while the receiver has room or holds the node, gives no warning, and the next frame request has at that name the
  -- average of the values, turned into gauss where the table has the name.
  pub get_frame_request-on_subscription_data_received :
      (c : Client N W) (n : N) (name : String) (x : W) (xs : List W)
      → HasUniqueNames c.channels_info
      → IsMap c.frame_receiver.received
      → UnorderedMap.find c.channels_info n ≡ some name
      → (length c.frame_receiver.received < c.frame_receiver.capacity)
        ⊎ (UnorderedMap.contains c.frame_receiver.received n ≡ true)
      → ((on_subscription_data_received c n (x ∷ xs)).1 ≡ none)
        × ((frame : UnorderedMap String W) × (get_frame_request
                (on_subscription_data_received c n (x ∷ xs)).0
              ≡ some frame)
            × (UnorderedMap.find frame name ≡ some (calibrate name (average (x ∷ xs)))))
  unfolding on_subscription_data_received add_back
  get_frame_request-on_subscription_data_received c n name x xs unique h named room =
      let full : Bool =
        not (UnorderedMap.contains c.frame_receiver.received n)
        && leb c.frame_receiver.capacity (length c.frame_receiver.received) in
      let accepted : full ≡ false = ground arith in
      let after : Client N W = record c {
        frame_receiver = record c.frame_receiver {
          received = UnorderedMap.insert_or_assign c.frame_receiver.received n (average (x ∷ xs));
        };
      } in
      let is_after : on_subscription_data_received c n (x ∷ xs) ≡ (after, none) = rw accepted in
      subst
        (λ (r : Client N W × Option String).
          (r.1 ≡ none)
          × ((frame : UnorderedMap String W) × (get_frame_request r.0 ≡ some frame)
              × (UnorderedMap.find frame name ≡ some (calibrate name (average (x ∷ xs))))))
        (sym is_after)
        (
          refl,
          get_frame_request_lem after n name (average (x ∷ xs)) unique
              (insert_or_assign-IsMap c.frame_receiver.received n (average (x ∷ xs)) h) named
              (ground (
                arith,
                beq_refl n,
                find-insert_or_assign c.frame_receiver.received n n (average (x ∷ xs)),
              )),
        )
