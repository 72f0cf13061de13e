-- ===== src/System/Session/Readings.antt =====
-- The frames of the facade after the data changes of a session.
use tpc_api.Prelude.{
  ℕ, ◌≤◌, String, ◌≡◌, refl, ap, ◌∙◌, inl, inr, Bool, true, Option, none, some, List, [], ◌∷◌, ◌++◌,
  arith, Option-cases, Eq, length, All,
}
use tpc_api.Prelude.{string_eq}
use tpc_api.Double.{Double}
use tpc_api.Prelude.UnorderedMap
use tpc_api.Prelude.UnorderedMap.{UnorderedMap, IsMap}
use tpc_api.System.FrameReceiver.{add_back}
use tpc_api.System.FrameReceiver.History.{receive_all, receive_all-IsReceiver_from}
use tpc_api.System.Client.{Client, average, name_frame, on_subscription_data_received}
use tpc_api.System.Client.Frame.{HasUniqueNames, find-name_frame, get_frame-name_frame}
use tpc_api.System.Calibration.{calibrate, calibrate_all, get_frame_request}
use tpc_api.System.Calibration.Gauss.{calibrated-find, get_frame_request-calibrate_all}
use tpc_api.System.Polling.{frame_received, reading, poll_events}
use tpc_api.System.Session.Samples.{
  last_of, HasRoom, add_back-accepts, add_back-HasRoom, find-receive_all,
}

abbrev pub warned : Option String → List String
warned none = []
warned (some warning) = warning ∷ []

module _ {ℓ κ} {N : Type ℓ} {W : Type κ} ⦃e : Eq N⦄ ⦃d : Double W⦄ where
  -- Data changes one after the other, with the warnings.
  unfoldable pub receive_changes : Client N W → List (N × List W) → Client N W × List String
  receive_changes c [] = (c, [])
  receive_changes c ((node, values) ∷ changes) =
      let (c', warning) = on_subscription_data_received c node values in
      let (c'', warnings) = receive_changes c' changes in (c'', warned warning ++ warnings)

  -- The samples that the changes with a value give.
  abbrev pub averages : List (N × List W) → List (N × W)
  averages [] = []
  averages ((node, []) ∷ changes) = averages changes
  averages ((node, value ∷ values) ∷ changes) = (node, average (value ∷ values)) ∷ averages changes

  -- A warning for each change without a value.
  abbrev pub empties : List (N × List W) → List String
  empties [] = []
  empties ((node, []) ∷ changes) = "Received an empty sensor sample" ∷ empties changes
  empties ((node, value ∷ values) ∷ changes) = empties changes

  module _ (m : UnorderedMap N String) where
    abbrev pub AreChannels : List (N × List W) → Type 0
    AreChannels changes = All (λ change. UnorderedMap.contains m change.0 ≡ true) changes

    receive_changes_lem :
        (c : Client N W) (changes : List (N × List W))
        → HasRoom c.frame_receiver m
        → AreChannels changes
        → receive_changes c changes ≡ (
          record c { frame_receiver = receive_all c.frame_receiver (averages changes) },
          empties changes,
        )
    unfolding receive_changes receive_all on_subscription_data_received
    receive_changes_lem c [] h known = refl
    receive_changes_lem c ((node, []) ∷ changes) h (here, known) =
        rw (receive_changes_lem c changes h known)
    receive_changes_lem c ((node, value ∷ values) ∷ changes) h (here, known) =
        let receiver = c.frame_receiver in
        let average_value = average (value ∷ values) in
        let accepted = ap (λ p. p.1) (add_back-accepts m receiver node average_value h here) in
        let c' : Client N W = record c {
          frame_receiver = (add_back receiver node average_value).0;
        } in
        let rest =
          receive_changes_lem c' changes (add_back-HasRoom m receiver node average_value h here)
            known in
        rw (rest, on_subscription_data_received, accepted)

    averages-AllIn :
        (changes : List (N × List W))
        → AreChannels changes
        → All (λ sample. UnorderedMap.contains m sample.0 ≡ true) (averages changes)
    averages-AllIn [] known = tt
    averages-AllIn ((node, []) ∷ changes) (here, known) = averages-AllIn changes known
    averages-AllIn ((node, value ∷ values) ∷ changes) (here, known) =
        (here, averages-AllIn changes known)

started-HasRoom {ℓ κ} :
    {N : Type ℓ} (W : Type κ) ⦃e : Eq N⦄ (channels : UnorderedMap N String) (capacity : ℕ)
    → 1 ≤ capacity
    → length channels ≤ capacity
    → HasRoom {W = W} (record { received = []; capacity = capacity }) channels
unfolding UnorderedMap.contains
started-HasRoom W channels capacity positive room = ((tt, omega arith, positive), λ k has. cc, room)

-- The calibration of what may be there.
abbrev pub reading_of {ℓ} : {W : Type ℓ} ⦃d : Double W⦄ → String → Option W → Option W
reading_of name none = none
reading_of name (some value) = some (calibrate name value)

module _ {ℓ} {W : Type ℓ} ⦃d : Double W⦄ where
  find-calibrate_all_reading :
      (frame : UnorderedMap String W) (name : String)
      → UnorderedMap.find (calibrate_all frame) name
        ≡ reading_of name (UnorderedMap.find frame name)
  find-calibrate_all_reading frame name = elim (Option-cases (UnorderedMap.find frame name)) [
    | inl nothing ↦ calibrated-find frame name ∙ rw nothing
    | inr (value, found) ↦ calibrated-find frame name ∙ rw found
  ]

  sampled_reading :
      (name : String) (o : Option W)
      → reading_of name (elim o [ none ↦ none | some value ↦ some value ]) ≡ reading_of name o
  sampled_reading name none = refl
  sampled_reading name (some value) = refl

last_of-sampled {ℓ κ} :
    {N : Type ℓ} {W : Type κ} ⦃e : Eq N⦄ (node : N) (value : W) (samples : List (N × W))
    → (last : W) × (last_of ((node, value) ∷ samples) node ≡ some last)
last_of-sampled ⦃e⦄ node value samples = elim (Option-cases (last_of samples node)) [
  | inl nothing ↦ (value, rw (nothing, (e.beq_iff node node).1 refl))
  | inr (last, found) ↦ (last, rw found)
]

module _ {ℓ κ} {N : Type ℓ} {W : Type κ} ⦃e : Eq N⦄ ⦃d : Double W⦄ where
  -- The reading of the client, calibrated.
  find-get_frame_request :
      (c : Client N W) (received_node n : N) (value : W) (name : String)
      → HasUniqueNames c.channels_info
      → IsMap c.frame_receiver.received
      → UnorderedMap.find c.frame_receiver.received received_node ≡ some value
      → UnorderedMap.find c.channels_info n ≡ some name
      → (frame : UnorderedMap String W) × (get_frame_request c ≡ some frame)
        × (UnorderedMap.find frame name
            ≡ reading_of name (UnorderedMap.find c.frame_receiver.received n))
  find-get_frame_request c received_node n value name unique h sampled named =
      let frame = name_frame c.channels_info c.frame_receiver.received [] in
      (
        calibrate_all frame,
        get_frame_request-calibrate_all c frame
            (get_frame-name_frame c received_node value sampled),
        find-calibrate_all_reading frame name
            ∙ ap (reading_of name)
                (find-name_frame c.channels_info c.frame_receiver.received n name unique h named),
      )

  -- A client whose receiver is new.
  abbrev pub started_client : UnorderedMap N String → ℕ → Client N W
  started_client channels capacity = record {
    channels_info = channels;
    frame_receiver = record { received = []; capacity = capacity };
  }

  -- Let no two channels have the same name, and let there be no more channels than the receiver has
  -- room for. After any data changes of the channels, one of them with a value, there is one warning for
  -- each change without a value and no other; and the next reading of the polling worker reports a frame,
  -- if its handlers do not throw. At the name of each channel, that frame has the average of the last change
  -- with a value, turned into gauss where the table has the name, and nothing if there was none.
  pub poll_events-receive_changes :
      (bad_optional_access : String) (elapsed : Bool) (channels : UnorderedMap N String)
      (capacity : ℕ) (changes : List (N × List W)) (sample : N × W) (samples : List (N × W)) (n : N)
      (name : String)
      → HasUniqueNames channels
      → 1 ≤ capacity
      → length channels ≤ capacity
      → AreChannels channels changes
      → averages changes ≡ sample ∷ samples
      → UnorderedMap.find channels n ≡ some name
      → let (c, warnings) = receive_changes (started_client channels capacity) changes in
        (warnings ≡ empties changes)
        × ((frame : UnorderedMap String W) × (poll_events bad_optional_access reading
                (record { client = c; thrown_ = none; elapsed = elapsed })
              ≡ frame_received frame ∷ [])
            × (UnorderedMap.find frame name ≡ reading_of name (last_of (averages changes) n)))
  unfolding poll_events UnorderedMap.find
  poll_events-receive_changes bad_optional_access elapsed channels capacity changes sample samples n
        name unique positive room known has_sample named =
      let start : Client N W = started_client channels capacity in
      let h = started-HasRoom W channels capacity positive room in
      let all = averages-AllIn channels changes known in
      let received = receive_changes_lem channels start changes h known in
      let c : Client N W = record start {
        frame_receiver = receive_all start.frame_receiver (averages changes);
      } in
      let (last, is_last) = last_of-sampled sample.0 sample.1 samples in
      let here : UnorderedMap.find c.frame_receiver.received sample.0 ≡ some last =
        find-receive_all channels start.frame_receiver (averages changes) sample.0 h all
        ∙ rw (has_sample, is_last) in
      let there = find-receive_all channels start.frame_receiver (averages changes) n h all in
      let distinct : IsMap c.frame_receiver.received =
        (receive_all-IsReceiver_from start.frame_receiver (averages changes) h.0).0 in
      let (frame, got, at) =
        find-get_frame_request c sample.0 n last name unique distinct here named in
      rw received (
        refl,
        (
          frame,
          rw got,
          at ∙ ap (reading_of name) there ∙ sampled_reading name (last_of (averages changes) n),
        ),
      )
