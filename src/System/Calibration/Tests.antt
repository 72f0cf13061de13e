-- ===== src/System/Calibration/Tests.antt =====
-- A client with one calibrated sensor and one that is not, on numbers with three decimals.
use tpc_api.Prelude.{ℕ, String, ◌≡◌, refl, inl, none, some, [], ◌∷◌, arith, ==_iff}
use tpc_api.Prelude.{nat_eq}
use tpc_api.Prelude.{string_eq}
use tpc_api.Double.Fixed.{fixed}
use tpc_api.Prelude.Int.{ℤ, pos}
use tpc_api.Prelude.UnorderedMap
use tpc_api.Prelude.UnorderedMap.{UnorderedMap, IsMap}
use tpc_api.System.Client.{Client, average, on_subscription_data_received}
use tpc_api.System.Client.Frame.{HasUniqueNames}
use tpc_api.System.Calibration.{calibrate, find, find_in, millivolts_to_gauss, get_frame_request}
use tpc_api.Prelude.UnorderedMap.View.{SameEntries}
use tpc_api.System.Client.Order.{view_of}
use tpc_api.System.Calibration.Order.{get_frame_request-view}
use tpc_api.System.Calibration.Gauss.{get_frame_request-on_subscription_data_received}

abbrev sensors : UnorderedMap ℕ String
sensors = (4, "W1R") ∷ (5, "E1R") ∷ []

abbrev measuring : Client ℕ ℤ
measuring = record {
  channels_info = sensors;
  frame_receiver = record { received = (4, pos 10000) ∷ []; capacity = 2 };
}

sensors-HasUniqueNames : HasUniqueNames sensors
unfolding UnorderedMap.find
sensors-HasUniqueNames n n' name p q =
    ground (arith, string_eq.beq_iff "W1R" "E1R", ==_iff 4 n, ==_iff 5 n, ==_iff 4 n', ==_iff 5 n')

measuring-IsMap : IsMap measuring.frame_receiver.received
unfolding UnorderedMap.contains
measuring-IsMap = (refl, tt)

named_sensor : UnorderedMap.find sensors 4 ≡ some "W1R"
unfolding UnorderedMap.find
named_sensor = refl

sampled_sensor : UnorderedMap.find measuring.frame_receiver.received 4 ≡ some (pos 10000)
unfolding UnorderedMap.find
sampled_sensor = refl

-- 0.569 * (10 - (-25.37)) on three decimals, and a sensor that keeps its value.
calibrated : calibrate "W1R" (pos 10000) ≡ pos 20125
unfolding calibrate find find_in millivolts_to_gauss
calibrated = refl

kept : calibrate "E1R" (pos 10000) ≡ pos 10000
unfolding calibrate find find_in millivolts_to_gauss
kept = refl

get_frame_request-on_subscription_data_received_example :
    ((on_subscription_data_received measuring 4 (pos 2000 ∷ pos 4000 ∷ [])).1 ≡ none)
    × ((frame : UnorderedMap String ℤ) × (get_frame_request
            (on_subscription_data_received measuring 4 (pos 2000 ∷ pos 4000 ∷ [])).0
          ≡ some frame)
        × (UnorderedMap.find frame "W1R"
            ≡ some (calibrate "W1R" (average (pos 2000 ∷ pos 4000 ∷ [])))))
get_frame_request-on_subscription_data_received_example =
    get_frame_request-on_subscription_data_received measuring 4 "W1R" (pos 2000) (pos 4000 ∷ [])
      sensors-HasUniqueNames measuring-IsMap named_sensor (inl (omega arith))

-- The same client, with its maps walked in another order.
abbrev sampled : UnorderedMap ℕ ℤ
sampled = (4, pos 10000) ∷ (5, pos 7000) ∷ []

abbrev resampled : UnorderedMap ℕ ℤ
resampled = (5, pos 7000) ∷ (4, pos 10000) ∷ []

abbrev reordered : UnorderedMap ℕ String
reordered = (5, "E1R") ∷ (4, "W1R") ∷ []

abbrev walked : UnorderedMap ℕ String → UnorderedMap ℕ ℤ → Client ℕ ℤ
walked channels received = record {
  channels_info = channels;
  frame_receiver = record { received = received; capacity = 36 };
}

sampled-IsMap : IsMap sampled × IsMap resampled
unfolding UnorderedMap.contains
sampled-IsMap = ((refl, (refl, tt)), (refl, (refl, tt)))

sensors-SameEntries : SameEntries sensors reordered
unfolding UnorderedMap.find
sensors-SameEntries k = ground (arith, ==_iff 4 k, ==_iff 5 k)

sampled-SameEntries : SameEntries sampled resampled
unfolding UnorderedMap.find
sampled-SameEntries k = ground (arith, ==_iff 4 k, ==_iff 5 k)

get_frame_request-view_example :
    view_of (get_frame_request (walked sensors sampled))
    ≡ view_of (get_frame_request (walked reordered resampled))
get_frame_request-view_example =
    get_frame_request-view (walked sensors sampled) (walked reordered resampled)
      sensors-HasUniqueNames sampled-IsMap.0 sampled-IsMap.1 sensors-SameEntries sampled-SameEntries
