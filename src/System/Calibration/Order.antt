-- ===== src/System/Calibration/Order.antt =====
-- That a frame in gauss does not hang on the order in which the maps are walked.
use tpc_api.Prelude.{String, ◌≡◌, refl, sym, ap, ◌∙◌, Option, none, some, Eq}
use tpc_api.Prelude.{string_eq}
use tpc_api.Double.{Double}
use tpc_api.Prelude.UnorderedMap.{UnorderedMap, IsMap}
use tpc_api.Prelude.UnorderedMap.View.{SameEntries, View, view}
use tpc_api.System.Client
use tpc_api.System.Client.{Client}
use tpc_api.System.Client.Frame.{HasUniqueNames}
use tpc_api.System.Client.Order.{view_of, get_frame-view}
use tpc_api.System.Calibration.{calibrate, calibrate_all, get_frame_request}
use tpc_api.System.Calibration.Gauss.{calibrated-find}
use mathlib.Core.Quot
use mathlib.Core.Quot.{Quot-set}

module _ {ℓ} {W : Type ℓ} ⦃d : Double W⦄ where
  calibrate_all-SameEntries :
      (m m' : UnorderedMap String W)
      → SameEntries m m'
      → SameEntries (calibrate_all m) (calibrate_all m')
  calibrate_all-SameEntries m m' same name =
      calibrated-find m name
      ∙ ap (λ o. elim o [ none ↦ none | some value ↦ some (calibrate name value) ]) (same name)
      ∙ sym (calibrated-find m' name)

  -- Calibration of a frame as its users see it.
  abbrev calibrate_view : View String W → View String W
  calibrate_view =
      Quot.lift Quot-set (λ m. view (calibrate_all m))
        (λ m m' same. Quot.sound (calibrate_all-SameEntries m m' same))

  abbrev calibrate_views : Option (View String W) → Option (View String W)
  calibrate_views none = none
  calibrate_views (some frame) = some (calibrate_view frame)

module _ {ℓ κ} {N : Type ℓ} {W : Type κ} ⦃e : Eq N⦄ ⦃d : Double W⦄ where
  get_frame_request-calibrate_views :
      (c : Client N W) (o : Option (UnorderedMap String W))
      → Client.get_frame c ≡ o
      → view_of (get_frame_request c) ≡ calibrate_views (view_of o)
  unfolding get_frame_request
  get_frame_request-calibrate_views c none got = rw (got, get_frame_request)
  get_frame_request-calibrate_views c (some frame) got = rw (got, get_frame_request)

  -- Two clients whose channels have the same names, no two of them the same, and that have the same
  -- samples, give the same frame, as a map that is read by name, or both give none: in whatever
  -- order their maps of channels and of samples are walked.
  pub get_frame_request-view :
      (c c' : Client N W)
      → HasUniqueNames c.channels_info
      → IsMap c.frame_receiver.received
      → IsMap c'.frame_receiver.received
      → SameEntries c.channels_info c'.channels_info
      → SameEntries c.frame_receiver.received c'.frame_receiver.received
      → view_of (get_frame_request c) ≡ view_of (get_frame_request c')
  get_frame_request-view c c' unique h h' same same_values =
      get_frame_request-calibrate_views c (Client.get_frame c) refl
      ∙ ap calibrate_views (get_frame-view c c' unique h h' same same_values)
      ∙ sym (get_frame_request-calibrate_views c' (Client.get_frame c') refl)
