-- ===== src/System/Calibration.antt =====
-- include/tpc/system/models/data.hpp and src/system/tpc.cpp: the calibration of the Hall sensors,
-- and the frame in gauss that `TPC::get_frame_request` gives.
pub mod Gauss
pub mod Order
pub mod Bounds
mod Tests
use tpc_api.Double.{Double, ◌⊖◌, ◌⊗◌}
use tpc_api.Prelude.{String, Option, none, some, List, [], ◌∷◌, if◌then◌else◌, Eq}
use tpc_api.Prelude.{string_eq}
use tpc_api.Prelude.UnorderedMap.{UnorderedMap}
use tpc_api.System.Client
use tpc_api.System.Client.{Client}

pub record HallCalibration {ℓ} (W : Type ℓ) : Type ℓ where
  pub k : W
  pub v0_mv : W

module _ {ℓ} {W : Type ℓ} ⦃d : Double W⦄ where
  abbrev pub calibrations : List (String × HallCalibration W)
  calibrations =
      ("W1R", record { k = d.decimal 569788 6; v0_mv = d.neg (d.decimal 2537 2) })
      ∷ ("W1F", record { k = d.decimal 747579 6; v0_mv = d.decimal 1046 2 })
      ∷ ("W1Z", record { k = d.decimal 751044 6; v0_mv = d.neg (d.decimal 322 2) })
      ∷ []

  unfoldable pub find_in : List (String × HallCalibration W) → String → Option (HallCalibration W)
  find_in [] name = none
  find_in ((entry_name, calibration) ∷ entries) name =
      if string_eq.beq entry_name name then some calibration else find_in entries name

  unfoldable pub find : String → Option (HallCalibration W)
  unfolding find_in
  find name = find_in calibrations name

  unfoldable pub millivolts_to_gauss : W → HallCalibration W → W
  millivolts_to_gauss voltage_mv calibration = calibration.k ⊗ (voltage_mv ⊖ calibration.v0_mv)

  -- A sensor without a calibration keeps its value.
  unfoldable pub calibrate : String → W → W
  unfolding find millivolts_to_gauss
  calibrate sensor_name value = elim (find sensor_name) [
    | none ↦ value
    | some calibration ↦ millivolts_to_gauss value calibration
  ]

  pub calibrate_all : UnorderedMap String W → UnorderedMap String W
  unfolding calibrate
  calibrate_all [] = []
  calibrate_all ((sensor_name, value) ∷ frame) =
      (sensor_name, calibrate sensor_name value) ∷ calibrate_all frame

  pub get_frame_request {κ} : {N : Type κ} ⦃e : Eq N⦄ → Client N W → Option (UnorderedMap String W)
  unfolding calibrate_all
  get_frame_request client = elim (Client.get_frame client) [
    | none ↦ none
    | some frame ↦ some (calibrate_all frame)
  ]
