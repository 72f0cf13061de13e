-- ===== src/Analytics/Manager/Slice/Tests.antt =====
-- A slice of two by three pixels.
use tpc_api.Prelude.{ℕ, ◌≡◌, refl, false, none, List, [], ◌∷◌, arith, returned}
use tpc_api.Prelude.Int.{ℤ, pos}
use tpc_api.Double.Fixed.{fixed}
use tpc_api.Analytics.Models.{cylindric, along_z, buffer}
use tpc_api.Analytics.Manager.Field.{ready}
use tpc_api.Analytics.Manager.Slice.{frame_of, evaluate_field_slice}
use tpc_api.Analytics.Manager.Slice.Writes.{fields_of, flags_of}
use tpc_api.Analytics.Manager.Slice.Samples.{all_samples, evaluate_field_slice_lem}

abbrev first_mode : ℕ → ℤ → ℤ → ℤ → ℤ
first_mode k r phi z = fixed.add r (fixed.of_size k)

abbrev second_mode : ℕ → ℤ → ℤ → ℤ → ℤ
second_mode k r phi z = phi

abbrev third_mode : ℕ → ℤ → ℤ → ℤ → ℤ
third_mode k r phi z = z

abbrev weights : List ℤ
weights = pos 1000 ∷ pos 2000 ∷ []

-- The corners lie outside the circle of radius 2, and the middle of the two long sides on it.
corners_outside :
    flags_of (
      all_samples first_mode second_mode third_mode cylindric 2 weights refl none false
        (frame_of
          (ready first_mode second_mode third_mode cylindric 2 weights none false)
          along_z
          (pos 500)
          (2, 3)
          (pos 2000)
          (pos 1000))
        0
        3)
    ≡ 0 ∷ 0 ∷ 1 ∷ 1 ∷ 0 ∷ 0 ∷ []
corners_outside = refl

evaluate_field_slice_lem_example :
    let s =
      frame_of
        (ready first_mode second_mode third_mode cylindric 2 weights none false)
        along_z
        (pos 500)
        (2, 3)
        (pos 2000)
        (pos 1000) in
    let samples =
      all_samples first_mode second_mode third_mode cylindric 2 weights refl none false s 0 3 in
    evaluate_field_slice
      (ready first_mode second_mode third_mode cylindric 2 weights none false)
      along_z
      (pos 500)
      (2, 3)
      (pos 2000)
      (pos 2000)
      (λ row. false)
    ≡ returned (record {
      direction = along_z;
      coordinate = pos 500;
      grid = (2, 3);
      horizontal_bounds = s.horizontal_bounds;
      vertical_bounds = s.vertical_bounds;
      field = buffer (fields_of samples);
      valid = flags_of samples;
    })
evaluate_field_slice_lem_example =
    evaluate_field_slice_lem {W = ℤ} first_mode second_mode third_mode cylindric 2 weights refl none
      false along_z (pos 500) 2 3 (pos 2000) (pos 2000) (λ row. false) (omega arith) (omega arith)
      refl refl refl (omega arith) (omega arith) (λ row. refl)
