-- ===== src/Analytics/FieldCollection/Tests.antt =====
-- Field collections at concrete inputs, over numbers with three decimals.

use tpc_api.Prelude.{◌≡◌, refl, List, [], ◌∷◌, map, returned}
use tpc_api.Prelude.Int.{ℤ, pos}
use tpc_api.Double.Fixed.{fixed}
use tpc_api.Analytics.Models.{cartesian, cylindric, Array3, PointComponents, buffer, to_type}
use tpc_api.Analytics.FieldCollection.{transform_coordinates, transform_field}
use tpc_api.Analytics.FieldCollection.Transform.{
  transform_coordinates-buffer, transform_field-buffer, rotate_all,
}

-- Two points, at angles of none and of one quarter turn.
abbrev polar : List (Array3 ℤ)
polar = (pos 2000, pos 0, pos 500) ∷ (pos 3000, pos 1000, pos 500) ∷ []

abbrev values : List (Array3 ℤ)
values = (pos 5000, pos 6000, pos 7000) ∷ (pos 5000, pos 6000, pos 7000) ∷ []

quarter_turn :
    map (to_type cartesian) polar ≡ (pos 2000, pos 0, pos 500) ∷ (pos 0, pos 3000, pos 500) ∷ []
quarter_turn = refl

transform_coordinates-buffer_example :
    transform_coordinates
      (record {
        dimension_ = 3;
        coordinates_type = cylindric;
        field_type = cylindric;
        coordinates = buffer polar;
        field = [];
      })
      cartesian
    ≡ returned (record {
      dimension_ = 3;
      coordinates_type = cartesian;
      field_type = cylindric;
      coordinates = buffer (map (to_type cartesian) polar);
      field = [];
    })
transform_coordinates-buffer_example =
    transform_coordinates-buffer {W = ℤ} cylindric cartesian cylindric (pos 2000, pos 0, pos 500)
      ((pos 3000, pos 1000, pos 500) ∷ []) [] refl

transform_field-buffer_example :
    transform_field
      (record {
        dimension_ = 3;
        coordinates_type = cylindric;
        field_type = cylindric;
        coordinates = buffer polar;
        field = buffer values;
      })
      cartesian
    ≡ returned (record {
      dimension_ = 3;
      coordinates_type = cylindric;
      field_type = cartesian;
      coordinates = buffer polar;
      field = buffer (rotate_all polar values);
    })
transform_field-buffer_example =
    transform_field-buffer {W = ℤ} polar ((pos 5000, pos 6000, pos 7000) ∷ [])
      (pos 5000, pos 6000, pos 7000) refl

abbrev corner : PointComponents ℤ
corner = record { components = (pos 0, pos 3000, pos 1000); coordinate_type = cartesian }
