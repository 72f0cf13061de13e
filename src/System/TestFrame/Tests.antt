-- ===== src/System/TestFrame/Tests.antt =====
-- The third sensor of the base W, with the digits of the numbers up to 6.
use tpc_api.Prelude.{◌≡◌, refl, inr, arith, length}
use tpc_api.Prelude.{string_eq}
use tpc_api.Double.Fixed.{fixed}
use tpc_api.Prelude.Int.{ℤ}
use tpc_api.Prelude.UnorderedMap.{IsMap}
use tpc_api.System.TestFrame.{create_test_frame}
use tpc_api.System.TestFrame.Names.{digit, HasSensor, create_test_frame_lem}

create_test_frame_lem_example :
    (length (create_test_frame {W = ℤ} digit) ≡ 36)
    × IsMap (create_test_frame {W = ℤ} digit)
    × HasSensor {W = ℤ} (create_test_frame digit) digit "W" 2
create_test_frame_lem_example = create_test_frame_lem digit "W" 2 (inr refl) (ground arith) refl
