-- ===== src/System/Calibration/Bounds.antt =====
-- How large a frame in gauss is.
use tpc_api.Prelude.{
  ℕ, ◌-◌, String, ◌≡◌, refl, ◌∙◌, subst, Option, none, some, [], ◌∷◌, arith, Eq, length,
}
use tpc_api.Prelude.{string_eq}
use tpc_api.Double.{Double}
use tpc_api.Prelude.UnorderedMap
use tpc_api.Prelude.UnorderedMap.{UnorderedMap}
use tpc_api.System.Client
use tpc_api.System.Client.{Client}
use tpc_api.System.Client.Bounds.{IsFrame, client-IsFrame}
use tpc_api.System.Calibration.{calibrate_all, get_frame_request}

module _ {ℓ} {W : Type ℓ} ⦃d : Double W⦄ where
  contains-calibrate_all :
      (frame : UnorderedMap String W) (name : String)
      → UnorderedMap.contains (calibrate_all frame) name ≡ UnorderedMap.contains frame name
  unfolding calibrate_all UnorderedMap.contains
  contains-calibrate_all [] name = refl
  contains-calibrate_all ((j, v) ∷ frame) name = rw (contains-calibrate_all frame name)

  calibrate_all-IsFrame :
      (frame : UnorderedMap String W) (n : ℕ) → IsFrame n frame → IsFrame n (calibrate_all frame)
  unfolding calibrate_all
  calibrate_all-IsFrame [] n h = h
  calibrate_all-IsFrame ((j, v) ∷ frame) n ((fresh, h), few) =
      let (h', few') = calibrate_all-IsFrame frame (n - 1) (h, omega arith) in
      ((contains-calibrate_all frame j ∙ fresh, h'), omega arith)

module _ {ℓ κ} {N : Type ℓ} {W : Type κ} ⦃e : Eq N⦄ ⦃d : Double W⦄ where
  requested-IsFrame :
      (c : Client N W) (o : Option (UnorderedMap String W)) (frame : UnorderedMap String W)
      → Client.get_frame c ≡ o
      → get_frame_request c ≡ some frame
      → IsFrame (length c.frame_receiver.received) frame
  unfolding get_frame_request
  requested-IsFrame c none frame named got = cc
  requested-IsFrame c (some gathered) frame named got =
      let same : calibrate_all gathered ≡ frame = cc in
      subst (IsFrame (length c.frame_receiver.received)) same
        (calibrate_all-IsFrame gathered _ (client-IsFrame c gathered named))

  -- A frame in gauss has no more names than there are samples.
  pub get_frame_request-IsFrame :
      (c : Client N W) (frame : UnorderedMap String W)
      → get_frame_request c ≡ some frame
      → IsFrame (length c.frame_receiver.received) frame
  get_frame_request-IsFrame c frame got = requested-IsFrame c (Client.get_frame c) frame refl got
