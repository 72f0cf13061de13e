-- ===== src/Analytics/Manager/Slice/Writes.antt =====
-- What the writes of a pixel leave in the buffers of a slice.
use tpc_api.Double.{Double, nought}
use tpc_api.Prelude.{
  ℕ, zero, suc, ◌+◌, ◌*◌, ◌≡◌, refl, sym, ap, ◌∙◌, List, [], ◌∷◌, ◌++◌, arith, length, set,
  replicate, set-append,
}
use mathlib.Core.List.{append-nil}
use tpc_api.Analytics.Models.{Array3, buffer}
use tpc_api.Analytics.FieldCollection.Transform.{length-buffer}
use tpc_api.Analytics.Manager.Slice.{Buffers, set_triple}

buffer-append {ℓ} :
    {W : Type ℓ} (ps qs : List (Array3 W)) → buffer (ps ++ qs) ≡ buffer ps ++ buffer qs
buffer-append [] qs = refl
buffer-append ((a, b, c) ∷ ps) qs = ap (λ l. a ∷ b ∷ c ∷ l) (buffer-append ps qs)

set_triple-append {ℓ} :
    {W : Type ℓ} ⦃d : Double W⦄ (xs rest : List W) (a b c : W) (v : Array3 W)
    → set_triple (xs ++ (a ∷ b ∷ c ∷ rest)) (length xs) v ≡ xs ++ (v.0 ∷ v.1 ∷ v.2 ∷ rest)
set_triple-append [] rest a b c v = refl
set_triple-append (x ∷ xs) rest a b c v =
    let one_on : suc (length xs) + 1 ≡ suc (length xs + 1) = omega arith in
    let two_on : suc (length xs) + 2 ≡ suc (length xs + 2) = omega arith in
    rw (one_on, two_on) (ap (◌∷◌ x) (set_triple-append xs rest a b c v))

-- The pixels of a slice: the field and the flag of each.
abbrev pub Sample {ℓ} : Type ℓ → Type ℓ
Sample W = Array3 W × ℕ

module _ {ℓ} {W : Type ℓ} ⦃d : Double W⦄ where
  abbrev pub zero_vector : Array3 W
  zero_vector = (nought, nought, nought)

  abbrev pub fields_of : List (Sample W) → List (Array3 W)
  fields_of [] = []
  fields_of ((p, flag) ∷ samples) = p ∷ fields_of samples

  abbrev pub flags_of : List (Sample W) → List ℕ
  flags_of [] = []
  flags_of ((p, flag) ∷ samples) = flag ∷ flags_of samples

  -- The buffers once the samples are written, with `left` pixels as they were made.
  abbrev pub written : List (Sample W) → ℕ → Buffers W
  written samples left = (
    buffer (fields_of samples ++ replicate left zero_vector),
    flags_of samples ++ replicate left 0,
  )

  pub written-snoc :
      (samples : List (Sample W)) (s : Sample W) (left : ℕ)
      → written (samples ++ (s ∷ [])) left ≡ (
        buffer (fields_of samples ++ (s.0 ∷ replicate left zero_vector)),
        flags_of samples ++ (s.1 ∷ replicate left 0),
      )
  written-snoc [] s left = refl
  written-snoc ((p, flag) ∷ samples) s left =
      ap (λ (b : Buffers W). (p.0 ∷ p.1 ∷ p.2 ∷ b.0, flag ∷ b.1)) (written-snoc samples s left)

  pub written-all :
      (samples : List (Sample W))
      → written samples 0 ≡ (buffer (fields_of samples), flags_of samples)
  written-all samples = rw (append-nil (fields_of samples), append-nil (flags_of samples))

  length-fields_of : (samples : List (Sample W)) → length (fields_of samples) ≡ length samples
  length-fields_of [] = refl
  length-fields_of ((p, flag) ∷ samples) = ap suc (length-fields_of samples)

  length-flags_of : (samples : List (Sample W)) → length (flags_of samples) ≡ length samples
  length-flags_of [] = refl
  length-flags_of ((p, flag) ∷ samples) = ap suc (length-flags_of samples)

  -- The writes of a pixel, at its index.
  pub write-sample :
      (samples : List (Sample W)) (pixel left : ℕ) (v : Array3 W)
      → length samples ≡ pixel
      → ◌≡◌ {A = Buffers W}
          (
            set_triple
                (buffer (fields_of samples ++ (zero_vector ∷ replicate left zero_vector)))
                (pixel * 3)
                v,
            set (flags_of samples ++ (0 ∷ replicate left 0)) pixel 1,
          )
          (written (samples ++ ((v, 1) ∷ [])) left)
  write-sample samples pixel left v h =
      let zeros = replicate left zero_vector in
      let done = fields_of samples in
      let offset : length (buffer done) ≡ pixel * 3 =
        omega (arith, length-buffer done, length-fields_of samples) in
      let at : length (flags_of samples) ≡ pixel = length-flags_of samples ∙ h in
      let field : set_triple (buffer (done ++ (zero_vector ∷ zeros))) (pixel * 3) v
          ≡ buffer (done ++ (v ∷ zeros)) =
        rw (buffer-append done (zero_vector ∷ zeros), buffer-append done (v ∷ zeros), ← offset)
          (set_triple-append (buffer done) (buffer zeros) nought nought nought v) in
      let flags : set (flags_of samples ++ (0 ∷ replicate left 0)) pixel 1
          ≡ flags_of samples ++ (1 ∷ replicate left 0) =
        rw (← at) (set-append (flags_of samples) 0 (replicate left 0) 1) in
      rw (field, flags) (sym (written-snoc samples (v, 1) left))

  pub buffer-zeros : (n : ℕ) → buffer (replicate n zero_vector) ≡ replicate {A = W} (n * 3) nought
  buffer-zeros zero = refl
  buffer-zeros (suc n) =
      let three_more : suc n * 3 ≡ suc (suc (suc (n * 3))) = omega arith in
      rw three_more (ap (λ l. nought ∷ nought ∷ nought ∷ l) (buffer-zeros n))
