-- ===== src/Utilities/ChunkView/ForEach.antt =====
-- `std::ranges::for_each` over whole chunks is a map over the buffer cut into chunks.
use tpc_api.Prelude.{
  ℕ, suc, ◌+◌, ◌≡◌, refl, ap, ◌∙◌, Option, some, List, [], ◌∷◌, ◌++◌, map, arith, length, take,
  drop, All, length-append,
}
use mathlib.Core.List.{append_assoc}
use tpc_api.Utilities.ChunkView.{Span, for_each}
use tpc_api.Utilities.ChunkView.Tiling.{regular}

-- The chunks, one after the other.
abbrev pub join {ℓ} : {A : Type ℓ} → List (List A) → List A
join [] = []
join (g ∷ gs) = g ++ join gs

take-append {ℓ} : {A : Type ℓ} (xs ys : List A) → take (length xs) (xs ++ ys) ≡ xs
take-append [] ys = refl
take-append (x ∷ xs) ys = ap (◌∷◌ x) (take-append xs ys)

drop-append {ℓ} : {A : Type ℓ} (xs ys : List A) → drop (length xs) (xs ++ ys) ≡ ys
drop-append [] ys = refl
drop-append (x ∷ xs) ys = drop-append xs ys

drop-append_add {ℓ} :
    {A : Type ℓ} (n : ℕ) (xs ys : List A) → drop (length xs + n) (xs ++ ys) ≡ drop n ys
drop-append_add n [] ys = ap (λ k. drop k ys) (omega arith)
drop-append_add n (x ∷ xs) ys =
    let e : suc (length xs) + n ≡ suc (length xs + n) = omega arith in
    rw e (drop-append_add n xs ys)

for_each-cons {ℓ} :
    {A : Type ℓ} (body : List A → Option (List A)) (at count : ℕ) (ss : List Span)
    (buffer written : List A)
    → body (take count (drop at buffer)) ≡ some written
    → for_each body (record { start = at; count = count } ∷ ss) buffer
      ≡ for_each body ss (take at buffer ++ (written ++ drop (at + count) buffer))
unfolding for_each
for_each-cons body at count ss buffer written e = rw (e, for_each)

-- The parts of a buffer around the chunk that stands behind `done`.
around {ℓ} :
    {A : Type ℓ} (done g rest : List A)
    → (take (length g) (drop (length done) (done ++ (g ++ rest))) ≡ g)
      × (take (length done) (done ++ (g ++ rest)) ≡ done)
      × (drop (length done + length g) (done ++ (g ++ rest)) ≡ rest)
around done g rest = (
  rw (drop-append done (g ++ rest)) (take-append g rest),
  take-append done (g ++ rest),
  rw (drop-append_add (length g) done (g ++ rest)) (drop-append g rest),
)

module _ {ℓ} {A : Type ℓ} (body : List A → Option (List A)) (turn : List A → List A)
    (chunk : ℕ) where
  -- On a chunk of full size the body answers `turn`, and keeps the size.
  abbrev pub Turns : Type ℓ
  Turns = (g : List A) → length g ≡ chunk → (body g ≡ some (turn g)) × (length (turn g) ≡ chunk)

  -- The loop turns the chunks one by one, whatever stands before them in the buffer.
  pub for_each-regular :
      (done : List A) (gs : List (List A))
      → Turns
      → All (λ g. length g ≡ chunk) gs
      → for_each body (regular chunk (length done) (length gs)) (done ++ join gs)
        ≡ some (done ++ join (map turn gs))
  unfolding for_each
  for_each-regular done [] whole sizes = refl
  for_each-regular done (g ∷ gs) whole (size, sizes) =
      let (turned, same) = whole g size in
      let (middle, left, right) = around done g (join gs) in
      let spans = regular chunk (length done + chunk) (length gs) in
      let first : body (take chunk (drop (length done) (done ++ (g ++ join gs)))) ≡ some (turn g) =
        rw (← size, middle) turned in
      let next : length (done ++ turn g) ≡ length done + chunk =
        length-append done (turn g) ∙ ap (λ k. length done + k) same in
      for_each-cons body (length done) chunk spans (done ++ (g ++ join gs)) (turn g) first
      ∙ rw (left, ← size, right, size, ← append_assoc done (turn g) (join gs), ← next)
          (for_each-regular (done ++ turn g) gs whole sizes
            ∙ ap some (append_assoc done (turn g) (join (map turn gs))))
