-- ===== src/Utilities/ChunkView/Tiling.antt =====
-- The chunks tile the buffer.
use tpc_api.Prelude.{
  ℕ, zero, suc, ◌+◌, ◌-◌, ◌*◌, ◌≤◌, ◌<◌, min, ◌≡◌, refl, ap, ◌∙◌, subst, ◌⊎◌, inl, inr, some, List,
  [], ◌∷◌, arith, ◌==◌, ==_iff, Bool-cases,
}
use native.Mathlib.Decide.{dec_le}
use tpc_api.Utilities.ChunkView.{Span, ChunkView, walk, chunks}

-- The spans follow one another from `at` to `stop`; none is empty or longer than the chunk size,
-- and only the last may be shorter.
abbrev pub Tiles : ℕ → ℕ → ℕ → List Span → Type 0
Tiles chunk at stop [] = at ≡ stop
Tiles chunk at stop (s ∷ ss) =
    (s.start ≡ at)
    × (0 < s.count)
    × (s.count ≤ chunk)
    × ((s.count ≡ chunk) ⊎ (ss ≡ []))
    × Tiles chunk (at + s.count) stop ss

Tiles-le : (c at end : ℕ) (l : List Span) → Tiles c at end l → at ≤ end
Tiles-le c at end [] e = omega arith
Tiles-le c at end (x ∷ l) e = omega (arith, Tiles-le c (at + x.count) end l e.4)

Tiles-end : (chunk stop : ℕ) (ss : List Span) → Tiles chunk stop stop ss → ss ≡ []
Tiles-end chunk stop [] t = refl
Tiles-end chunk stop (s ∷ ss) t =
    absurd (omega (arith, Tiles-le chunk (stop + s.count) stop ss t.4))

-- In a tiling of at least one whole chunk the first span is a whole one.
Tiles-full :
    (n chunk at stop : ℕ) (s : Span) (ss : List Span)
    → 0 < chunk
    → stop ≡ at + suc n * chunk
    → s.count ≤ chunk
    → (s.count ≡ chunk) ⊎ (ss ≡ [])
    → Tiles chunk (at + s.count) stop ss
    → s.count ≡ chunk
Tiles-full n chunk at stop s ss pos e le (inl full) t = full
Tiles-full n chunk at stop s ss pos e le (inr last) t =
    let reached : at + s.count ≡ stop = subst (λ l. Tiles chunk (at + s.count) stop l) last t in
    grind arith

-- The span that an iterator at `at` stands for, before a tiling of what is left.
dereference-Tiles :
    (at size chunk : ℕ) (ss : List Span)
    → 0 < chunk
    → at < size
    → Tiles chunk (at + min chunk (size - at)) size ss
    → Tiles chunk at size (record { start = at; count = min (size - at) chunk } ∷ ss)
dereference-Tiles at size chunk ss pos lt t =
    let same : min chunk (size - at) ≡ min (size - at) chunk = omega arith in
    (
      refl,
      omega arith,
      omega arith,
      elim (dec_le (size - at) chunk) [
        | yes short ↦
            let reached : at + min chunk (size - at) ≡ size = omega arith in
            inr (Tiles-end chunk size ss (subst (λ k. Tiles chunk k size ss) reached t))
        | no long ↦ inl (omega arith)
      ],
      subst (λ k. Tiles chunk (at + k) size ss) same t,
    )

walk-Tiles :
    (fuel at size chunk : ℕ)
    → 0 < chunk
    → at ≤ size
    → size - at < fuel
    → (ss : List Span) × (walk fuel
          (record { current = at; end = size; chunk_size = chunk })
          (record { current = size; end = size; chunk_size = chunk })
        ≡ some ss)
      × Tiles chunk at size ss
unfolding walk
walk-Tiles zero at size chunk pos le enough = absurd (omega arith)
walk-Tiles (suc fuel) at size chunk pos le enough = elim (Bool-cases (at == size)) [
  | inl done ↦ ([], ground arith, (==_iff at size).0 done)
  | inr more ↦
      let lt : at < size = ground arith in
      let (ss, e, t) =
        walk-Tiles fuel (at + min chunk (size - at)) size chunk pos (omega arith) (omega arith) in
      (
        record { start = at; count = min (size - at) chunk } ∷ ss,
        ground (arith, e),
        dereference-Tiles at size chunk ss pos lt t,
      )
]

-- The walk over a view whose chunk size is not 0 ends, and its chunks tile the buffer: they follow
-- one another from the first element to the last, none is empty, and all have the chunk size but
-- the last, which may be shorter.
pub chunks-Tiles :
    (v : ChunkView)
    → 0 < v.chunk_size
    → (ss : List Span) × (chunks v ≡ some ss) × Tiles v.chunk_size 0 v.size ss
unfolding chunks
chunks-Tiles v pos = walk-Tiles (v.size + 1) 0 v.size v.chunk_size pos (omega arith) (omega arith)

-- `n` chunks of full size, from `at` on.
abbrev pub regular : ℕ → ℕ → ℕ → List Span
regular chunk at zero = []
regular chunk at (suc n) = record { start = at; count = chunk } ∷ regular chunk (at + chunk) n

Tiles-regular :
    (n chunk at stop : ℕ) (ss : List Span)
    → 0 < chunk
    → stop ≡ at + n * chunk
    → Tiles chunk at stop ss
    → ss ≡ regular chunk at n
Tiles-regular zero chunk at stop ss pos e t =
    Tiles-end chunk stop ss (subst (λ k. Tiles chunk k stop ss) (omega arith) t)
Tiles-regular (suc n) chunk at stop [] pos e t = absurd (grind arith)
Tiles-regular (suc n) chunk at stop (s ∷ ss) pos e (start, some_left, le, full, t) =
    let count : s.count ≡ chunk = Tiles-full n chunk at stop s ss pos e le full t in
    let rest : stop ≡ at + chunk + n * chunk = grind arith in
    ground (
      arith,
      start,
      count,
      Tiles-regular n chunk (at + chunk) stop ss pos rest
          (subst (λ k. Tiles chunk (at + k) stop ss) count t),
    )

-- A buffer of n * chunk elements is cut into n chunks of full size.
pub chunks-regular :
    (n chunk : ℕ)
    → 0 < chunk
    → chunks (record { size = n * chunk; chunk_size = chunk }) ≡ some (regular chunk 0 n)
chunks-regular n chunk pos =
    let (ss, e, t) = chunks-Tiles (record { size = n * chunk; chunk_size = chunk }) pos in
    e ∙ ap some (Tiles-regular n chunk 0 (n * chunk) ss pos (omega arith) t)
