-- ===== src/Utilities/ChunkView.antt =====
-- include/tpc/utilities/chunkview.hpp: `ChunkView<T>`. A pointer into the viewed buffer is its
-- index, and `std::span<T>{current, n}` is the index with the count.
pub mod Tiling
pub mod ForEach
mod Tests
use tpc_api.Prelude.{
  ℕ, zero, suc, ◌+◌, ◌-◌, ◌<◌, min, ◌≡◌, Bool, true, false, ◌&&◌, Option, none, some, List, [], ◌∷◌,
  ◌++◌, arith, ◌==◌, if◌then◌else◌, take, drop, std_exception, Outcome, returned, thrown,
}

pub record Span : Type 0 where
  pub start : ℕ
  pub count : ℕ

pub record ChunkView : Type 0 where
  pub size : ℕ
  pub chunk_size : ℕ

-- The constructor.
pub create : ℕ → ℕ → Outcome ChunkView
create size chunk_size =
    if chunk_size == 0
    then thrown (std_exception "Chunk size must be non-zero")
    else returned (record { size = size; chunk_size = chunk_size })

pub create-pos :
    (size chunk_size : ℕ)
    → 0 < chunk_size
    → create size chunk_size ≡ returned (record { size = size; chunk_size = chunk_size })
unfolding create
create-pos size chunk_size pos = ground arith

-- `ChunkView::Iterator`
pub record Iterator : Type 0 where
  pub current : ℕ
  pub end : ℕ
  pub chunk_size : ℕ

pub dereference : Iterator → Span
dereference it =
    let remaining = it.end - it.current in
    record { start = it.current; count = min remaining it.chunk_size }

pub increment : Iterator → Iterator
increment it = record it { current = it.current + min it.chunk_size (it.end - it.current) }

pub equal : Iterator → Iterator → Bool
equal a b = a.current == b.current && a.end == b.end && a.chunk_size == b.chunk_size

pub begin : ChunkView → Iterator
begin v = record { current = 0; end = v.size; chunk_size = v.chunk_size }

pub finish : ChunkView → Iterator
finish v = record { current = v.size; end = v.size; chunk_size = v.chunk_size }

-- The range-for over a view: `for (it = begin; it != end; ++it)`. `none` is fuel that ran out.
pub walk : ℕ → Iterator → Iterator → Option (List Span)
unfolding dereference increment equal
walk zero it last = none
walk (suc fuel) it last = elim (equal it last) [
  | true ↦ some []
  | false ↦ elim (walk fuel (increment it) last) [
    | none ↦ none
    | some rest ↦ some (dereference it ∷ rest)
  ]
]

-- One step for each element is enough.
pub chunks : ChunkView → Option (List Span)
unfolding walk begin finish
chunks v = walk (v.size + 1) (begin v) (finish v)

-- `std::ranges::for_each(chunks, body)` over the buffer: `body` rewrites the elements of a span, and
-- answers `none` where it reads or writes past them.
module _ {ℓ} {A : Type ℓ} (body : List A → Option (List A)) where
  pub for_each : List Span → List A → Option (List A)
  for_each [] buffer = some buffer
  for_each (s ∷ spans) buffer = elim (body (take s.count (drop s.start buffer))) [
    | none ↦ none
    | some written ↦
        for_each spans (take s.start buffer ++ (written ++ drop (s.start + s.count) buffer))
  ]
