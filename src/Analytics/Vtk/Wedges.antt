-- ===== src/Analytics/Vtk/Wedges.antt =====
-- What a reader of the format finds in the lines of the points and of the cells.

use tpc_api.Prelude.{
  ℕ, zero, suc, ◌+◌, ◌*◌, ◌≡◌, refl, ap, subst, some, List, [], ◌∷◌, ◌++◌, map, arith, length,
  replicate, length-append, length-map,
}
use tpc_api.Prelude.{string_eq}
use mathlib.Core.List.{append_assoc}
use tpc_api.Analytics.Models.{Array3}
use tpc_api.Analytics.Vtk.Points.{CartesianPoint}
use tpc_api.Analytics.Vtk.Document.{
  Numeral, printed, Line, cell_type, point_line, shifted, wedge_line, wedge_lines,
}
use tpc_api.Analytics.Vtk.Reader.{read_triples, read_wedges, read_types}

module _ {ℓ} {W : Type ℓ} where
  -- The points as triples, as they are printed.
  abbrev pub vertices_of : List (CartesianPoint W) → List (Array3 (Numeral W))
  vertices_of [] = []
  vertices_of (p ∷ ps) = (printed p.x, printed p.y, printed p.z) ∷ vertices_of ps

  pub length-vertices_of :
      (points : List (CartesianPoint W)) → length (vertices_of points) ≡ length points
  length-vertices_of [] = refl
  length-vertices_of (p ∷ points) = ap suc (length-vertices_of points)

  pub read_triples-points :
      (points : List (CartesianPoint W)) (rest : List (Line W))
      → read_triples (length points) (map point_line points ++ rest)
        ≡ some (vertices_of points, rest)
  unfolding read_triples
  read_triples-points [] rest = refl
  read_triples-points (p ∷ points) rest = rw (read_triples-points points rest, read_triples)

  pub read_types-replicate :
      (n : ℕ) (rest : List (Line W))
      → read_types n (replicate n (cell_type 13) ++ rest) ≡ some (tt, rest)
  unfolding read_types
  read_types-replicate zero rest = refl
  read_types-replicate (suc n) rest = read_types-replicate n rest

-- One wedge for each triangle and each layer but the last, between the layer and the next one.
abbrev pub wedge_at : ℕ → ℕ → Array3 ℕ → Array3 ℕ × Array3 ℕ
wedge_at points_per_layer layer triangle = (
  shifted (layer * points_per_layer) triangle,
  shifted (layer * points_per_layer + points_per_layer) triangle,
)

abbrev pub wedges : ℕ → List (Array3 ℕ) → ℕ → ℕ → List (Array3 ℕ × Array3 ℕ)
wedges points_per_layer triangles zero layer = []
wedges points_per_layer triangles (suc rounds) layer =
    map (wedge_at points_per_layer layer) triangles
    ++ wedges points_per_layer triangles rounds (suc layer)

pub length-wedges :
    (points_per_layer : ℕ) (triangles : List (Array3 ℕ)) (rounds layer : ℕ)
    → length (wedges points_per_layer triangles rounds layer) ≡ length triangles * rounds
length-wedges n triangles zero layer = omega arith
length-wedges n triangles (suc rounds) layer = grind (
  arith,
  length-wedges n triangles rounds (suc layer),
  length-append (map (wedge_at n layer) triangles) (wedges n triangles rounds (suc layer)),
  length-map (wedge_at n layer) triangles,
)

module _ {ℓ} {W : Type ℓ} where
  read_wedges-layer :
      (n layer : ℕ) (triangles : List (Array3 ℕ)) (m : ℕ) (lines rest : List (Line W))
      (found : List (Array3 ℕ × Array3 ℕ))
      → read_wedges m lines ≡ some (found, rest)
      → read_wedges (length triangles + m) (map (wedge_line n layer) triangles ++ lines)
        ≡ some (map (wedge_at n layer) triangles ++ found, rest)
  unfolding read_wedges
  read_wedges-layer n layer [] m lines rest found h =
      subst (λ k. read_wedges k lines ≡ some (found, rest)) (omega arith) h
  read_wedges-layer n layer (t ∷ triangles) m lines rest found h =
      let one_more : suc (length triangles + m) ≡ suc (length triangles) + m = omega arith in
      subst
        (λ k.
          read_wedges k (map (wedge_line n layer) (t ∷ triangles) ++ lines)
          ≡ some (map (wedge_at n layer) (t ∷ triangles) ++ found, rest))
        one_more (rw (read_wedges-layer n layer triangles m lines rest found h, read_wedges))

  pub read_wedges-wedge_lines :
      (n : ℕ) (triangles : List (Array3 ℕ)) (rounds layer : ℕ) (rest : List (Line W))
      → read_wedges (length triangles * rounds) (wedge_lines n triangles rounds layer ++ rest)
        ≡ some (wedges n triangles rounds layer, rest)
  unfolding wedge_lines read_wedges
  read_wedges-wedge_lines n triangles zero layer rest =
      let none_left : 0 ≡ length triangles * 0 = omega arith in
      subst (λ k. read_wedges k rest ≡ some ([], rest)) none_left refl
  read_wedges-wedge_lines n triangles (suc rounds) layer rest =
      let later = read_wedges-wedge_lines n triangles rounds (suc layer) rest in
      let one_layer : length triangles + length triangles * rounds ≡ length triangles * suc rounds =
        grind arith in
      let here = read_wedges-layer n layer triangles (length triangles * rounds) _ rest _ later in
      subst
        (λ k.
          read_wedges k (wedge_lines n triangles (suc rounds) layer ++ rest)
          ≡ some (wedges n triangles (suc rounds) layer, rest))
        one_layer
        (rw
          (append_assoc (map (wedge_line n layer) triangles)
            (wedge_lines n triangles rounds (suc layer)) rest)
          here)
