-- ===== src/Utilities/ChunkView/Tests.antt =====
-- Chunks of concrete buffers.
use tpc_api.Prelude.{◌≡◌, refl, some, List, [], ◌∷◌, arith}
use tpc_api.Utilities.ChunkView.{Span, ChunkView, chunks}
use tpc_api.Utilities.ChunkView.Tiling.{Tiles, chunks-Tiles}

abbrev seven_by_three : ChunkView
seven_by_three = record { size = 7; chunk_size = 3 }

last_is_short :
    chunks seven_by_three
    ≡ some (
        record { start = 0; count = 3 }
        ∷ record { start = 3; count = 3 }
        ∷ record { start = 6; count = 1 }
        ∷ [])
unfolding chunks
last_is_short = refl

chunks-Tiles_example : (ss : List Span) × (chunks seven_by_three ≡ some ss) × Tiles 3 0 7 ss
chunks-Tiles_example = chunks-Tiles seven_by_three (omega arith)
