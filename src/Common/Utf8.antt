-- ===== src/Common/Utf8.antt =====
-- UTF-8 as `Buffer.from` of node writes a string, from its UTF-16 code units, as the standards
-- describe the two: U+FFFD stands for a surrogate without its partner.
use Prim.Native.Nat.{ℕ, ◌+◌, ◌*◌, ◌/◌, ◌%◌, bit_and, bit_or}
use mathlib.Core.Bool.{Bool, ◌&&◌}
use mathlib.Core.List.{List, [], ◌∷◌, ◌++◌}
use ferricstore_typescript.Common.Tests.{ltb, ◌==◌, if◌then◌else◌}

-- D800 to DBFF, the units whose upper six bits are 110110.
unfoldable pub is_lead : ℕ → Bool
is_lead unit = unit / 1024 == 54

-- DC00 to DFFF, the units whose upper six bits are 110111.
unfoldable pub is_trail : ℕ → Bool
is_trail unit = unit / 1024 == 55

-- A pair holds the upper and the lower ten bits of a point, less 10000.
unfoldable pub paired_point : ℕ → ℕ → ℕ
paired_point lead trail = 65536 + (lead % 1024) * 1024 + trail % 1024

-- D800 to DFFF, the units whose upper five bits are 11011, are no points.
unfoldable pub single_point : ℕ → ℕ
single_point unit = if unit / 2048 == 27 then 65533 else unit

unfoldable pub points : List ℕ → List ℕ
points [] = []
points (unit ∷ []) = single_point unit ∷ []
points (unit ∷ next ∷ units) =
    let rest = points units in
    let others = points (next ∷ units) in
    if is_lead unit && is_trail next
    then paired_point unit next ∷ rest
    else single_point unit ∷ others

-- Six bits of a point in each byte behind the first.
unfoldable pub point_bytes : ℕ → List ℕ
point_bytes point =
    if ltb point 128
    then point ∷ []
    else if ltb point 2048
    then bit_or 192 (point / 64) ∷ bit_or 128 (bit_and point 63) ∷ []
    else if ltb point 65536
    then bit_or 224 (point / 4096)
      ∷ bit_or 128 (bit_and (point / 64) 63)
      ∷ bit_or 128 (bit_and point 63)
      ∷ []
    else bit_or 240 (point / 262144)
      ∷ bit_or 128 (bit_and (point / 4096) 63)
      ∷ bit_or 128 (bit_and (point / 64) 63)
      ∷ bit_or 128 (bit_and point 63)
      ∷ []

unfoldable pub utf8_points : List ℕ → List ℕ
utf8_points [] = []
utf8_points (point ∷ ps) = point_bytes point ++ utf8_points ps

abbrev pub utf8 : List ℕ → List ℕ
utf8 text = utf8_points (points text)
