-- ===== src/Common/Buffers.antt =====
-- Node's `Buffer.concat` with a total length.
use Prim.Native.Nat.{ℕ, zero, suc, ◌-◌}
use mathlib.Core.Path.{◌≡◌}
use mathlib.Core.List.{List, [], ◌∷◌, ◌++◌, append-nil}
use native.Mathlib.Omega.{arith}
use ferricstore_typescript.Common.Lists.{length, concat, take, take_all}

abbrev pub zeros : ℕ → List ℕ
zeros zero = []
zeros (suc n) = 0 ∷ zeros n

-- `Buffer.concat(chunks, total)`: cut to the total, or filled up with zeros.
unfoldable pub buffer_concat : List (List ℕ) → ℕ → List ℕ
buffer_concat chunks total =
    let whole = concat chunks in take total whole ++ zeros (total - length whole)

pub buffer_concat_exact :
    (chunks : List (List ℕ)) (total : ℕ)
    → length (concat chunks) ≡ total
    → buffer_concat chunks total ≡ concat chunks
unfolding buffer_concat
buffer_concat_exact chunks total e =
    let z : total - length (concat chunks) ≡ 0 = omega arith in
    rw (z, append-nil) (take_all total (concat chunks) (omega arith))
