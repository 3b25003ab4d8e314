-- ===== src/Native/ChunkAssembler/Runs.antt =====
-- Concrete runs of the chunk assembler, and its theorems at concrete inputs.
use mathlib.Core.Path.{◌≡◌, refl}
use mathlib.Core.Option.{none}
use mathlib.Core.List.{List, [], ◌∷◌}
use native.Mathlib.Omega.{arith}
use native.Mathlib.Decide.{ℕ_discrete}
use Prim.Native.Nat.{ℕ, ◌+◌}
use ferricstore_typescript.Common.Maps.{get}
use ferricstore_typescript.Common.Results.{ok, err}
use ferricstore_typescript.Protocol.Frame.{ResponseFrame}
use ferricstore_typescript.Native.ChunkAssembler.{
  Key, key, note_key, Assembler, Key-discrete, init, assemble, discard_request, store_chunk,
  assert_limits, is_absent, chunked_bytes,
}
use ferricstore_typescript.Native.ChunkAssembler.Invariant.{Inv, init-Inv, assemble-Inv}
use ferricstore_typescript.Native.ChunkAssembler.Messages.{feed, feed_whole, joined}
use ferricstore_typescript.Native.ChunkAssembler.Discard.{held_without, discard_request_accounts}

abbrev chunk : ℕ → List ℕ → ResponseFrame
chunk flags body = record {
  body = body;
  body_length = 2;
  flags = flags;
  lane_id = 1;
  opcode = 257;
  request_id = 9;
}

abbrev start : Assembler
start = init 100 8 64

too_long : assemble (init 1 8 64) (chunk 32 (5 ∷ 6 ∷ [])) ≡ err (chunked_bytes 1)
unfolding assemble Key-discrete assert_limits is_absent
too_long = refl

abbrev one_held : Assembler
one_held = store_chunk start (chunk 32 (5 ∷ 6 ∷ [])) 2 1 none

held : assemble start (chunk 32 (5 ∷ 6 ∷ [])) ≡ ok (one_held, none)
unfolding assemble Key-discrete assert_limits is_absent
held = refl

assemble-Inv_example : Inv one_held
assemble-Inv_example =
    assemble-Inv start (chunk 32 (5 ∷ 6 ∷ [])) one_held none (init-Inv 100 8 64) held

feed_whole_example :
    (s' : Assembler) × (feed start
        (chunk 32 (5 ∷ 6 ∷ []) ∷ chunk 32 (7 ∷ []) ∷ chunk 0 (8 ∷ []) ∷ [])
      ≡ ok (s', joined (chunk 0 (8 ∷ [])) (5 ∷ 6 ∷ 7 ∷ 8 ∷ []) ∷ []))
    × (s'.chunks ≡ [])
feed_whole_example =
    feed_whole start (chunk 32 (5 ∷ 6 ∷ [])) (chunk 32 (7 ∷ []) ∷ []) (chunk 0 (8 ∷ []))
      (init-Inv 100 8 64) refl ((refl, refl), ((refl, refl), tt)) refl
      (record { bytes_fit = omega arith; frames_fit = omega arith; response_fits = omega arith })

discard_request_accounts_example :
    Inv (discard_request one_held 9).0
    × ((discard_request one_held 9).0.total_bytes + (discard_request one_held 9).1
        ≡ one_held.total_bytes)
    × ((discard_request one_held 9).0.total_frames + (discard_request one_held 9).2
        ≡ one_held.total_frames)
    × ((k : Key)
        → get Key-discrete k (discard_request one_held 9).0.chunks
          ≡ held_without (key 9 257 1 ∷ []) one_held k)
unfolding Key-discrete store_chunk ℕ_discrete note_key
discard_request_accounts_example = discard_request_accounts one_held 9 assemble-Inv_example
