-- ===== src/Native/ChunkAssembler.antt =====
-- `NativeChunkAssembler` of src/native-chunk-assembler.ts: the chunked responses of a connection.
-- The key text `requestId:opcode:laneId` is the triple of its numbers. The state of a call that
-- throws is the state before it, since every throw stands above the first write.
pub mod Invariant
pub mod Messages
pub mod Discard
pub mod Runs
use Prim.Native.Nat.{ℕ, suc, ◌+◌, ◌-◌, min, bit_and}
use mathlib.Core.Path.{◌≡◌}
use mathlib.Core.Bool.{Bool, true, false, not, ◌&&◌}
use mathlib.Core.Option.{Option, none, some, get_or}
use mathlib.Core.List.{List, [], ◌∷◌, ◌++◌}
use native.Mathlib.Decide.{ℕ_discrete}
use ferricstore_typescript.Common.{length, concat, take, ltb, ◌==◌, if◌then◌else◌}
use ferricstore_typescript.Common.Maps.{get, set, delete, or_zero, add, remove}
use ferricstore_typescript.Common.Buffers.{buffer_concat}
use ferricstore_typescript.Common.Results.{Result, ok, err, ◌>>=◌, ◌>>◌, throw_if}
use ferricstore_typescript.Protocol.Frame.{ResponseFrame, flag_more_chunks}

pub data Key : Type 0 where
  key : ℕ → ℕ → ℕ → Key

unfoldable pub Key-discrete : Discrete Key
Key-discrete = hlevel ℕ_discrete

abbrev pub key_of : ResponseFrame → Key
key_of frame = key frame.request_id frame.opcode frame.lane_id

abbrev pub request_of : Key → ℕ
request_of (key request opcode lane) = request

pub record Assembler : Type 0 where
  pub max_chunk_bytes : ℕ
  pub max_chunk_frames : ℕ
  pub max_response_bytes : ℕ
  pub chunks : List (Key × List (List ℕ))
  pub keys_by_request : List (ℕ × List Key)
  pub bytes_by_key : List (Key × ℕ)
  pub frames_by_key : List (Key × ℕ)
  pub total_bytes : ℕ
  pub total_frames : ℕ

pub data Error : Type 0 where
  chunked_bytes chunked_frames response_bytes buffered_bytes buffered_frames : ℕ → Error

abbrev pub init : ℕ → ℕ → ℕ → Assembler
init max_chunk_bytes max_chunk_frames max_response_bytes = record {
  max_chunk_bytes = max_chunk_bytes;
  max_chunk_frames = max_chunk_frames;
  max_response_bytes = max_response_bytes;
  chunks = [];
  keys_by_request = [];
  bytes_by_key = [];
  frames_by_key = [];
  total_bytes = 0;
  total_frames = 0;
}

pub update_max_response_bytes : Assembler → ℕ → Assembler
update_max_response_bytes s limit = record s { max_response_bytes = min s.max_response_bytes limit }

-- `(frame.flags & FLAG_MORE_CHUNKS) !== 0`
abbrev pub has_more : ResponseFrame → Bool
has_more frame = not (bit_and frame.flags flag_more_chunks == 0)

pub assert_limits : Assembler → ℕ → ℕ → ℕ → Result Error (Unit {0})
assert_limits s bytes frames added = do
  throw_if (ltb s.max_chunk_bytes bytes) (chunked_bytes s.max_chunk_bytes)
  throw_if (ltb s.max_chunk_frames frames) (chunked_frames s.max_chunk_frames)
  throw_if (ltb s.max_response_bytes bytes) (response_bytes s.max_response_bytes)
  throw_if (ltb s.max_chunk_bytes (s.total_bytes + added)) (buffered_bytes s.max_chunk_bytes)
  throw_if (ltb s.max_chunk_frames (s.total_frames + 1)) (buffered_frames s.max_chunk_frames)

-- `keysByRequest.get(requestId)`, made if it is not there, with the key added.
unfoldable pub note_key : ℕ → Key → List (ℕ × List Key) → List (ℕ × List Key)
note_key request k m =
    set ℕ_discrete request (add Key-discrete k (get_or (get ℕ_discrete request m) [])) m

unfoldable pub drop_keys : ℕ → List Key → List (ℕ × List Key) → List (ℕ × List Key)
drop_keys request [] m = delete ℕ_discrete request m
drop_keys request (k ∷ ks) m = set ℕ_discrete request (k ∷ ks) m

unfoldable pub forget_key : ℕ → Key → List (ℕ × List Key) → List (ℕ × List Key)
unfolding drop_keys
forget_key request k m = elim (get ℕ_discrete request m) [
  | none ↦ m
  | some ks ↦ drop_keys request (remove Key-discrete k ks) m
]

-- The subtractions of the source stop at 0, as those of ℕ do.
pub release : Assembler → Key → ℕ → Assembler
release s k request = record s {
  total_bytes = s.total_bytes - or_zero (get Key-discrete k s.bytes_by_key);
  total_frames = s.total_frames - or_zero (get Key-discrete k s.frames_by_key);
  chunks = delete Key-discrete k s.chunks;
  bytes_by_key = delete Key-discrete k s.bytes_by_key;
  frames_by_key = delete Key-discrete k s.frames_by_key;
  keys_by_request = forget_key request k s.keys_by_request;
}

-- What `assemble` writes once the limits have been passed, up to the return of an inner chunk.
pub store_chunk : Assembler → ResponseFrame → ℕ → ℕ → Option (List (List ℕ)) → Assembler
store_chunk s frame bytes frames previous = record s {
  total_bytes = s.total_bytes + length frame.body;
  total_frames = s.total_frames + 1;
  bytes_by_key = set Key-discrete (key_of frame) bytes s.bytes_by_key;
  frames_by_key = set Key-discrete (key_of frame) frames s.frames_by_key;
  chunks = set Key-discrete (key_of frame) (get_or previous [] ++ (frame.body ∷ [])) s.chunks;
  keys_by_request = elim previous [
    | none ↦ note_key frame.request_id (key_of frame) s.keys_by_request
    | some _ ↦ s.keys_by_request
  ];
}

pub finish :
    Assembler → ResponseFrame → ℕ → Option (List (List ℕ)) → Assembler × Option ResponseFrame
finish s frame bytes none = (s, some frame)
finish s frame bytes (some chunks) =
    let body = buffer_concat chunks bytes in
    (
      release s (key_of frame) frame.request_id,
      some (record frame { body = body; body_length = length body }),
    )

unfoldable pub is_absent : Option (List (List ℕ)) → Bool
is_absent none = true
is_absent (some _) = false

pub assemble : Assembler → ResponseFrame → Result Error (Assembler × Option ResponseFrame)
unfolding is_absent
assemble s frame =
    let previous = get Key-discrete (key_of frame) s.chunks in
    let bytes = or_zero (get Key-discrete (key_of frame) s.bytes_by_key) + length frame.body in
    let frames = or_zero (get Key-discrete (key_of frame) s.frames_by_key) + 1 in
    let stored = store_chunk s frame bytes frames previous in
    if not (has_more frame) && is_absent previous then ok (s, some frame) else do
      assert_limits s bytes frames (length frame.body)
      if has_more frame
          then ok (stored, none)
          else ok (finish stored frame bytes (get Key-discrete (key_of frame) stored.chunks))

discard_keys : ℕ → List Key → Assembler → ℕ → ℕ → Assembler × ℕ × ℕ
discard_keys request [] s bytes frames = (s, bytes, frames)
discard_keys request (k ∷ ks) s bytes frames =
    discard_keys request ks (release s k request)
      (bytes + or_zero (get Key-discrete k s.bytes_by_key))
      (frames + or_zero (get Key-discrete k s.frames_by_key))

pub discard_request : Assembler → ℕ → Assembler × ℕ × ℕ
unfolding discard_keys
discard_request s request = elim (get ℕ_discrete request s.keys_by_request) [
  | none ↦ (s, 0, 0)
  | some ks ↦ discard_keys request ks s 0 0
]

pub clear : Assembler → Assembler
clear s = init s.max_chunk_bytes s.max_chunk_frames s.max_response_bytes
