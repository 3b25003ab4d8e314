-- ===== src/Native/ReceiveBuffer.antt =====
-- `NativeReceiveBuffer` and `NativeFrameAssembly` of src/native-receive-buffer.ts: socket chunks in,
-- response frames out. A call that throws has no state after it: the connection is given up.
pub mod Paging
pub mod Reading
pub mod Draining
pub mod Frames
pub mod Buffered
pub mod Assembling
pub mod Appending
pub mod Stream
pub mod Transport
pub mod Runs
use Prim.Native.Nat.{ℕ, zero, suc, ◌+◌, ◌-◌, ◌*◌, min}
use mathlib.Core.Path.{◌≡◌}
use mathlib.Core.Bool.{Bool, true, false, not, ◌&&◌}
use mathlib.Core.Option.{Option, none, some}
use mathlib.Core.List.{List, [], ◌∷◌, ◌++◌, reverse, map}
use ferricstore_typescript.Common.{
  length, concat, take, drop, get_elem?, ltb, leb, ◌==◌, if◌then◌else◌,
}
use ferricstore_typescript.Common.Words.{ℤ}
use ferricstore_typescript.Common.Buffers.{buffer_concat}
use ferricstore_typescript.Common.Results.{Result, ok, err, ◌>>=◌, ◌>>◌, throw_if}
use ferricstore_typescript.Protocol.Frame.{
  ResponseFrame, DecodeError, header_size, read_uint, try_decode_frame,
}

abbrev pub frame_assembly_page_bytes : ℕ
frame_assembly_page_bytes = 64 * 1024

-- An allocated page and the part of it that has been written.
pub record Page : Type 0 where
  pub byte_length : ℕ
  pub written : List ℕ

-- The pages stand newest first; `pageBytes` of the source is what the newest one has written.
pub record FrameAssembly : Type 0 where
  pub frame_length : ℕ
  pub pages : List Page
  pub page_bytes : ℕ
  pub received_bytes : ℕ

pub data Error : Type 0 where
  incomplete empty_frame underflow overflow invalid_buffered : Error
  invalid_frame : DecodeError → Error

abbrev pub new_assembly : ℕ → FrameAssembly
new_assembly frame_length = record {
  frame_length = frame_length;
  pages = [];
  page_bytes = 0;
  received_bytes = 0;
}

abbrev pub is_complete : FrameAssembly → Bool
is_complete a = a.received_bytes == a.frame_length

-- `page == null || this.pageBytes === page.byteLength`
unfoldable pub needs_page : List Page → ℕ → Bool
needs_page [] page_bytes = true
needs_page (page ∷ _) page_bytes = page_bytes == page.byte_length

unfoldable pub fresh_page : FrameAssembly → FrameAssembly
fresh_page a = record a {
  pages =
      record {
        byte_length = min frame_assembly_page_bytes (a.frame_length - a.received_bytes);
        written = [];
      }
      ∷ a.pages;
  page_bytes = 0;
}

-- The page to write to: the newest one, or a new one if there is none or it is full.
unfoldable pub with_page : FrameAssembly → FrameAssembly
unfolding needs_page fresh_page
with_page a = if needs_page a.pages a.page_bytes then fresh_page a else a

-- `chunk.copy(page, ...)` of the first `bytes` bytes of what the chunk has left.
unfoldable pub copy_to : List Page → List ℕ → List Page
copy_to [] piece = []
copy_to (page ∷ older) piece = record page { written = page.written ++ piece } ∷ older

abbrev pub newest_length : List Page → ℕ
newest_length [] = 0
newest_length (page ∷ _) = page.byte_length

-- How many bytes a round copies: the least of what the chunk, the page and the frame have left.
abbrev pub copies : FrameAssembly → List ℕ → ℕ → ℕ
copies p chunk offset =
    min (length chunk - offset)
      (min (newest_length p.pages - p.page_bytes) (p.frame_length - p.received_bytes))

unfoldable pub copied : FrameAssembly → List ℕ → ℕ → FrameAssembly
copied p piece bytes = record p {
  pages = copy_to p.pages piece;
  page_bytes = p.page_bytes + bytes;
  received_bytes = p.received_bytes + bytes;
}

-- The loop of `append`; each round copies a byte at least, so the chunk's length is fuel enough.
pub append_loop : ℕ → FrameAssembly → List ℕ → ℕ → FrameAssembly × ℕ
append_loop zero a chunk offset = (a, offset)
append_loop (suc fuel) a chunk offset =
    let p = with_page a in
    let bytes = copies p chunk offset in
    let a' = copied p (take bytes (drop offset chunk)) bytes in
    let rest = append_loop fuel a' chunk (offset + bytes) in
    if ltb offset (length chunk) && ltb a.received_bytes a.frame_length then rest else (a, offset)

pub assembly_append : FrameAssembly → List ℕ → FrameAssembly × ℕ
assembly_append a chunk = append_loop (length chunk) a chunk 0

-- `pages.length === 1 ? first : Buffer.concat(pages, frameLength)`
unfoldable pub concat_pages : List Page → ℕ → Result Error (List ℕ)
concat_pages [] frame_length = err empty_frame
concat_pages (page ∷ []) frame_length = ok page.written
concat_pages (page ∷ older ∷ pages) frame_length =
    ok (buffer_concat (map (λ (p : Page). p.written) (reverse (page ∷ older ∷ pages))) frame_length)

pub assembly_finish : FrameAssembly → Result Error (List ℕ)
assembly_finish a = do
  throw_if (not (is_complete a)) incomplete
  concat_pages a.pages a.frame_length

pub record ReceiveBuffer : Type 0 where
  pub assembly : Option FrameAssembly
  pub chunks : List (List ℕ)
  pub buffered_bytes : ℕ
  pub chunk_index : ℕ
  pub chunk_offset : ℕ

abbrev pub empty : ReceiveBuffer
empty = record {
  assembly = none;
  chunks = [];
  buffered_bytes = 0;
  chunk_index = 0;
  chunk_offset = 0;
}

abbrev pub clear : ReceiveBuffer → ReceiveBuffer
clear _ = empty

-- `chunks.push(remaining)`, with `remaining` the part that the assembly has not consumed.
unfoldable pub push_rest : ReceiveBuffer → List ℕ → ℕ → ReceiveBuffer
push_rest b chunk consumed =
    if ltb consumed (length chunk)
    then record b {
      chunks = b.chunks ++ (drop consumed chunk ∷ []);
      buffered_bytes = b.buffered_bytes + length (drop consumed chunk);
    }
    else b

unfoldable pub append_by : Option FrameAssembly → ReceiveBuffer → List ℕ → ReceiveBuffer
append_by none b chunk = push_rest b chunk 0
append_by (some a) b chunk =
    let taken = assembly_append a chunk in
    push_rest (record b { assembly = some taken.0 }) chunk taken.1

pub append : ReceiveBuffer → List ℕ → ReceiveBuffer
unfolding append_by
append b [] = b
append b (x ∷ xs) = append_by b.assembly b (x ∷ xs)

-- The copying loop of `peek`, over the chunks from `chunkIndex` on; `wanted` bytes are missing.
pub copy_chunks : List (List ℕ) → ℕ → ℕ → Result Error (List ℕ)
copy_chunks [] offset zero = ok []
copy_chunks [] offset (suc wanted) = err underflow
copy_chunks (chunk ∷ chunks) offset zero = ok []
copy_chunks (chunk ∷ chunks) offset (suc wanted) =
    let bytes = min (suc wanted) (length chunk - offset) in
    copy_chunks chunks 0 (suc wanted - bytes) >>= λ rest.
    ok (take bytes (drop offset chunk) ++ rest)

pub peek_at : List (List ℕ) → ℕ → ℕ → Result Error (List ℕ)
unfolding copy_chunks
peek_at [] offset wanted = err underflow
peek_at (first ∷ chunks) offset wanted =
    if leb wanted (length first - offset)
    then ok (take wanted (drop offset first))
    else copy_chunks (first ∷ chunks) offset wanted

pub peek : ReceiveBuffer → ℕ → Result Error (List ℕ)
peek b wanted = peek_at (drop b.chunk_index b.chunks) b.chunk_offset wanted

-- The advancing loop of `read`, over the chunks from `index` on.
pub advance : List (List ℕ) → ℕ → ℕ → ℕ → Result Error (ℕ × ℕ)
advance [] index offset zero = ok (index, offset)
advance [] index offset (suc remaining) = err underflow
advance (chunk ∷ chunks) index offset zero = ok (index, offset)
advance (chunk ∷ chunks) index offset (suc remaining) =
    let bytes = min (suc remaining) (length chunk - offset) in
    let on = advance chunks (index + 1) 0 (suc remaining - bytes) in
    if offset + bytes == length chunk then on else ok (index, offset + bytes)

pub compact : ReceiveBuffer → ReceiveBuffer
compact b =
    if b.chunk_index == length b.chunks
    then record b { chunks = []; chunk_index = 0; chunk_offset = 0 }
    else if leb 1024 b.chunk_index && leb (length b.chunks) (b.chunk_index * 2)
    then record b { chunks = drop b.chunk_index b.chunks; chunk_index = 0 }
    else b

pub read : ReceiveBuffer → ℕ → Result Error (ReceiveBuffer × List ℕ)
read b wanted = do
  out ← peek b wanted
  (index, offset) ← advance (drop b.chunk_index b.chunks) b.chunk_index b.chunk_offset wanted
  ok (
    compact (record b {
      chunk_index = index;
      chunk_offset = offset;
      buffered_bytes = b.buffered_bytes - wanted;
    }),
    out,
  )

-- The loop of `drainInto`; every round that does not throw takes a byte at least, so the bytes
-- that are buffered are fuel enough.
pub drain_loop : ℕ → ReceiveBuffer → FrameAssembly → Result Error (ReceiveBuffer × FrameAssembly)
drain_loop zero b a = ok (b, a)
drain_loop (suc fuel) b a = elim (get_elem? b.chunks b.chunk_index) [
  | none ↦ if b.buffered_bytes == 0 then ok (b, a) else err underflow
  | some chunk ↦
      let taken = assembly_append a (drop b.chunk_offset chunk) in
      let b' = record b {
        buffered_bytes = b.buffered_bytes - taken.1;
        chunk_index =
            if b.chunk_offset + taken.1 == length chunk then b.chunk_index + 1 else b.chunk_index;
        chunk_offset =
            if b.chunk_offset + taken.1 == length chunk then 0 else b.chunk_offset + taken.1;
      } in
      let rest = drain_loop fuel b' taken.0 in
      if b.buffered_bytes == 0 then ok (b, a) else if taken.1 == 0 then err overflow else rest
]

pub drain_into : ReceiveBuffer → FrameAssembly → Result Error (ReceiveBuffer × FrameAssembly)
drain_into b a = do (b', a') ← drain_loop b.buffered_bytes b a; ok (compact b', a')

lift_decode : {A : Type 0} → Result DecodeError A → Result Error A
lift_decode (ok a) = ok a
lift_decode (err e) = err (invalid_frame e)

exact_frame : Option (ResponseFrame × List ℕ) → Result Error ResponseFrame
exact_frame none = err invalid_buffered
exact_frame (some (frame, [])) = ok frame
exact_frame (some (frame, _ ∷ _)) = err invalid_buffered

pub decode_frame : List ℕ → Option ℤ → Result Error ResponseFrame
unfolding lift_decode exact_frame
decode_frame encoded limit = do
  parsed ← lift_decode (try_decode_frame encoded limit)
  exact_frame parsed

next_assembled :
    ReceiveBuffer → FrameAssembly → Option ℤ → Result Error (ReceiveBuffer × Option ResponseFrame)
next_assembled b a limit = if not (is_complete a) then ok (b, none) else do
  encoded ← assembly_finish a
  frame ← decode_frame encoded limit
  ok (record b { assembly = none }, some frame)

start_assembly : ReceiveBuffer → ℕ → Result Error (ReceiveBuffer × Option ResponseFrame)
start_assembly b frame_length = do
  (b', a) ← drain_into b (new_assembly frame_length)
  ok (record b' { assembly = some a }, none)

read_whole : ReceiveBuffer → ℕ → Option ℤ → Result Error (ReceiveBuffer × Option ResponseFrame)
read_whole b frame_length limit = do
  (b', encoded) ← read b frame_length
  frame ← decode_frame encoded limit
  ok (b', some frame)

next_buffered : ReceiveBuffer → Option ℤ → Result Error (ReceiveBuffer × Option ResponseFrame)
next_buffered b limit = if ltb b.buffered_bytes header_size then ok (b, none) else do
  header ← peek b header_size
  _ ← lift_decode (try_decode_frame header limit)
  let frame_length = header_size + read_uint 4 20 header
  if ltb b.buffered_bytes frame_length
      then start_assembly b frame_length
      else read_whole b frame_length limit

next_by :
    Option FrameAssembly
    → ReceiveBuffer
    → Option ℤ
    → Result Error (ReceiveBuffer × Option ResponseFrame)
next_by none b limit = next_buffered b limit
next_by (some a) b limit = next_assembled b a limit

pub next_frame : ReceiveBuffer → Option ℤ → Result Error (ReceiveBuffer × Option ResponseFrame)
unfolding next_by
next_frame b limit = next_by b.assembly b limit
