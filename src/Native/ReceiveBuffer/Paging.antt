-- ===== src/Native/ReceiveBuffer/Paging.antt =====
-- `NativeFrameAssembly`: copying page by page amounts to appending to one buffer.
use Prim.Native.Nat.{ℕ, zero, suc, ◌+◌, ◌-◌, ◌≤◌, ◌<◌, min}
use mathlib.Core.Path.{◌≡◌, refl, sym, ap, ◌∙◌}
use mathlib.Core.Bool.{Bool, true, false, ◌&&◌}
use ferricstore_typescript.Common.Buffers.{buffer_concat_exact}
use ferricstore_typescript.Common.Results.{ok}
use mathlib.Core.List.{
  reverse, reverse-cons, map, map-append, List, [], ◌∷◌, ◌++◌, append-nil, append_assoc,
}
use native.Mathlib.Omega.{arith}
use ferricstore_typescript.Common.{
  concat, concat-append, ==_iff, length, length-append, length-take, length-drop, take, drop,
  drop-drop, take-add, ltb, inl, inr, Bool-cases, ltb→lt,
}
use ferricstore_typescript.Native.ReceiveBuffer.{
  Page, FrameAssembly, concat_pages, assembly_finish, copies, copied, with_page, needs_page,
  fresh_page, copy_to, newest_length, append_loop, assembly_append, new_assembly,
}

-- The bytes of the pages, in the order they came.
unfoldable pub joined : List Page → List ℕ
joined [] = []
joined (page ∷ older) = joined older ++ page.written

abbrev newest_written : List Page → ℕ
newest_written [] = 0
newest_written (page ∷ _) = length page.written

pub record IsGood (a : FrameAssembly) : Type 0 where
  pub received_eq : a.received_bytes ≡ length (joined a.pages)
  pub received_le : a.received_bytes ≤ a.frame_length
  pub page_eq : a.page_bytes ≡ newest_written a.pages
  pub page_le : a.page_bytes ≤ newest_length a.pages

pub new_assembly-IsGood : (n : ℕ) → IsGood (new_assembly n)
unfolding joined
new_assembly-IsGood n = record {
  received_eq = refl;
  received_le = omega arith;
  page_eq = refl;
  page_le = omega arith;
}

-- Before a round copies there is a page with room, and nothing has been lost.
record HasSpace (a p : FrameAssembly) : Type 0 where
  good : IsGood p
  space : p.page_bytes < newest_length p.pages
  same_bytes : joined p.pages ≡ joined a.pages
  same_received : p.received_bytes ≡ a.received_bytes
  same_length : p.frame_length ≡ a.frame_length

fresh_page-HasSpace :
    (a : FrameAssembly) → IsGood a → a.received_bytes < a.frame_length → HasSpace a (fresh_page a)
unfolding fresh_page joined
fresh_page-HasSpace a v h = record {
  good = record {
    received_eq = rw append-nil v.received_eq;
    received_le = v.received_le;
    page_eq = refl;
    page_le = omega arith;
  };
  space = omega arith;
  same_bytes = append-nil (joined a.pages);
  same_received = refl;
  same_length = refl;
}

has_page :
    (pages : List Page) (n : ℕ)
    → needs_page pages n ≡ false
    → n ≤ newest_length pages
    → n < newest_length pages
unfolding needs_page
has_page [] n e h = cc
has_page (page ∷ _) n e h = ground arith

with_page-HasSpace :
    (a : FrameAssembly) → IsGood a → a.received_bytes < a.frame_length → HasSpace a (with_page a)
with_page-HasSpace a v h = elim (Bool-cases (needs_page a.pages a.page_bytes)) [
  | inl e ↦ unfold with_page in rw (e) (fresh_page-HasSpace a v h)
  | inr e ↦
      unfold with_page in
      rw (e) (record {
        good = v;
        space = has_page a.pages a.page_bytes e v.page_le;
        same_bytes = refl;
        same_received = refl;
        same_length = refl;
      })
]

joined-copy_to :
    (pages : List Page) (piece : List ℕ)
    → 0 < newest_length pages
    → joined (copy_to pages piece) ≡ joined pages ++ piece
unfolding joined copy_to
joined-copy_to [] piece h = elim h [ ]
joined-copy_to (page ∷ older) piece h = sym (append_assoc (joined older) page.written piece)

newest_length-copy_to :
    (pages : List Page) (piece : List ℕ) → newest_length (copy_to pages piece) ≡ newest_length pages
unfolding copy_to
newest_length-copy_to [] piece = refl
newest_length-copy_to (page ∷ older) piece = refl

newest_written-copy_to :
    (pages : List Page) (piece : List ℕ)
    → 0 < newest_length pages
    → newest_written (copy_to pages piece) ≡ newest_written pages + length piece
unfolding copy_to
newest_written-copy_to [] piece h = elim h [ ]
newest_written-copy_to (page ∷ older) piece h = length-append page.written piece

copied-IsGood :
    (p : FrameAssembly) (piece : List ℕ) (n : ℕ)
    → IsGood p
    → length piece ≡ n
    → 0 < n
    → n ≤ newest_length p.pages - p.page_bytes
    → n ≤ p.frame_length - p.received_bytes
    → IsGood (copied p piece n)
unfolding copied
copied-IsGood p piece n v e z h k = record {
  received_eq =
      rw (joined-copy_to p.pages piece (omega arith))
        (omega (arith, v.received_eq, length-append (joined p.pages) piece));
  received_le = omega (arith, v.received_le);
  page_eq = omega (arith, v.page_eq, newest_written-copy_to p.pages piece);
  page_le = omega (arith, newest_length-copy_to p.pages piece);
}

-- The assembly after `more` has been appended to what it holds.
pub record Appended (a : FrameAssembly) (more : List ℕ) (b : FrameAssembly) : Type 0 where
  pub good : IsGood b
  pub joined_eq : joined b.pages ≡ joined a.pages ++ more
  pub length_eq : b.frame_length ≡ a.frame_length

abbrev pub room : FrameAssembly → ℕ
room a = a.frame_length - a.received_bytes

Appended-none :
    (a : FrameAssembly) (xs : List ℕ) (n : ℕ) → IsGood a → n ≡ 0 → Appended a (take n xs) a
Appended-none a xs n v e =
    rw e (record { good = v; joined_eq = sym (append-nil _); length_eq = refl })

abbrev Loops : FrameAssembly → List ℕ → ℕ → FrameAssembly × ℕ → Type 0
Loops a chunk offset (b, n) =
    (n ≡ offset + min (length chunk - offset) (room a))
    × Appended a (take (min (length chunk - offset) (room a)) (drop offset chunk)) b

-- A round that copies `k` bytes, and what the rounds after it do.
Loops-round :
    (a p : FrameAssembly) (chunk : List ℕ) (offset k : ℕ) (r : FrameAssembly × ℕ)
    → HasSpace a p
    → k ≡ min (length chunk - offset) (min (newest_length p.pages - p.page_bytes) (room p))
    → offset < length chunk
    → 0 < k
    → IsGood (copied p (take k (drop offset chunk)) k)
    → Loops (copied p (take k (drop offset chunk)) k) chunk (offset + k) r
    → Loops a chunk offset r
unfolding copied
Loops-round a p chunk offset k (b, n) h e o z g (en, ap') =
    let split : min (length chunk - offset) (room a)
        ≡ k + min (length chunk - (offset + k)) (p.frame_length - (p.received_bytes + k)) =
      omega (arith, h.same_received, h.same_length) in
    (
      omega (arith, split),
      record {
        good = ap'.good;
        joined_eq =
            ap'.joined_eq
            ∙ rw
                (
                  split,
                  take-add k,
                  drop-drop k offset,
                  joined-copy_to p.pages (take k (drop offset chunk)) (omega (arith, h.space)),
                  h.same_bytes,
                  append_assoc (joined a.pages),
                )
                refl;
        length_eq = ap'.length_eq ∙ h.same_length;
      },
    )

-- A round makes progress and keeps the assembly good.
record Progress (a p : FrameAssembly) (chunk : List ℕ) (offset k : ℕ) : Type 0 where
  positive : 0 < k
  within : offset + k ≤ length chunk
  good : IsGood (copied p (take k (drop offset chunk)) k)

progress :
    (a p : FrameAssembly) (chunk : List ℕ) (offset : ℕ)
    → HasSpace a p
    → offset < length chunk
    → a.received_bytes < a.frame_length
    → Progress a p chunk offset (copies p chunk offset)
progress a p chunk offset h o r =
    let k : ℕ = copies p chunk offset in
    let z : 0 < k = omega (arith, h.space, h.same_received, h.same_length) in
    record {
      positive = z;
      within = omega arith;
      good =
          copied-IsGood p (take k (drop offset chunk)) k h.good
            (omega (arith, length-take k (drop offset chunk), length-drop offset chunk)) z
            (omega arith) (omega arith);
    }

both : (x y : Bool) → x && y ≡ true → (x ≡ true) × (y ≡ true)
both x y e = ground arith

one_fails : (a b c d : ℕ) → ltb a b && ltb c d ≡ false → min (b - a) (d - c) ≡ 0
one_fails a b c d e = ground arith

append_loop-Loops :
    (fuel : ℕ) (a : FrameAssembly) (chunk : List ℕ) (offset : ℕ)
    → IsGood a
    → offset ≤ length chunk
    → length chunk - offset ≤ fuel
    → Loops a chunk offset (append_loop fuel a chunk offset)
unfolding append_loop
append_loop-Loops zero a chunk offset v o f = (omega arith, Appended-none a _ _ v (omega arith))
append_loop-Loops (suc fuel) a chunk offset v o f =
    elim (Bool-cases (ltb offset (length chunk) && ltb a.received_bytes a.frame_length)) [
      | inl more ↦
          let (o', r') = both _ _ more in
          let h = with_page-HasSpace a v (ltb→lt _ _ r') in
          let w = progress a (with_page a) chunk offset h (ltb→lt _ _ o') (ltb→lt _ _ r') in
          rw more (
            Loops-round a (with_page a) chunk offset _ _ h refl (ltb→lt _ _ o') w.positive w.good
              (append_loop-Loops fuel _ chunk _ w.good w.within (omega (arith, w.positive))))
      | inr stop ↦
          let z = one_fails offset (length chunk) a.received_bytes a.frame_length stop in
          rw stop (omega (arith, z), Appended-none a _ _ v z)
    ]

-- `append` takes from the chunk what the frame still lacks, and no more.
pub assembly_append-Appended :
    (a : FrameAssembly) (chunk : List ℕ)
    → IsGood a
    → let (b, n) = assembly_append a chunk in
      (n ≡ min (length chunk) (room a)) × Appended a (take n chunk) b
unfolding assembly_append
assembly_append-Appended a chunk v =
    let (e, r) = append_loop-Loops (length chunk) a chunk 0 v (omega arith) (omega arith) in
    let m : min (length chunk - 0) (room a) ≡ (append_loop (length chunk) a chunk 0).1 =
      omega (arith, e) in
    (omega (arith, e), rw m at r)

pub received-Appended :
    (a : FrameAssembly) (xs : List ℕ) (b : FrameAssembly)
    → IsGood a
    → Appended a xs b
    → b.received_bytes ≡ a.received_bytes + length xs
received-Appended a xs b v p = omega (
  arith,
  p.good.received_eq,
  ap length p.joined_eq,
  length-append (joined a.pages) xs,
  v.received_eq,
)

pages_joined :
    (pages : List Page) → concat (map (λ (p : Page). p.written) (reverse pages)) ≡ joined pages
unfolding joined
pages_joined [] = refl
pages_joined (page ∷ older) =
    rw (reverse-cons page older, map-append, concat-append, append-nil)
      (ap (λ (xs : List ℕ). xs ++ page.written) (pages_joined older))

concat_pages-joined :
    (pages : List Page) (n : ℕ)
    → 0 < n
    → n ≡ length (joined pages)
    → concat_pages pages n ≡ ok (joined pages)
unfolding concat_pages
concat_pages-joined [] n p e = absurd (unfold joined in omega arith)
concat_pages-joined (page ∷ []) n p e = unfold joined in refl
concat_pages-joined (page ∷ older ∷ pages) n p e =
    let j = pages_joined (page ∷ older ∷ pages) in
    ap ok (
      buffer_concat_exact (map (λ (p : Page). p.written) (reverse (page ∷ older ∷ pages))) n
        (omega (arith, ap length j, e))
      ∙ j)

-- A complete frame is what has been received, in order.
pub assembly_finish-joined :
    (a : FrameAssembly)
    → IsGood a
    → a.received_bytes ≡ a.frame_length
    → 0 < a.frame_length
    → assembly_finish a ≡ ok (joined a.pages)
unfolding assembly_finish
assembly_finish-joined a v e p =
    rw ((==_iff _ _).1 e)
      (concat_pages-joined a.pages a.frame_length p (omega (arith, v.received_eq)))
