-- ===== src/Wal/Cuts.antt =====
-- The bytes that the rotations of src/wal/sync.rs hold, cut into files of whole blocks in any way, as the
-- reader meets them.
use dbprimkit.Base.{
  ℕ, zero, suc, ◌+◌, ◌*◌, ◌≡◌, refl, ap, ◌∙◌, List, [], ◌∷◌, ◌++◌, length, take, drop, arith,
  append_assoc, append-nil, take-length-add, drop-add, drop-length-append, take-nil, drop-nil,
}
use dbprimkit.Error.{Outcome, ok}
use dbprimkit.Wal.Platform.{Platform}
use dbprimkit.Wal.Frames.{Block, all_frames, block_bytes, Whole, lay}
use dbprimkit.Wal.Refill.{Opens, rot_frames, reads}

-- Behind so many blocks of `size` bytes each, a new file begins: the first file, and those behind it.
abbrev pub first_file : (size : ℕ) (cuts bytes : List ℕ) → List ℕ
first_file size [] bytes = bytes
first_file size (c ∷ cuts) bytes = take (c * size) bytes

abbrev pub later_files : (size : ℕ) (cuts bytes : List ℕ) → List (List ℕ)
later_files size [] bytes = []
later_files size (c ∷ cuts) bytes =
    first_file size cuts (drop (c * size) bytes) ∷ later_files size cuts (drop (c * size) bytes)

-- A file is opened by what it holds.
abbrev pub open_file : List ℕ → Outcome (List ℕ)
open_file bytes = ok bytes

-- The same for blocks.
abbrev pub first_blocks : (cuts : List ℕ) → List Block → List Block
first_blocks [] bs = bs
first_blocks (c ∷ cuts) bs = take c bs

abbrev pub later_blocks : (cuts : List ℕ) → List Block → List (List Block)
later_blocks [] bs = []
later_blocks (c ∷ cuts) bs = first_blocks cuts (drop c bs) ∷ later_blocks cuts (drop c bs)

module _ (p : Platform) (size : ℕ) where
  Whole-take : (c : ℕ) (bs : List Block) → Whole p size bs → Whole p size (take c bs)
  Whole-take zero bs w = tt
  Whole-take (suc c) [] w = tt
  Whole-take (suc c) (b ∷ bs) (h, w) = (h, Whole-take c bs w)

  Whole-drop : (c : ℕ) (bs : List Block) → Whole p size bs → Whole p size (drop c bs)
  Whole-drop zero bs w = w
  Whole-drop (suc c) [] w = tt
  Whole-drop (suc c) (b ∷ bs) (h, w) = Whole-drop c bs w

  take-lay :
      (c : ℕ) (bs : List Block) → Whole p size bs → take (c * size) (lay p bs) ≡ lay p (take c bs)
  take-lay zero bs w = ap (λ n. take n (lay p bs)) {y = 0} (omega arith)
  take-lay (suc c) [] w = take-nil (suc c * size)
  take-lay (suc c) (b ∷ bs) ((_, l, _, _), w) =
      ap (λ n. take n (block_bytes p b ++ lay p bs)) {y = length (block_bytes p b) + c * size}
        (omega (arith, l))
      ∙ take-length-add (c * size) (block_bytes p b) (lay p bs)
      ∙ ap (λ l. block_bytes p b ++ l) (take-lay c bs w)

  drop-lay :
      (c : ℕ) (bs : List Block) → Whole p size bs → drop (c * size) (lay p bs) ≡ lay p (drop c bs)
  drop-lay zero bs w = ap (λ n. drop n (lay p bs)) {y = 0} (omega arith)
  drop-lay (suc c) [] w = drop-nil (suc c * size)
  drop-lay (suc c) (b ∷ bs) ((_, l, _, _), w) =
      ap (λ n. drop n (block_bytes p b ++ lay p bs)) {y = length (block_bytes p b) + c * size}
        (omega (arith, l))
      ∙ drop-add (length (block_bytes p b)) (c * size) (block_bytes p b ++ lay p bs)
      ∙ ap (drop (c * size)) (drop-length-append (block_bytes p b) (lay p bs))
      ∙ drop-lay c bs w

  pub first_file-lay :
      (cuts : List ℕ) (bs : List Block)
      → Whole p size bs
      → first_file size cuts (lay p bs) ≡ lay p (first_blocks cuts bs)
  first_file-lay [] bs w = refl
  first_file-lay (c ∷ cuts) bs w = take-lay c bs w

  pub Whole-first_blocks :
      (cuts : List ℕ) (bs : List Block) → Whole p size bs → Whole p size (first_blocks cuts bs)
  Whole-first_blocks [] bs w = w
  Whole-first_blocks (c ∷ cuts) bs w = Whole-take c bs w

  pub Opens-later_files :
      (cuts : List ℕ) (bs : List Block)
      → Whole p size bs
      → Opens p open_file size (later_files size cuts (lay p bs)) (later_blocks cuts bs)
  Opens-later_files [] bs w = tt
  Opens-later_files (c ∷ cuts) bs w = rw (drop-lay c bs w) (
    ap ok (first_file-lay cuts (drop c bs) (Whole-drop c bs w)),
    Whole-first_blocks cuts (drop c bs) (Whole-drop c bs w),
    Opens-later_files cuts (drop c bs) (Whole-drop c bs w),
  )

all_frames-take-drop :
    (c : ℕ) (bs : List Block) → all_frames (take c bs) ++ all_frames (drop c bs) ≡ all_frames bs
all_frames-take-drop zero bs = refl
all_frames-take-drop (suc c) [] = refl
all_frames-take-drop (suc c) (b ∷ bs) =
    append_assoc b.frames (all_frames (take c bs)) (all_frames (drop c bs))
    ∙ ap (λ l. b.frames ++ l) (all_frames-take-drop c bs)

length-take-drop : (c : ℕ) (bs : List Block) → length (take c bs) + length (drop c bs) ≡ length bs
length-take-drop zero bs = omega arith
length-take-drop (suc c) [] = omega arith
length-take-drop (suc c) (b ∷ bs) = omega (arith, length-take-drop c bs)

module _ (p : Platform) where
  pub all_frames-blocks :
      (cuts : List ℕ) (bs : List Block)
      → all_frames (first_blocks cuts bs) ++ rot_frames p open_file (later_blocks cuts bs)
        ≡ all_frames bs
  all_frames-blocks [] bs = append-nil (all_frames bs)
  all_frames-blocks (c ∷ cuts) bs =
      ap (λ l. all_frames (take c bs) ++ l) (all_frames-blocks cuts (drop c bs))
      ∙ all_frames-take-drop c bs

  pub reads-later_blocks :
      (cuts : List ℕ) (bs : List Block)
      → length (first_blocks cuts bs) + reads p open_file (later_blocks cuts bs)
        ≡ length bs + length cuts
  reads-later_blocks [] bs = refl
  reads-later_blocks (c ∷ cuts) bs =
      omega (arith, reads-later_blocks cuts (drop c bs), length-take-drop c bs)
