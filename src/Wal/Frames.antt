-- ===== src/Wal/Frames.antt =====
-- The format that src/wal/sync.rs writes: blocks of frames, and what a sequence of frames says.
use dbprimkit.Base.{
  ◌-◌, ℕ, ◌^◌, ◌<◌, ◌≡◌, List, [], ◌∷◌, ◌++◌, Option, none, some, length, replicate, ◌==◌,
  if◌then◌else◌,
}
use dbprimkit.Wal.Platform.{Platform}
use dbprimkit.Wal.Fullness.{Fullness, full, first, middle, last}
use dbprimkit.Wal.LogFacts.{framed}
use dbprimkit.Wal.Packing.{LogEntry}
use dbprimkit.Wal.Reading.{joined}

pub record Frame : Type 0 where
  pub lsn : ℕ
  pub payload : List ℕ
  pub fullness : Fullness

-- The parts of an entry that was begun in an earlier frame.
pub record Partial : Type 0 where
  pub lsn : ℕ
  pub bufs : List (List ℕ)

-- The entries that end in a frame, and the parts that are open after it.
abbrev pub advance : Frame → Partial → Option (List LogEntry × Partial)
advance f m = elim f.fullness [
  | full ↦ some (record { lsn = f.lsn; payload = f.payload } ∷ [], m)
  | first ↦ elim m.bufs [
    | [] ↦ some ([], record { lsn = f.lsn; bufs = f.payload ∷ [] })
    | b ∷ bs ↦ none
  ]
  | middle ↦ elim m.bufs [
    | [] ↦ none
    | b ∷ bs ↦
        if m.lsn == f.lsn
        then some ([], record { lsn = m.lsn; bufs = (b ∷ bs) ++ (f.payload ∷ []) })
        else none
  ]
  | last ↦ elim m.bufs [
    | [] ↦ none
    | b ∷ bs ↦
        if m.lsn == f.lsn
        then some (
          record { lsn = f.lsn; payload = joined ((b ∷ bs) ++ (f.payload ∷ [])) } ∷ [],
          record { lsn = m.lsn; bufs = [] },
        )
        else none
  ]
]

-- The entries that end in a sequence of frames.
abbrev pub behind :
    List LogEntry → Option (List LogEntry × Partial) → Option (List LogEntry × Partial)
behind es none = none
behind es (some (fs, m)) = some (es ++ fs, m)

abbrev pub and_then :
    Option (List LogEntry × Partial)
    → (Partial → Option (List LogEntry × Partial))
    → Option (List LogEntry × Partial)
and_then none k = none
and_then (some (es, m)) k = behind es (k m)

abbrev pub advance_all : List Frame → Partial → Option (List LogEntry × Partial)
advance_all [] m = some ([], m)
advance_all (f ∷ fs) m = and_then (advance f m) (advance_all fs)

-- A frame whose fields fit, with a byte of a payload.
abbrev pub IsClean : Frame → Type 0
IsClean f = (f.lsn < 2 ^ 64 - 1) × (length f.payload < 2 ^ 32) × (0 < length f.payload)

abbrev pub Clean : List Frame → Type 0
Clean [] = Unit
Clean (f ∷ fs) = IsClean f × Clean fs

pub record Block : Type 0 where
  pub header : List ℕ
  pub frames : List Frame
  pub pad : ℕ

abbrev pub all_frames : List Block → List Frame
all_frames [] = []
all_frames (b ∷ bs) = b.frames ++ all_frames bs

module _ (p : Platform) where
  abbrev pub frame_bytes : List Frame → List ℕ
  frame_bytes [] = []
  frame_bytes (f ∷ fs) = framed p f.lsn f.payload f.fullness ++ frame_bytes fs

  abbrev pub block_bytes : Block → List ℕ
  block_bytes b = b.header ++ (frame_bytes b.frames ++ replicate b.pad 0)

  -- A block that can be read: it has a header, a frame, and so many bytes.
  abbrev pub IsWhole : ℕ → Block → Type 0
  IsWhole size b =
      (length b.header ≡ 32)
      × (length (block_bytes b) ≡ size)
      × Clean b.frames
      × (0 < length b.frames)

  abbrev pub Whole : ℕ → List Block → Type 0
  Whole size [] = Unit
  Whole size (b ∷ bs) = IsWhole size b × Whole size bs

  abbrev pub lay : List Block → List ℕ
  lay [] = []
  lay (b ∷ bs) = block_bytes b ++ lay bs
