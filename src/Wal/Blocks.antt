-- ===== src/Wal/Blocks.antt =====
-- Blocks and frames of src/wal/sync.rs, one behind the other.
use dbprimkit.Base.{
  ℕ, ◌*◌, ◌%◌, ◌<◌, ◌≡◌, refl, sym, ap, ◌∙◌, List, [], ◌∷◌, ◌++◌, Bool, true, false, some, length,
  take, drop, arith, append_assoc, append-nil, length-append, take-append-drop, if◌then◌else◌,
  ==_refl,
}
use native.Mathlib.Nat.{mul-mod_left}
use dbprimkit.Wal.Platform.{Platform}
use dbprimkit.Wal.Fullness.{full, first, middle, last}
use dbprimkit.Wal.LogFacts.{framed, length-framed}
use dbprimkit.Wal.Packing.{LogEntry}
use dbprimkit.Wal.Reading.{joined}
use dbprimkit.Wal.Frames.{
  Frame, Partial, advance, advance_all, IsClean, Clean, Block, all_frames, frame_bytes, block_bytes,
  Whole, lay,
}
use dbprimkit.Wal.Parsed.{advance_all-append}

pub Clean-append : (fs : List Frame) (f : Frame) → Clean fs → IsClean f → Clean (fs ++ (f ∷ []))
Clean-append [] f c i = (i, tt)
Clean-append (g ∷ fs) f (c, cs) i = (c, Clean-append fs f cs i)

pub all_frames-append :
    (bs cs : List Block) → all_frames (bs ++ cs) ≡ all_frames bs ++ all_frames cs
all_frames-append [] cs = refl
all_frames-append (b ∷ bs) cs =
    ap (λ l. b.frames ++ l) (all_frames-append bs cs)
    ∙ sym (append_assoc (b.frames) (all_frames bs) (all_frames cs))

-- One more frame.
pub advance_all-snoc :
    (fs : List Frame) (f : Frame) (start mid end : Partial) (es gs : List LogEntry)
    → advance_all fs start ≡ some (es, mid)
    → advance f mid ≡ some (gs, end)
    → advance_all (fs ++ (f ∷ [])) start ≡ some (es ++ gs, end)
advance_all-snoc fs f start mid end es gs e h =
    advance_all-append fs (f ∷ []) start ∙ rw (e, h) (rw (append-nil gs))

module _ (p : Platform) where
  pub frame_bytes-append :
      (fs : List Frame) (f : Frame)
      → frame_bytes p (fs ++ (f ∷ [])) ≡ frame_bytes p fs ++ framed p f.lsn f.payload f.fullness
  frame_bytes-append [] f = append-nil _
  frame_bytes-append (g ∷ fs) f =
      ap (λ l. framed p g.lsn g.payload g.fullness ++ l) (frame_bytes-append fs f)
      ∙ sym (append_assoc _ (frame_bytes p fs) _)

  pub some_bytes : (fs : List Frame) → 0 < length fs → 0 < length (frame_bytes p fs)
  some_bytes [] h = absurd (omega arith)
  some_bytes (f ∷ fs) h = omega (
    arith,
    length-append (framed p f.lsn f.payload f.fullness) (frame_bytes p fs),
    length-framed p f.lsn f.payload f.fullness,
  )

  pub lay-append : (bs cs : List Block) → lay p (bs ++ cs) ≡ lay p bs ++ lay p cs
  lay-append [] cs = refl
  lay-append (b ∷ bs) cs =
      ap (λ l. block_bytes p b ++ l) (lay-append bs cs)
      ∙ sym (append_assoc (block_bytes p b) (lay p bs) (lay p cs))

  pub Whole-append :
      (size : ℕ) (bs cs : List Block) → Whole p size bs → Whole p size cs → Whole p size (bs ++ cs)
  Whole-append size [] cs w v = v
  Whole-append size (b ∷ bs) cs (i, w) v = (i, Whole-append size bs cs w v)

  pub length-lay :
      (size : ℕ) (bs : List Block) → Whole p size bs → length (lay p bs) ≡ length bs * size
  length-lay size [] w = omega arith
  length-lay size (b ∷ bs) ((_, l, _, _), w) =
      omega (arith, length-append (block_bytes p b) (lay p bs), length-lay size bs w)

  pub length-lay-mod : (size : ℕ) (bs : List Block) → Whole p size bs → length (lay p bs) % size ≡ 0
  length-lay-mod size bs w = rw (length-lay size bs w) (mul-mod_left (length bs) size)

-- Where an entry stands when a part of it is in the blocks, or when none is.
abbrev pub Held : Bool → (lsn : ℕ) (payload log : List ℕ) → Partial → Type 0
Held true lsn payload log m =
    (m.lsn ≡ lsn) × (0 < length m.bufs) × (joined (m.bufs) ++ log ≡ payload)
Held false lsn payload log m = (m.bufs ≡ []) × (log ≡ payload)

pub joined-append : (bs : List (List ℕ)) (b : List ℕ) → joined (bs ++ (b ∷ [])) ≡ joined bs ++ b
joined-append [] b = append-nil b
joined-append (a ∷ bs) b =
    ap (λ l. a ++ l) (joined-append bs b) ∙ sym (append_assoc a (joined bs) b)

abbrev pub Advanced : Frame → Partial → List LogEntry → (Partial → Type 0) → Type 0
Advanced f m es P = (end : Partial) × (advance f m ≡ some (es, end)) × P end

-- The frame that ends an entry yields it.
pub advance-end :
    (split : Bool) (lsn : ℕ) (payload log : List ℕ) (m : Partial)
    → Held split lsn payload log m
    → Advanced
        (record { lsn = lsn; payload = log; fullness = if split then last else full })
        m
        (record { lsn = lsn; payload = payload } ∷ [])
        (λ end. end.bufs ≡ [])
advance-end false lsn payload log m (e, h) =
    (m, ap (λ l. some (record { lsn = lsn; payload = l } ∷ [], m)) h, e)
advance-end true lsn payload log m (e, l, h) = on (m.bufs) refl l
  where
    on :
        (bufs : List (List ℕ))
        → m.bufs ≡ bufs
        → 0 < length bufs
        → Advanced
            (record { lsn = lsn; payload = log; fullness = last })
            m
            (record { lsn = lsn; payload = payload } ∷ [])
            (λ end. end.bufs ≡ [])
    on [] q l = absurd (omega arith)
    on (b ∷ bs) q l = (
      record { lsn = m.lsn; bufs = [] },
      rw (q, e, ==_refl, ← h, q, joined-append (b ∷ bs) log, advance),
      refl,
    )

-- A frame in between leaves the rest of the entry.
pub advance-part :
    (split : Bool) (lsn n : ℕ) (payload log : List ℕ) (m : Partial)
    → Held split lsn payload log m
    → Advanced
        (record { lsn = lsn; payload = take n log; fullness = if split then middle else first })
        m
        []
        (Held true lsn payload (drop n log))
advance-part false lsn n payload log m (e, h) = (
  record { lsn = lsn; bufs = take n log ∷ [] },
  rw (e),
  (
    refl,
    omega arith,
    ap (λ l. l ++ drop n log) (append-nil (take n log)) ∙ take-append-drop n log ∙ h,
  ),
)
advance-part true lsn n payload log m (e, l, h) = on (m.bufs) refl l
  where
    on :
        (bufs : List (List ℕ))
        → m.bufs ≡ bufs
        → 0 < length bufs
        → Advanced
            (record { lsn = lsn; payload = take n log; fullness = middle })
            m
            []
            (Held true lsn payload (drop n log))
    on [] q l = absurd (omega arith)
    on (b ∷ bs) q l = (
      record { lsn = m.lsn; bufs = (b ∷ bs) ++ (take n log ∷ []) },
      rw (q, e, ==_refl),
      (
        e,
        omega (arith, length-append (b ∷ bs) (take n log ∷ [])),
        ap (λ l. l ++ drop n log) (joined-append (b ∷ bs) (take n log))
            ∙ append_assoc (joined (b ∷ bs)) (take n log) (drop n log)
            ∙ ap (λ l. joined (b ∷ bs) ++ l) (take-append-drop n log)
            ∙ ap (λ l. joined l ++ log) (sym q)
            ∙ h,
      ),
    )
