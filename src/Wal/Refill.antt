-- ===== src/Wal/Refill.antt =====
-- `read_next` of src/wal/sync.rs reads blocks, over the ends of rotations, until it has an entry.
use dbprimkit.Base.{
  ℕ, zero, suc, ◌+◌, ◌<◌, ◌≡◌, refl, sym, ap, ◌∙◌, List, [], ◌∷◌, ◌++◌, Bool, true, false,
  false≢true, true≢false, some, length, ◌==◌, arith, append_assoc, length-append,
  take-append_of_length, drop-append_of_length, ltb-false, lt→ltb, ==_ne, some-injective,
}
use dbprimkit.Error.{Outcome, ok}
use dbprimkit.Wal.Platform.{Platform}
use dbprimkit.Wal.Packing.{LogEntry}
use dbprimkit.Wal.Reading.{LogIterator, read_block, read_next}
use dbprimkit.Wal.Frames.{Frame, advance_all, Block, all_frames, block_bytes, Whole, lay}
use dbprimkit.Wal.Parsed.{partial_of, gained, advance_all-append, and_then-Halves, read_block_lem}

module _ (p : Platform) {Name : Type 0} (open_rot : Name → Outcome (List ℕ)) where
  -- The rotations hold these blocks.
  abbrev pub Opens : ℕ → List Name → List (List Block) → Type 0
  Opens size [] [] = Unit
  Opens size (n ∷ ns) (bs ∷ rots) =
      (open_rot n ≡ ok (lay p bs)) × Whole p size bs × Opens size ns rots
  Opens size _ _ = ⊥

  -- The frames of several rotations, and how many reads they take.
  abbrev pub rot_frames : List (List Block) → List Frame
  rot_frames [] = []
  rot_frames (bs ∷ rots) = all_frames bs ++ rot_frames rots

  abbrev pub reads : List (List Block) → ℕ
  reads [] = 0
  reads (bs ∷ rots) = suc (length bs + reads rots)

  -- What the iterator still holds: blocks of the rotation that is open, and rotations behind it.
  pub record Pending (it : LogIterator Name) (bs : List Block) (rots : List (List Block))
      (es : List LogEntry) : Type 0 where
    pub late : List LogEntry
    pub ended : ℕ
    pub size_pos : 0 < it.block_size
    pub reader_lem : it.reader ≡ lay p bs
    pub whole : Whole p it.block_size bs
    pub rotations : Opens it.block_size it.rot_names rots
    pub frames_lem :
        advance_all (all_frames bs ++ rot_frames rots) (partial_of it)
        ≡ some (late, record { lsn = ended; bufs = [] })
    pub cached_lem : it.cached ++ late ≡ es

  -- What `read_next` ends in.
  pub record Refilled (fuel ocnt : ℕ) (it : LogIterator Name) (es : List LogEntry) : Type 0 where
    pub more : Bool
    pub it' : LogIterator Name
    pub bs' : List Block
    pub rots' : List (List Block)
    pub read_next_lem : read_next p open_rot fuel ocnt it ≡ ok (more, it')
    pub next_lsn_lem : it'.next_lsn ≡ it.next_lsn
    pub pending' : Pending it' bs' rots' es
    pub fewer : length bs' + reads rots' < fuel
    pub none_more : more ≡ false → es ≡ []
    pub some_more : more ≡ true → 0 < length it'.cached

  Opens-nil : (size : ℕ) (ns : List Name) → Opens size ns [] → ns ≡ []
  Opens-nil size [] o = refl
  Opens-nil size (_ ∷ _) o = absurd o

  -- The rotation that comes next.
  record Next (size : ℕ) (ns : List Name) (bs : List Block) (rots : List (List Block))
      : Type 0 where
    name : Name
    names : List Name
    names_lem : ns ≡ name ∷ names
    open_lem : open_rot name ≡ ok (lay p bs)
    whole : Whole p size bs
    rotations : Opens size names rots

  Opens-cons :
      (size : ℕ) (ns : List Name) (bs : List Block) (rots : List (List Block))
      → Opens size ns (bs ∷ rots)
      → Next size ns bs rots
  Opens-cons size [] bs rots o = absurd o
  Opens-cons size (n ∷ ns) bs rots (o, w, os) = record {
    name = n;
    names = ns;
    names_lem = refl;
    open_lem = o;
    whole = w;
    rotations = os;
  }

  read_next-end :
      (fuel : ℕ) (it : LogIterator Name)
      → length it.reader < it.block_size
      → it.rot_names ≡ []
      → it.middle_log_bufs ≡ []
      → it.cached ≡ []
      → read_next p open_rot (suc fuel) 0 it ≡ ok (false, it)
  unfolding read_next
  read_next-end fuel it l n m c =
      rw (lt→ltb (length it.reader) it.block_size l, read_next, n, read_next, m, c)
        (ap (λ ns. ok (false, record it { cached = []; middle_log_bufs = []; rot_names = ns })) n)

  read_next-rot :
      (fuel ocnt : ℕ) (it : LogIterator Name) (n : Name) (ns : List Name) (rd : List ℕ)
      → length it.reader < it.block_size
      → it.rot_names ≡ n ∷ ns
      → open_rot n ≡ ok rd
      → read_next p open_rot (suc fuel) ocnt it
        ≡ read_next p open_rot fuel ocnt (record it { reader = rd; rot_names = ns })
  unfolding read_next
  read_next-rot fuel ocnt it n ns rd l e o =
      rw (lt→ltb (length it.reader) it.block_size l, read_next, e, read_next, o)

  abbrev after_block : ℕ → ℕ → LogIterator Name → Outcome (Bool × LogIterator Name)
  after_block fuel ocnt it = elim (ocnt == length it.cached) [
    | true ↦ read_next p open_rot fuel ocnt it
    | false ↦ ok (true, it)
  ]

  read_next-block :
      (fuel ocnt : ℕ) (it it' : LogIterator Name) (bs rest : List ℕ)
      → it.reader ≡ bs ++ rest
      → length bs ≡ it.block_size
      → read_block p bs (record it { reader = rest }) ≡ ok it'
      → read_next p open_rot (suc fuel) ocnt it ≡ after_block fuel ocnt it'
  unfolding read_next
  read_next-block fuel ocnt it it' bs rest e l h = rw (
    ltb-false (length it.reader) it.block_size (omega (arith, ap length e, length-append bs rest)),
    read_next,
    e,
    take-append_of_length _ bs rest l,
    drop-append_of_length _ bs rest l,
    h,
  )

  -- One read that leaves the work to the next ones.
  later :
      (fuel : ℕ) (it mid : LogIterator Name) (es : List LogEntry)
      → mid.next_lsn ≡ it.next_lsn
      → read_next p open_rot (suc fuel) 0 it ≡ read_next p open_rot fuel 0 mid
      → Refilled fuel 0 mid es
      → Refilled (suc fuel) 0 it es
  later fuel it mid es n e r = record {
    more = r.more;
    it' = r.it';
    bs' = r.bs';
    rots' = r.rots';
    read_next_lem = e ∙ r.read_next_lem;
    next_lsn_lem = r.next_lsn_lem ∙ n;
    pending' = r.pending';
    fewer = omega (arith, r.fewer);
    none_more = r.none_more;
    some_more = r.some_more;
  }

  -- The iterator behind a block.
  record Behind (it : LogIterator Name) (b : Block) (bs : List Block) (rots : List (List Block))
      (es : List LogEntry) : Type 0 where
    early : List LogEntry
    mid : LogIterator Name
    read_lem : read_block p (block_bytes p b) (record it { reader = lay p bs }) ≡ ok mid
    mid_cached : mid.cached ≡ it.cached ++ early
    mid_next : mid.next_lsn ≡ it.next_lsn
    mid_pending : Pending mid bs rots es

  Behind-block :
      (it : LogIterator Name) (b : Block) (bs : List Block) (rots : List (List Block))
      (es : List LogEntry)
      → Pending it (b ∷ bs) rots es
      → Behind it b bs rots es
  Behind-block it b bs rots es w =
      let ahead = record it { reader = lay p bs } in
      let h =
        and_then-Halves (advance_all (b.frames) (partial_of it))
          (advance_all (all_frames bs ++ rot_frames rots)) (w.late)
          (record { lsn = w.ended; bufs = [] })
          (sym (advance_all-append (b.frames) _ (partial_of it))
            ∙ ap (λ fs. advance_all fs (partial_of it))
                (sym (append_assoc (b.frames) (all_frames bs) (rot_frames rots)))
            ∙ w.frames_lem) in
      record {
        early = h.early;
        mid = gained ahead (h.early) (h.between);
        read_lem =
            read_block_lem p it.block_size b ahead (h.early) (h.between) (w.whole.0) (h.early_lem);
        mid_cached = refl;
        mid_next = refl;
        mid_pending = record {
          late = h.late;
          ended = w.ended;
          size_pos = w.size_pos;
          reader_lem = refl;
          whole = w.whole.1;
          rotations = w.rotations;
          frames_lem = h.late_lem;
          cached_lem =
              append_assoc (it.cached) (h.early) (h.late)
              ∙ ap (λ l. it.cached ++ l) (h.both)
              ∙ w.cached_lem;
        };
      }

  pub refill :
      (fuel : ℕ) (it : LogIterator Name) (bs : List Block) (rots : List (List Block))
      (es : List LogEntry)
      → length bs + reads rots < fuel
      → it.cached ≡ []
      → Pending it bs rots es
      → Refilled fuel 0 it es
  refill zero it bs rots es l c w = absurd (omega arith)
  refill (suc fuel) it [] [] es l c w =
      let done = some-injective _ _ (w.frames_lem) in
      record {
        more = false;
        it' = it;
        bs' = [];
        rots' = [];
        read_next_lem =
            read_next-end fuel it (omega (arith, ap length (w.reader_lem), w.size_pos))
              (Opens-nil _ _ (w.rotations)) (ap (λ r. r.1.bufs) done) c;
        next_lsn_lem = refl;
        pending' = w;
        fewer = l;
        none_more = λ _. sym (w.cached_lem) ∙ ap (λ l. l ++ w.late) c ∙ sym (ap (λ r. r.0) done);
        some_more = λ e. absurd (false≢true e);
      }
  refill (suc fuel) it [] (bs ∷ rots) es l c w =
      let n = Opens-cons _ _ bs rots (w.rotations) in
      let r =
        refill fuel (record it { reader = lay p bs; rot_names = n.names }) bs rots es (omega arith)
          c
          (record {
            late = w.late;
            ended = w.ended;
            size_pos = w.size_pos;
            reader_lem = refl;
            whole = n.whole;
            rotations = n.rotations;
            frames_lem = w.frames_lem;
            cached_lem = w.cached_lem;
          }) in
      later fuel it (record it { reader = lay p bs; rot_names = n.names }) es refl
        (read_next-rot fuel 0 it (n.name) (n.names) (lay p bs)
          (omega (arith, ap length (w.reader_lem), w.size_pos)) (n.names_lem) (n.open_lem))
        r
  refill (suc fuel) it (b ∷ bs) rots es l c w =
      let h = Behind-block it b bs rots es w in
      on (h.early) h (h.mid_cached ∙ ap (λ l. l ++ h.early) c)
        (read_next-block fuel 0 it (h.mid) (block_bytes p b) (lay p bs) (w.reader_lem) (w.whole.0.1)
          (h.read_lem))
        (refill fuel (h.mid) bs rots es (omega arith))
    where
      on :
          (early : List LogEntry) (h : Behind it b bs rots es)
          → h.mid.cached ≡ early
          → read_next p open_rot (suc fuel) 0 it ≡ after_block fuel 0 (h.mid)
          → (h.mid.cached ≡ [] → Pending (h.mid) bs rots es → Refilled fuel 0 (h.mid) es)
          → Refilled (suc fuel) 0 it es
      on [] h c e again =
          later fuel it (h.mid) es (h.mid_next) (e ∙ rw (c)) (again c (h.mid_pending))
      on (x ∷ xs) h c e again = record {
        more = true;
        it' = h.mid;
        bs' = bs;
        rots' = rots;
        read_next_lem =
            e
            ∙ ap
                (λ b. elim b [
                  | true ↦ read_next p open_rot fuel 0 (h.mid)
                  | false ↦ ok (true, h.mid)
                ])
                (==_ne 0 (length h.mid.cached) (omega (arith, ap length c)));
        next_lsn_lem = h.mid_next;
        pending' = h.mid_pending;
        fewer = omega arith;
        none_more = λ t. absurd (true≢false t);
        some_more = λ _. omega (arith, ap length c);
      }
