-- ===== src/Storage/Log/Steps.antt =====
-- How the parts of Append and of the syncer change the shape of a log.
use gokvx.Prelude.{
  ℕ, ◌+◌, ◌≡◌, refl, ap, ◌∙◌, sym, true, List, [], ◌∷◌, ◌++◌, length, length-append, append_assoc,
  append-nil, none, some, arith, All, All-append,
}
use gokvx.Prelude.Bytes.{Bytes}
use gokvx.Storage.Record.{encode_record}
use gokvx.Storage.Segment.{Segment}
use gokvx.Storage.Disk.{File, Files, file_of, update, extend}
use gokvx.Storage.Disk.Frame.{KeepsAt, KeepsAll, KeepsAt-update_ne, file_of-update_self}
use gokvx.Storage.Stream.{Commands, Fits, encode_all, encode_all-append, encode_all_one}
use gokvx.Storage.Log.{Log, World, set_last}
use gokvx.Storage.Log.Shape.{
  IsSealed, IsSealed-keeps, IsSealed-append, concat, concat-append, Apart, PartOf, PartOf-nil,
  Shape,
}

All-KeepsAt :
    {fs fs' : Files} (ss : List Segment) → KeepsAll fs fs' → All (λ s. KeepsAt s.path fs fs') ss
All-KeepsAt [] k = tt
All-KeepsAt (s ∷ ss) k = (k s.path, All-KeepsAt ss k)

Apart-KeepsAt :
    (p : Bytes) (g : File → File) (fs : Files) (ss : List Segment)
    → Apart p ss
    → All (λ s. KeepsAt s.path fs (update p g fs)) ss
Apart-KeepsAt p g fs [] h = tt
Apart-KeepsAt p g fs (s ∷ ss) h = (KeepsAt-update_ne p s.path g fs h.0, Apart-KeepsAt p g fs ss h.1)

grown_by :
    (bytes : Bytes) (f : File) → length (extend bytes f).content ≡ length f.content + length bytes
unfolding extend
grown_by bytes f = length-append f.content bytes

-- The log differs from another in nothing that the shape of it speaks of.
pub record SameLog (l l' : Log) : Type 0 where
  pub segments : l'.segments ≡ l.segments
  pub active : l'.active ≡ l.active
  pub last_index : l'.last_index ≡ l.last_index
  pub active_size : l'.active_size ≡ l.active_size
  pub failed : l'.failed ≡ none → l.failed ≡ none

module _ {w : World} {base : ℕ} {cmds : Commands} (w' : World) where
  pub Shape-keeps :
      {junk : Bytes}
      → SameLog w.log w'.log
      → KeepsAll w.disk.files w'.disk.files
      → Shape w base cmds junk
      → Shape w' base cmds junk
  Shape-keeps l k s =
      let (f, p, e, x) = (k s.current.path).at s.cur.file s.cur.at in
      record {
        sealed = s.sealed;
        batches = s.batches;
        current = s.current;
        batch = s.batch;
        segments_eq = l.segments ∙ s.segments_eq;
        old = IsSealed-keeps _ _ base s.sealed s.batches (All-KeepsAt s.sealed k) s.old;
        cur = record {
          file = f;
          at = p;
          content = e ∙ s.cur.content;
          linked = x s.cur.linked;
          count = s.cur.count;
        };
        apart = s.apart;
        cur_first = s.cur_first;
        commands_eq = s.commands_eq;
        fits = s.fits;
        last_eq = rw l.last_index s.last_eq;
        active_eq = l.active ∙ s.active_eq;
        size_eq = λ h. l.active_size ∙ s.size_eq (l.failed h) ∙ ap length (sym e);
        part = s.part;
      }

  -- Bytes are appended to the file of the last segment.
  pub Shape-extend :
      (bytes : Bytes)
      → w'.log.segments ≡ w.log.segments
      → w'.log.active ≡ w.log.active
      → w'.log.last_index ≡ w.log.last_index
      → (w'.log.failed ≡ none
          → (w.log.failed ≡ none) × (w'.log.active_size ≡ w.log.active_size + length bytes))
      → w'.disk.files ≡ update w.log.active (extend bytes) w.disk.files
      → PartOf (base + length cmds) bytes
      → Shape w base cmds []
      → Shape w' base cmds bytes
  Shape-extend bytes a b c d e part s = record {
    sealed = s.sealed;
    batches = s.batches;
    current = s.current;
    batch = s.batch;
    segments_eq = a ∙ s.segments_eq;
    old =
        IsSealed-keeps _ _ base s.sealed s.batches
          (rw (e, s.active_eq)
            (Apart-KeepsAt s.current.path (extend bytes) w.disk.files s.sealed s.apart))
          s.old;
    cur = record {
      file = extend bytes s.cur.file;
      at =
          rw (e, s.active_eq)
            (file_of-update_self s.current.path (extend bytes) w.disk.files s.cur.file s.cur.at);
      content = grown;
      linked = unfold extend in s.cur.linked;
      count = s.cur.count;
    };
    apart = s.apart;
    cur_first = s.cur_first;
    commands_eq = s.commands_eq;
    fits = s.fits;
    last_eq = rw c s.last_eq;
    active_eq = b ∙ s.active_eq;
    size_eq = λ h.
        (d h).1 ∙ rw (grown_by bytes s.cur.file) (ap (λ n. n + length bytes) (s.size_eq (d h).0));
    part = part;
  }
    where
      grown : (extend bytes s.cur.file).content ≡ encode_all s.current.first s.batch ++ bytes
      grown =
          unfold extend in
          ap (λ t. t ++ bytes) (s.cur.content ∙ append-nil (encode_all s.current.first s.batch))

pub set_last-append :
    (index : ℕ) (ss : List Segment) (s : Segment)
    → set_last index (ss ++ s ∷ []) ≡ ss ++ record s { last = index } ∷ []
unfolding set_last
set_last-append index [] s = refl
set_last-append index (t ∷ []) s = refl
set_last-append index (t ∷ u ∷ ss) s = ap (λ l. t ∷ l) (set_last-append index (u ∷ ss) s)

-- The record behind the last one is made the last one.
pub Shape-commit :
    {w : World} {base : ℕ} {cmds : Commands} (w' : World) (index : ℕ) (c : Bytes)
    → Fits c
    → index ≡ base + length cmds
    → w.log.failed ≡ none
    → w'.log.segments ≡ set_last index w.log.segments
    → w'.log.active ≡ w.log.active
    → w'.log.last_index ≡ index
    → w'.log.active_size ≡ w.log.active_size
    → w'.disk ≡ w.disk
    → Shape w base cmds (encode_record index c)
    → Shape w' base (cmds ++ c ∷ []) []
Shape-commit {w} {base} {cmds} w' index c hc at ok' segs act last size disk s = record {
  sealed = s.sealed;
  batches = s.batches;
  current = record s.current { last = index };
  batch = s.batch ++ c ∷ [];
  segments_eq = segs ∙ ap (set_last index) s.segments_eq ∙ set_last-append index s.sealed s.current;
  old = rw disk s.old;
  cur = record {
    file = s.cur.file;
    at = rw disk s.cur.at;
    content = whole;
    linked = s.cur.linked;
    count = rw length-append (omega (arith, first_eq));
  };
  apart = s.apart;
  cur_first = s.cur_first;
  commands_eq =
      ap (λ l. l ++ c ∷ []) s.commands_eq ∙ append_assoc (concat s.batches) s.batch (c ∷ []);
  fits = All-append Fits cmds (c ∷ []) s.fits (hc, tt);
  last_eq = rw length-append (omega (arith, last));
  active_eq = act ∙ s.active_eq;
  size_eq = λ h. size ∙ s.size_eq ok';
  part = PartOf-nil _;
}
  where
    first_eq : s.current.first + length s.batch ≡ index
    first_eq =
        omega
          (arith, s.cur_first, ap length s.commands_eq, length-append (concat s.batches) s.batch)

    whole : s.cur.file.content ≡ encode_all s.current.first (s.batch ++ c ∷ []) ++ []
    whole =
        s.cur.content
        ∙ sym (
            append-nil (encode_all s.current.first (s.batch ++ c ∷ []))
            ∙ encode_all-append s.current.first s.batch (c ∷ [])
            ∙ ap (λ t. encode_all s.current.first s.batch ++ t)
                (encode_all_one (s.current.first + length s.batch) c
                  ∙ ap (λ i. encode_record i c) first_eq))

-- A name that no file has is apart from every segment.
Apart-free :
    (p : Bytes) (fs : Files) (n : ℕ) (ss : List Segment) (css : List Commands)
    → file_of p fs ≡ none
    → IsSealed fs n ss css
    → Apart p ss
Apart-free p fs n [] css h x = tt
Apart-free p fs n (s ∷ ss) [] h x = absurd x
Apart-free p fs n (s ∷ ss) (cs ∷ css) h x =
    (λ e. cc (x.0.at, h, ap (λ k. file_of k fs) e), Apart-free p fs (n + length cs) ss css h x.2)

-- A new segment behind the last one.
pub Shape-start :
    {w : World} {base : ℕ} {cmds : Commands} (w' : World) (seg : Segment) (f : File)
    → file_of seg.path w.disk.files ≡ none
    → KeepsAll w.disk.files w'.disk.files
    → file_of seg.path w'.disk.files ≡ some f
    → f.content ≡ []
    → f.linked ≡ true
    → seg.first ≡ base + length cmds
    → seg.last + 1 ≡ seg.first
    → w'.log.segments ≡ w.log.segments ++ seg ∷ []
    → w'.log.active ≡ seg.path
    → w'.log.last_index ≡ w.log.last_index
    → w'.log.active_size ≡ 0
    → Shape w base cmds []
    → Shape w' base cmds []
Shape-start {w} {base} {cmds} w' seg f free keeps made empty linked first last segs act idx size s =
    record {
      sealed = s.sealed ++ s.current ∷ [];
      batches = s.batches ++ s.batch ∷ [];
      current = seg;
      batch = [];
      segments_eq = segs ∙ ap (λ l. l ++ seg ∷ []) s.segments_eq;
      old =
          IsSealed-keeps _ _ base (s.sealed ++ s.current ∷ []) (s.batches ++ s.batch ∷ [])
            (All-KeepsAt (s.sealed ++ s.current ∷ []) keeps) sealed_all;
      cur = record {
        file = f;
        at = made;
        content = empty ∙ none_yet;
        linked = linked;
        count = omega arith;
      };
      apart =
          Apart-free seg.path w.disk.files base (s.sealed ++ s.current ∷ [])
            (s.batches ++ s.batch ∷ []) free sealed_all;
      cur_first = first ∙ ap (λ l. base + length l) commands_eq;
      commands_eq = commands_eq ∙ sym (append-nil _);
      fits = s.fits;
      last_eq = rw idx s.last_eq;
      active_eq = act;
      size_eq = λ h. size ∙ sym (ap length empty);
      part = PartOf-nil _;
    }
  where
    sealed_all : IsSealed w.disk.files base (s.sealed ++ s.current ∷ []) (s.batches ++ s.batch ∷ [])
    sealed_all =
        IsSealed-append w.disk.files base s.sealed s.batches s.current s.batch s.old s.cur
          s.cur_first

    commands_eq : cmds ≡ concat (s.batches ++ s.batch ∷ [])
    commands_eq = s.commands_eq ∙ sym (concat-append s.batches s.batch)

    none_yet : ◌≡◌ {A = Bytes} [] (encode_all seg.first [] ++ [])
    none_yet = unfold encode_all in refl
