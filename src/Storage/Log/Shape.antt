-- ===== src/Storage/Log/Shape.antt =====
-- What a log and its disk look like between two steps.
use gokvx.Prelude.{
  ℕ, ◌+◌, ◌≡◌, ◌≢◌, refl, ◌∙◌, sym, true, List, [], ◌∷◌, ◌++◌, length, length-append, take,
  append_assoc, append-nil, none, some, arith, All,
}
use gokvx.Prelude.Bytes.{Bytes}
use gokvx.Storage.Record.{encode_record}
use gokvx.Storage.Segment.{Segment}
use gokvx.Storage.Disk.{File, Files, file_of}
use gokvx.Storage.Disk.Frame.{KeepsAt}
use gokvx.Storage.Stream.{Commands, Fits, encode_all}
use gokvx.Storage.Log.{World}

-- The file of a segment holds the records of `cs`, and `junk` behind them.
pub record Holds (fs : Files) (s : Segment) (cs : Commands) (junk : Bytes) : Type 0 where
  pub file : File
  pub at : file_of s.path fs ≡ some file
  pub content : file.content ≡ encode_all s.first cs ++ junk
  pub linked : file.linked ≡ true
  pub count : s.last + 1 ≡ s.first + length cs

pub Holds-keeps :
    {fs fs' : Files} {s : Segment} {cs : Commands} {junk : Bytes}
    → KeepsAt s.path fs fs'
    → Holds fs s cs junk
    → Holds fs' s cs junk
Holds-keeps k h =
    let (f, p, e, l) = k.at h.file h.at in
    record { file = f; at = p; content = e ∙ h.content; linked = l h.linked; count = h.count }

-- The segments before the last one, of consecutive records from index `n` on.
abbrev pub IsSealed : Files → ℕ → List Segment → List Commands → Type 0
IsSealed fs n [] [] = Unit
IsSealed fs n [] (cs ∷ css) = ⊥
IsSealed fs n (s ∷ ss) [] = ⊥
IsSealed fs n (s ∷ ss) (cs ∷ css) =
    Holds fs s cs [] × (s.first ≡ n) × IsSealed fs (n + length cs) ss css

abbrev pub concat : List Commands → Commands
concat [] = []
concat (cs ∷ css) = cs ++ concat css

pub IsSealed-keeps :
    (fs fs' : Files) (n : ℕ) (ss : List Segment) (css : List Commands)
    → All (λ s. KeepsAt s.path fs fs') ss
    → IsSealed fs n ss css
    → IsSealed fs' n ss css
IsSealed-keeps fs fs' n [] [] k h = tt
IsSealed-keeps fs fs' n [] (cs ∷ css) k h = h
IsSealed-keeps fs fs' n (s ∷ ss) [] k h = h
IsSealed-keeps fs fs' n (s ∷ ss) (cs ∷ css) k h =
    (Holds-keeps k.0 h.0, h.1, IsSealed-keeps fs fs' (n + length cs) ss css k.1 h.2)

-- One more sealed segment at the end.
pub IsSealed-append :
    (fs : Files) (n : ℕ) (ss : List Segment) (css : List Commands) (s : Segment) (cs : Commands)
    → IsSealed fs n ss css
    → Holds fs s cs []
    → s.first ≡ n + length (concat css)
    → IsSealed fs n (ss ++ s ∷ []) (css ++ cs ∷ [])
IsSealed-append fs n [] [] s cs h x e = (x, omega arith, tt)
IsSealed-append fs n [] (ds ∷ css) s cs h x e = absurd h
IsSealed-append fs n (t ∷ ss) [] s cs h x e = absurd h
IsSealed-append fs n (t ∷ ss) (ds ∷ css) s cs h x e = (
  h.0,
  h.1,
  IsSealed-append fs (n + length ds) ss css s cs h.2 x
      (omega (arith, length-append ds (concat css))),
)

pub concat-append :
    (css : List Commands) (cs : Commands) → concat (css ++ cs ∷ []) ≡ concat css ++ cs
concat-append [] cs = append-nil cs
concat-append (ds ∷ css) cs = rw (concat-append css cs) (sym (append_assoc ds (concat css) cs))

-- No file of a sealed segment is called `p`.
abbrev pub Apart : Bytes → List Segment → Type 0
Apart p = All (λ s. p ≢ s.path)

-- Bytes that a write of one record can have left behind the records before it.
pub record PartOf (next : ℕ) (junk : Bytes) : Type 0 where
  pub command : Bytes
  pub size : ℕ
  pub fits : Fits command
  pub part : junk ≡ take size (encode_record next command)

pub PartOf-nil : (next : ℕ) → PartOf next []
PartOf-nil next = record { command = []; size = 0; fits = omega arith; part = refl }

-- The log `w` holds the commands `cmds`, numbered from `base` on; `junk` stands behind the last
-- record.
pub record Shape (w : World) (base : ℕ) (cmds : Commands) (junk : Bytes) : Type 0 where
  pub sealed : List Segment
  pub batches : List Commands
  pub current : Segment
  pub batch : Commands
  pub segments_eq : w.log.segments ≡ sealed ++ current ∷ []
  pub old : IsSealed w.disk.files base sealed batches
  pub cur : Holds w.disk.files current batch junk
  pub apart : Apart current.path sealed
  pub cur_first : current.first ≡ base + length (concat batches)
  pub commands_eq : cmds ≡ concat batches ++ batch
  pub fits : All Fits cmds
  pub last_eq : w.log.last_index + 1 ≡ base + length cmds
  pub active_eq : w.log.active ≡ current.path
  pub size_eq : w.log.failed ≡ none → w.log.active_size ≡ length cur.file.content
  pub part : PartOf (base + length cmds) junk

-- The invariant: without a failure, nothing stands behind the last record.
pub record IsLog (w : World) (base : ℕ) (cmds : Commands) : Type 0 where
  pub junk : Bytes
  pub shape : Shape w base cmds junk
  pub clean : w.log.failed ≡ none → junk ≡ []
