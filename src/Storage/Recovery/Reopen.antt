-- ===== src/Storage/Recovery/Reopen.antt =====
-- Opening what Append left on disk.
use gokvx.Prelude.{
  ℕ, ◌+◌, ◌-◌, ◌≤◌, ◌<◌, ◌≡◌, refl, ap, ◌∙◌, true, false, List, [], ◌∷◌, ◌++◌, length,
  length-append, Option, none, some, arith, ok, err, All, All-append, append-nil, ==_iff,
}
use gokvx.Prelude.Bytes.{Bytes}
use gokvx.Prelude.Words.{u64_mod, add64, add64_fits}
use gokvx.Kverr.Error.{GoError}
use gokvx.Storage.Segment.{Segment}
use gokvx.Storage.Disk.{File, Files, Disk, file_of, call}
use gokvx.Storage.Disk.Frame.{KeepsAt}
use gokvx.Storage.Stream.{Commands, Fits, encode_all}
use gokvx.Storage.Log.{Log, LogConfig}
use gokvx.Storage.Log.Shape.{IsSealed, concat, Apart}
use gokvx.Storage.Recovery.{
  Verified, verify_segment, verify_all, prepend, opened, then_reopen, follows, reopen, recover_from,
  last_segment, is_nil,
}
use gokvx.Storage.Recovery.Verify.{sound_disk, counted, verify_intact}

-- The file of a segment holds the records of `cs`, and `part` behind them.
pub record Stored (fs : Files) (s : Segment) (cs : Commands) (part : Bytes) : Type 0 where
  pub file : File
  pub at : file_of s.path fs ≡ some file
  pub content : file.content ≡ encode_all s.first cs ++ part
  pub linked : file.linked ≡ true

-- Segments of consecutive records from index `n` on, as they are listed.
abbrev pub AllStored : Files → ℕ → List Segment → List Commands → Type 0
AllStored fs n [] [] = Unit
AllStored fs n [] (cs ∷ css) = ⊥
AllStored fs n (s ∷ ss) [] = ⊥
AllStored fs n (s ∷ ss) (cs ∷ css) =
    Stored fs s cs [] × (s.first ≡ n) × All Fits cs × AllStored fs (n + length cs) ss css

-- The listed segments with their last indices set.
abbrev pub all_counted : List Segment → List Commands → List Segment
all_counted [] css = []
all_counted (s ∷ ss) [] = []
all_counted (s ∷ ss) (cs ∷ css) = counted s cs ∷ all_counted ss css

not_nil : (seg : Segment) (ss : List Segment) → is_nil (ss ++ seg ∷ []) ≡ false
unfolding is_nil
not_nil seg [] = refl
not_nil seg (s ∷ ss) = refl

next_follows :
    (s : Segment) (ds : Commands) (t : Segment)
    → t.first ≡ s.first + length ds
    → 1 ≤ s.first
    → s.first + length ds < u64_mod
    → follows (some (counted s ds)) t ≡ true
unfolding follows
next_follows s ds t e pos small =
    (==_iff t.first (add64 (s.first + length ds - 1) 1)).1
      (omega (arith, add64_fits (s.first + length ds - 1) 1 (omega arith)))

-- The segments `ss`, verified, in front of the outcome of the last one.
pub prepend_all : List Segment → List Commands → Verified → Verified
prepend_all [] css out = out
prepend_all (s ∷ ss) [] out = out
prepend_all (s ∷ ss) (ds ∷ css) out =
    prepend (counted s ds) (length (encode_all s.first ds)) false (prepend_all ss css out)

module _ (fs : Files) (folders : List Bytes) (seg : Segment) (out : Verified)
    (alone : (prev : Option Segment)
      → follows prev seg ≡ true
      → verify_all prev (seg ∷ []) (sound_disk fs folders) ≡ out) where
  next_verified :
      (prev : Option Segment) (s : Segment) (ss : List Segment) (ds : Commands)
      → follows prev s ≡ true
      → Stored fs s ds []
      → All Fits ds
      → 1 ≤ s.first
      → s.first + length ds < u64_mod
      → verify_all prev (s ∷ ss ++ seg ∷ []) (sound_disk fs folders)
        ≡ prepend
            (counted s ds)
            (length (encode_all s.first ds))
            false
            (verify_all (some (counted s ds)) (ss ++ seg ∷ []) (sound_disk fs folders))
  unfolding verify_all
  next_verified prev s ss ds f st fits pos small = rw (
    f,
    verify_all,
    verify_intact s ds fs folders st.file st.at fits pos small (is_nil (ss ++ seg ∷ []))
        (st.content ∙ append-nil (encode_all s.first ds)),
    not_nil seg ss,
  )

  pub all_verified :
      (prev : Option Segment) (n : ℕ) (ss : List Segment) (css : List Commands)
      → AllStored fs n ss css
      → seg.first ≡ n + length (concat css)
      → 1 ≤ n
      → seg.first < u64_mod
      → ((s : Segment) → s.first ≡ n → follows prev s ≡ true)
      → verify_all prev (ss ++ seg ∷ []) (sound_disk fs folders) ≡ prepend_all ss css out
  unfolding prepend_all
  all_verified prev n [] [] st e pos small p = alone prev (p seg (omega arith))
  all_verified prev n [] (ds ∷ css) st e pos small p = absurd st
  all_verified prev n (s ∷ ss) [] st e pos small p = absurd st
  all_verified prev n (s ∷ ss) (ds ∷ css) (st, at, fits, more) e pos small p =
      next_verified prev s ss ds (p s at) st fits (omega arith)
        (omega (arith, length-append ds (concat css)))
      ∙ ap (prepend (counted s ds) (length (encode_all s.first ds)) false) (
          all_verified (some (counted s ds)) (n + length ds) ss css more
            (omega (arith, length-append ds (concat css))) (omega arith) small
            (λ t q.
              next_follows s ds t (omega arith) (omega arith)
                (omega (arith, length-append ds (concat css)))))

pub prepend_all-ok :
    (fs : Files) (n : ℕ) (ss : List Segment) (css : List Commands) (segs : List Segment) (size : ℕ)
    (d : Disk)
    → AllStored fs n ss css
    → prepend_all ss css (ok (segs, size), d) ≡ (ok (all_counted ss css ++ segs, size), d)
unfolding prepend_all
prepend_all-ok fs n [] [] segs size d st = refl
prepend_all-ok fs n [] (ds ∷ css) segs size d st = absurd st
prepend_all-ok fs n (s ∷ ss) [] segs size d st = absurd st
prepend_all-ok fs n (s ∷ ss) (ds ∷ css) segs size d (st, at, fits, more) =
    rw (prepend_all-ok fs (n + length ds) ss css segs size d more)

pub prepend_all-err :
    (ss : List Segment) (css : List Commands) (e : GoError) (d : Disk)
    → prepend_all ss css (err e, d) ≡ (err e, d)
unfolding prepend_all
prepend_all-err [] css e d = refl
prepend_all-err (s ∷ ss) [] e d = refl
prepend_all-err (s ∷ ss) (ds ∷ css) e d = rw (prepend_all-err ss css e d)

-- A last segment alone, by the outcome of verifySegment.
pub alone_ok :
    (prev : Option Segment) (seg seg' : Segment) (size : ℕ) (d d' : Disk)
    → verify_segment seg true d ≡ (ok (seg', size), d')
    → follows prev seg ≡ true
    → verify_all prev (seg ∷ []) d ≡ (ok (seg' ∷ [], size), d')
unfolding verify_all is_nil
alone_ok prev seg seg' size d d' v f = rw (f, verify_all, v)

pub alone_err :
    (prev : Option Segment) (seg : Segment) (e : GoError) (d d' : Disk)
    → verify_segment seg true d ≡ (err e, d')
    → follows prev seg ≡ true
    → verify_all prev (seg ∷ []) d ≡ (err e, d')
unfolding verify_all is_nil
alone_err prev seg e d d' v f = rw (f, verify_all, v)

last_segment-append : (s t : Segment) (ss : List Segment) → last_segment s (ss ++ t ∷ []) ≡ t
unfolding last_segment
last_segment-append s t [] = refl
last_segment-append s t (u ∷ ss) = last_segment-append u t ss

-- The log that recover opens over some segments, the last of which is `t`.
abbrev pub log_over : LogConfig → List Segment → Segment → ℕ → Log
log_over cfg ss t size = record {
  cfg = cfg;
  segments = ss ++ t ∷ [];
  active = t.path;
  active_size = size;
  last_index = t.last;
  dirty = false;
  failed = none;
  closed = false;
}

pub reopen_last :
    (cfg : LogConfig) (ss : List Segment) (t : Segment) (size : ℕ) (fs : Files)
    (folders : List Bytes)
    → reopen cfg (ss ++ t ∷ [], size) (sound_disk fs folders)
      ≡ (ok (log_over cfg ss t size), sound_disk fs folders)
unfolding reopen opened call
reopen_last cfg [] t size fs folders = unfold last_segment in refl
reopen_last cfg (s ∷ ss) t size fs folders = rw last_segment-append

pub recover_verified :
    (cfg : LogConfig) (ss : List Segment) (seg : Segment) (d : Disk) {v : Verified}
    → verify_all none (ss ++ seg ∷ []) d ≡ v
    → recover_from cfg (ss ++ seg ∷ []) d ≡ then_reopen cfg v
unfolding recover_from
recover_verified cfg [] seg d e = ap (then_reopen cfg) e
recover_verified cfg (s ∷ ss) seg d e = ap (then_reopen cfg) e

pub IsSealed-counted :
    (fs fs' : Files) (n : ℕ) (ss : List Segment) (css : List Commands)
    → AllStored fs n ss css
    → All (λ s. KeepsAt s.path fs fs') ss
    → 1 ≤ n
    → IsSealed fs' n (all_counted ss css) css
IsSealed-counted fs fs' n [] [] st k pos = tt
IsSealed-counted fs fs' n [] (ds ∷ css) st k pos = st
IsSealed-counted fs fs' n (s ∷ ss) [] st k pos = absurd st
IsSealed-counted fs fs' n (s ∷ ss) (ds ∷ css) (st, at, fits, more) k pos =
    let (f, p, e, l) = k.0.at st.file st.at in
    (
      record {
        file = f;
        at = p;
        content = e ∙ st.content;
        linked = l st.linked;
        count = omega arith;
      },
      at,
      IsSealed-counted fs fs' (n + length ds) ss css more k.1 (omega arith),
    )

pub Apart-counted :
    (p : Bytes) (ss : List Segment) (css : List Commands)
    → Apart p ss
    → Apart p (all_counted ss css)
Apart-counted p [] css h = tt
Apart-counted p (s ∷ ss) [] h = tt
Apart-counted p (s ∷ ss) (ds ∷ css) h = (h.0, Apart-counted p ss css h.1)

pub All-Fits :
    (fs : Files) (n : ℕ) (ss : List Segment) (css : List Commands)
    → AllStored fs n ss css
    → All Fits (concat css)
All-Fits fs n [] [] st = tt
All-Fits fs n [] (ds ∷ css) st = absurd st
All-Fits fs n (s ∷ ss) [] st = absurd st
All-Fits fs n (s ∷ ss) (ds ∷ css) (st, at, fits, more) =
    All-append Fits ds (concat css) fits (All-Fits fs (n + length ds) ss css more)
