-- ===== src/Storage/Recovery/Replayed.antt =====
-- internal/storage/log.go, Replay: what it hands over of a whole log.
use gokvx.Prelude.{
  ℕ, suc, ◌+◌, ◌≤◌, ◌<◌, ltb, ltb→lt, leb, if◌then◌else◌, ◌||◌, Bool, true, false, Bool-cases, List,
  [], ◌∷◌, ◌++◌, length, length-append, Option, none, ok, arith, ◌≡◌, refl, ap, sym, ◌∙◌, inl, inr,
  All,
}
use mathlib.Core.Path.{subst}
use gokvx.Prelude.Bytes.{Bytes}
use gokvx.Prelude.Words.{u64_mod}
use gokvx.Kverr.Error.{GoError}
use gokvx.Storage.Segment.{Segment}
use gokvx.Storage.Disk.{Disk, Files, read_file}
use gokvx.Storage.Stream.{Commands, Fits, encode_all}
use gokvx.Storage.Log.{World}
use gokvx.Storage.Log.Shape.{Holds, IsSealed, concat, IsLog}
use gokvx.Storage.Log.Replay.{
  replay, replay_segments, replay_segment, replay_records, replay_segment, replay_content,
  replay_records-encode_all, visit_all, sound_visit,
}
use gokvx.Storage.Recovery.Verify.{sound_disk, read_sound}
use gokvx.Storage.Recovery.Unread.{All-left, All-right}

read_held :
    {fs : Files} {s : Segment} {cs : Commands} {junk : Bytes} (folders : List Bytes)
    (h : Holds fs s cs junk)
    → read_file s.path (sound_disk fs folders)
      ≡ (ok (encode_all s.first cs ++ junk), sound_disk fs folders)
read_held {fs} {s} folders h =
    read_sound s.path fs folders h.file h.at ∙ ap (λ c. (ok c, sound_disk fs folders)) h.content

module _ {S : Type 0} (from : ℕ) (f : ℕ → Bytes → S → S) where
  visit_all-append :
      (cs ds : Commands) (i : ℕ) (s : S)
      → visit_all from f i (cs ++ ds) s
        ≡ visit_all from f (i + length cs) ds (visit_all from f i cs s)
  visit_all-append [] ds i s = ap (λ k. visit_all from f k ds s) (omega arith)
  visit_all-append (c ∷ cs) ds i s =
      visit_all-append cs ds (suc i) _
      ∙ ap
          (λ k.
            visit_all from f k ds (visit_all from f (suc i) cs (if leb from i then f i c s else s)))
          (omega arith)

  -- Nothing is handed over before the index `from`.
  visit_all_before :
      (cs : Commands) (i : ℕ) (s : S) → i + length cs ≤ from → visit_all from f i cs s ≡ s
  visit_all_before [] i s h = refl
  visit_all_before (c ∷ cs) i s h = rw (late) (visit_all_before cs (suc i) s (omega (arith, h)))
    where
      late : leb from i ≡ false
      late = ground (arith, h)

  visit_all_none : (cs : Commands) (i : ℕ) (s : S) → length cs ≡ 0 → visit_all from f i cs s ≡ s
  visit_all_none [] i s h = refl
  visit_all_none (c ∷ cs) i s h = absurd (omega (arith, h))

module _ {S : Type 0} (ctx : ℕ → Option GoError) (live : (i : ℕ) → ctx i ≡ none) (from : ℕ)
    (f : ℕ → Bytes → S → S) (folders : List Bytes) (last : ℕ) (fs : Files) where
  skipped :
      {seg : Segment} {cs : Commands} {junk : Bytes} (s : S)
      → Holds fs seg cs junk
      → seg.last ≤ last
      → (ltb seg.last from || ltb last seg.first) ≡ true
      → visit_all from f seg.first cs s ≡ s
  skipped {seg} {cs} s h le e = elim (Bool-cases (ltb seg.last from)) [
    | inl p ↦
        visit_all_before from f cs seg.first s (omega (arith, h.count, ltb→lt seg.last from p))
    | inr p ↦
        visit_all_none from f cs seg.first s
          (omega (arith, h.count, le, ltb→lt last seg.first (later p e)))
  ]
    where
      later : {x y : Bool} → x ≡ false → (x || y) ≡ true → y ≡ true
      later p e = ground (arith, p, e)

  handed :
      {seg : Segment} {cs : Commands} {junk : Bytes} (s : S)
      → Holds fs seg cs junk
      → All Fits cs
      → seg.first + length cs < u64_mod
      → seg.last ≤ last
      → replay_content ctx from last (sound_visit f) seg (ok (encode_all seg.first cs ++ junk)) s
        ≡ (none, visit_all from f seg.first cs s)
  unfolding replay_content
  handed {seg} {cs} {junk} s h fits small le =
      ap
        (λ n.
          replay_records ctx from (sound_visit f) n seg.first (encode_all seg.first cs ++ junk) s)
        (omega (arith, h.count, le))
      ∙ replay_records-encode_all ctx live from f cs seg.first junk s fits small

  segment_handed :
      {seg : Segment} {cs : Commands} {junk : Bytes} (s : S)
      → Holds fs seg cs junk
      → All Fits cs
      → seg.first + length cs < u64_mod
      → seg.last ≤ last
      → replay_segment ctx from last (sound_visit f) seg (sound_disk fs folders) s
        ≡ ((none, visit_all from f seg.first cs s), sound_disk fs folders)
  unfolding replay_segment
  segment_handed {seg} s h fits small le =
      ap (λ r. (replay_content ctx from last (sound_visit f) seg r.0 s, r.1)) (read_held folders h)
      ∙ ap (λ o. (o, sound_disk fs folders)) (handed s h fits small le)

  -- One segment of the log.
  replay_one :
      {seg : Segment} {cs : Commands} {junk : Bytes} (rest : List Segment) (s : S)
      → Holds fs seg cs junk
      → All Fits cs
      → seg.first + length cs < u64_mod
      → seg.last ≤ last
      → replay_segments ctx from last (sound_visit f) (seg ∷ rest) (sound_disk fs folders) s
        ≡ replay_segments ctx from last
            (sound_visit f)
            rest
            (sound_disk fs folders)
            (visit_all from f seg.first cs s)
  unfolding replay_segments
  replay_one {seg} {cs} {junk} rest s h fits small le =
      elim (Bool-cases (ltb seg.last from || ltb last seg.first)) [
        | inl e ↦
            rw (replay_segments, e)
              (ap (replay_segments ctx from last (sound_visit f) rest (sound_disk fs folders))
                (sym (skipped s h le e)))
        | inr e ↦ rw (replay_segments, e, segment_handed s h fits small le) refl
      ]

  -- The segments before the last one.
  replay_sealed :
      (n : ℕ) (ss : List Segment) (css : List Commands) (tail : List Segment) (s : S)
      → IsSealed fs n ss css
      → All Fits (concat css)
      → n + length (concat css) ≤ last + 1
      → last + 1 < u64_mod
      → replay_segments ctx from last (sound_visit f) (ss ++ tail) (sound_disk fs folders) s
        ≡ replay_segments ctx from last
            (sound_visit f)
            tail
            (sound_disk fs folders)
            (visit_all from f n (concat css) s)
  replay_sealed n [] [] tail s h fits le small = refl
  replay_sealed n [] (ds ∷ css) tail s h fits le small = absurd h
  replay_sealed n (seg ∷ ss) [] tail s h fits le small = absurd h
  replay_sealed n (seg ∷ ss) (ds ∷ css) tail s (h, at, more) fits le small =
      replay_one (ss ++ tail) s h (All-left ds (concat css) fits) (omega (arith, at, total))
        (omega (arith, at, total, h.count))
      ∙ ap
          (λ k.
            replay_segments ctx from last (sound_visit f) (ss ++ tail) (sound_disk fs folders)
              (visit_all from f k ds s))
          at
      ∙ replay_sealed (n + length ds) ss css tail (visit_all from f n ds s) more
          (All-right ds (concat css) fits) (omega (arith, total)) small
      ∙ ap (replay_segments ctx from last (sound_visit f) tail (sound_disk fs folders))
          (sym (visit_all-append from f ds (concat css) n s))
    where
      total : n + (length ds + length (concat css)) ≤ last + 1
      total = omega (arith, le, length-append ds (concat css))

-- Replay of a log in any state that a run leaves, with a live context and a disk whose calls succeed,
-- to a caller's function that does not fail: it hands over every acknowledged command with an index
-- from `from` on, once each, with its index and in order, and nothing else.
pub replay_complete :
    {w : World} {base : ℕ} {cmds : Commands} {S : Type 0} (l : IsLog w base cmds)
    (ctx : ℕ → Option GoError) (live : (i : ℕ) → ctx i ≡ none) (from : ℕ) (f : ℕ → Bytes → S → S)
    (folders : List Bytes) (s : S)
    → base + length cmds < u64_mod
    → replay ctx from (sound_visit f) w.log (sound_disk w.disk.files folders) s
      ≡ ((none, visit_all from f base cmds s), sound_disk w.disk.files folders)
unfolding replay replay_segments
replay_complete {w} {base} {cmds} {S} l ctx live from f folders s small =
    ap (λ ss. replay_segments ctx from last (sound_visit f) ss disk s) l.shape.segments_eq
    ∙ replay_sealed ctx live from f folders last w.disk.files base l.shape.sealed l.shape.batches
        (l.shape.current ∷ []) s l.shape.old (All-left (concat l.shape.batches) l.shape.batch fits)
        (omega (arith, total, l.shape.last_eq)) (omega (arith, small, l.shape.last_eq))
    ∙ replay_one ctx live from f folders last w.disk.files [] old_state l.shape.cur
        (All-right (concat l.shape.batches) l.shape.batch fits)
        (omega (arith, total, small, l.shape.cur_first))
        (omega (arith, total, l.shape.last_eq, l.shape.cur_first, l.shape.cur.count))
    ∙ ap (λ x. ((none, x), disk))
        (ap (λ k. visit_all from f k l.shape.batch old_state) l.shape.cur_first
          ∙ sym (visit_all-append from f (concat l.shape.batches) l.shape.batch base s)
          ∙ ap (λ cs. visit_all from f base cs s) (sym l.shape.commands_eq))
  where
    last : ℕ
    last = w.log.last_index

    disk : Disk
    disk = sound_disk w.disk.files folders

    old_state : S
    old_state = visit_all from f base (concat l.shape.batches) s

    fits : All Fits (concat l.shape.batches ++ l.shape.batch)
    fits = subst (All Fits) l.shape.commands_eq l.shape.fits

    total : length cmds ≡ length (concat l.shape.batches) + length l.shape.batch
    total = ap length l.shape.commands_eq ∙ length-append (concat l.shape.batches) l.shape.batch
