-- ===== src/Storage/Recovery/Unread.antt =====
-- Recovery on the segments of a log whose process ended, at any point of any schedule.
use gokvx.Prelude.{
  ℕ, ◌+◌, ◌≤◌, ◌<◌, ◌≡◌, ap, ◌∙◌, sym, false, List, [], ◌∷◌, ◌++◌, length, length-append, take,
  take_all, arith, All, All-append, append-nil, append_assoc, map, ◌⊎◌, inl, inr, ltb, ltb→lt,
  Bool-cases,
}
use mathlib.Core.Path.{subst}
use gokvx.Prelude.Bytes.{Bytes}
use gokvx.Prelude.Words.{u64_mod}
use gokvx.Storage.Record.{encode_record, has_later_record}
use gokvx.Storage.Segment.{Segment}
use gokvx.Storage.Disk.{Files}
use gokvx.Storage.Stream.{Commands, Fits, encode_all, encode_all-append, encode_all_one}
use gokvx.Storage.Log.{LogConfig, World}
use gokvx.Storage.Log.Shape.{Apart, Holds, IsSealed, concat, Shape, IsLog}
use gokvx.Storage.Recovery.{recover_from}
use gokvx.Storage.Recovery.Verify.{sound_disk}
use gokvx.Storage.Recovery.Reopen.{Stored, AllStored}
use gokvx.Storage.Recovery.Listed.{unread, map-append}
use gokvx.Storage.Recovery.Crash.{OnDisk, TornPart, Recovers, recover-intact, recover-torn}

ltb-false : (a b : ℕ) → ltb a b ≡ false → b ≤ a
ltb-false a b h = ground arith

pub All-left : (xs ys : Commands) → All Fits (xs ++ ys) → All Fits xs
All-left [] ys h = tt
All-left (x ∷ xs) ys h = (h.0, All-left xs ys h.1)

pub All-right : (xs ys : Commands) → All Fits (xs ++ ys) → All Fits ys
All-right [] ys h = h
All-right (x ∷ xs) ys h = All-right xs ys h.1

stored :
    {fs : Files} {s : Segment} {cs : Commands} {junk : Bytes}
    → Holds fs s cs junk
    → Stored fs (unread s) cs junk
stored h = record { file = h.file; at = h.at; content = h.content; linked = h.linked }

all_stored :
    (fs : Files) (n : ℕ) (ss : List Segment) (css : List Commands)
    → All Fits (concat css)
    → IsSealed fs n ss css
    → AllStored fs n (map unread ss) css
all_stored fs n [] [] f h = tt
all_stored fs n [] (ds ∷ css) f h = h
all_stored fs n (s ∷ ss) [] f h = h
all_stored fs n (s ∷ ss) (ds ∷ css) f (h, at, more) = (
  stored h,
  at,
  All-left ds (concat css) f,
  all_stored fs (n + length ds) ss css (All-right ds (concat css) f) more,
)

Apart-unread : (p : Bytes) (ss : List Segment) → Apart p ss → Apart p (map unread ss)
Apart-unread p [] h = tt
Apart-unread p (s ∷ ss) h = (h.0, Apart-unread p ss h.1)

module _ {w : World} {base : ℕ} {cmds : Commands} {junk : Bytes} (s : Shape w base cmds junk)
    (pos : 1 ≤ base) (small : base + length cmds + 1 < u64_mod) where
  All-fit : All Fits (concat s.batches ++ s.batch)
  All-fit = subst (All Fits) s.commands_eq s.fits

  next_eq : s.current.first + length s.batch ≡ base + length cmds
  next_eq =
      omega (arith, s.cur_first, ap length s.commands_eq, length-append (concat s.batches) s.batch)

  -- The files of a log between two steps, as the segments that are listed.
  on_disk : OnDisk w.disk.files base (map unread s.sealed) s.batches (unread s.current) s.batch junk
  on_disk = record {
    stored =
        all_stored w.disk.files base s.sealed s.batches
          (All-left (concat s.batches) s.batch All-fit) s.old;
    last = stored s.cur;
    apart = Apart-unread s.current.path s.sealed s.apart;
    first_eq = s.cur_first;
    fits = All-right (concat s.batches) s.batch All-fit;
    pos = pos;
    small = omega (arith, next_eq);
  }

  -- A whole record behind the last one is one more command of the last segment.
  OnDisk-more :
      (c : Bytes)
      → Fits c
      → junk ≡ encode_record (base + length cmds) c
      → OnDisk w.disk.files base
          (map unread s.sealed)
          s.batches
          (unread s.current)
          (s.batch ++ c ∷ [])
          []
  OnDisk-more c hc e = record {
    stored = on_disk.stored;
    last = record { file = s.cur.file; at = s.cur.at; content = whole; linked = s.cur.linked };
    apart = Apart-unread s.current.path s.sealed s.apart;
    first_eq = s.cur_first;
    fits = All-append Fits s.batch (c ∷ []) on_disk.fits (hc, tt);
    pos = pos;
    small = rw length-append (omega (arith, next_eq));
  }
    where
      whole : s.cur.file.content ≡ encode_all s.current.first (s.batch ++ c ∷ []) ++ []
      whole =
          s.cur.content
          ∙ ap (λ t. encode_all s.current.first s.batch ++ t)
              (e
                ∙ ap (λ i. encode_record i c) (sym next_eq)
                ∙ sym (encode_all_one (s.current.first + length s.batch) c))
          ∙ sym (
              append-nil (encode_all s.current.first (s.batch ++ c ∷ []))
              ∙ encode_all-append s.current.first s.batch (c ∷ []))

module _ {w : World} {base : ℕ} {cmds : Commands} {junk : Bytes} (cfg : LogConfig)
    (folders : List Bytes) (s : Shape w base cmds junk) where
  listed_eq :
      (s : Shape w base cmds junk)
      → map unread w.log.segments ≡ map unread s.sealed ++ unread s.current ∷ []
  listed_eq s = ap (map unread) s.segments_eq ∙ map-append unread s.sealed (s.current ∷ [])

  as_held :
      Recovers
        (recover_from cfg
          (map unread s.sealed ++ unread s.current ∷ [])
          (sound_disk w.disk.files folders))
        base
        (concat s.batches ++ s.batch)
      → Recovers
          (recover_from cfg (map unread w.log.segments) (sound_disk w.disk.files folders))
          base
          cmds
  as_held r =
      subst (λ t. Recovers (recover_from cfg t (sound_disk w.disk.files folders)) base cmds)
        (sym (listed_eq s))
        (subst
          (Recovers
            (recover_from cfg (map unread s.sealed ++ unread s.current ∷ [])
              (sound_disk w.disk.files folders))
            base)
          (sym s.commands_eq) r)

  as_held_more :
      (c : Bytes)
      → Recovers
          (recover_from cfg
            (map unread s.sealed ++ unread s.current ∷ [])
            (sound_disk w.disk.files folders))
          base
          (concat s.batches ++ (s.batch ++ c ∷ []))
      → Recovers
          (recover_from cfg (map unread w.log.segments) (sound_disk w.disk.files folders))
          base
          (cmds ++ c ∷ [])
  as_held_more c r =
      subst
        (λ t. Recovers (recover_from cfg t (sound_disk w.disk.files folders)) base (cmds ++ c ∷ []))
        (sym (listed_eq s))
        (subst
          (Recovers
            (recover_from cfg (map unread s.sealed ++ unread s.current ∷ [])
              (sound_disk w.disk.files folders))
            base)
          (sym (append_assoc (concat s.batches) s.batch (c ∷ []))
            ∙ ap (λ t. t ++ c ∷ []) (sym s.commands_eq))
          r)

-- Recovery on the segments of the log, before it has read their records.
pub recover-unread :
    {w : World} {base : ℕ} {cmds : Commands} (cfg : LogConfig) (folders : List Bytes)
    (l : IsLog w base cmds)
    → 1 ≤ base
    → base + length cmds + 1 < u64_mod
    → has_later_record l.junk (base + length cmds) ≡ false
    → Recovers
        (recover_from cfg (map unread w.log.segments) (sound_disk w.disk.files folders))
        base
        cmds
      ⊎ ((c : Bytes) × Recovers
            (recover_from cfg (map unread w.log.segments) (sound_disk w.disk.files folders))
            base
            (cmds ++ c ∷ []))
recover-unread {w} {base} {cmds} cfg folders l pos small quiet = elim (Bool-cases (ltb 0 size)) [
  | inr none_of ↦ inl (
      as_held cfg folders l.shape (
        (recover-intact cfg folders (
          subst
            (OnDisk w.disk.files base (map unread l.shape.sealed) l.shape.batches
              (unread l.shape.current) l.shape.batch)
            (l.shape.part.part ∙ ap (λ n. take n whole) (zero_of none_of)) disk)).0))
  | inl some_of ↦ elim (Bool-cases (ltb size (length whole))) [
    | inl less ↦ inl (
        as_held cfg folders l.shape (
          recover-torn cfg folders disk
            (torn (ltb→lt 0 size some_of) (ltb→lt size (length whole) less)) (rw next quiet)))
    | inr past ↦ inr (
      command,
      as_held_more cfg folders l.shape command (
          (recover-intact cfg folders (
            OnDisk-more l.shape pos small command l.shape.part.fits
              (l.shape.part.part ∙ take_all size whole (ltb-false size (length whole) past)))).0),
    )
  ]
]
  where
    command : Bytes
    command = l.shape.part.command

    size : ℕ
    size = l.shape.part.size

    whole : Bytes
    whole = encode_record (base + length cmds) command

    next : l.shape.current.first + length l.shape.batch ≡ base + length cmds
    next = next_eq l.shape pos small

    disk :
        OnDisk w.disk.files base
          (map unread l.shape.sealed)
          l.shape.batches
          (unread l.shape.current)
          l.shape.batch
          l.junk
    disk = on_disk l.shape pos small

    zero_of : ltb 0 size ≡ false → size ≡ 0
    zero_of h = omega (arith, ltb-false 0 size h)

    torn :
        0 < size
        → size < length whole
        → TornPart (l.shape.current.first + length l.shape.batch) l.junk
    torn h k = record {
      command = command;
      size = size;
      fits = l.shape.part.fits;
      some_of = h;
      less = rw next k;
      part_eq = rw next l.shape.part.part;
    }
