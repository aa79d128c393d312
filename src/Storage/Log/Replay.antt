-- ===== src/Storage/Log/Replay.antt =====
-- internal/storage/log.go: Replay and replaySegment. `visit` is the caller's function, on a state of
-- its own; `ctx` answers what ctx.Err() returns before the record with an index.
use gokvx.Prelude.{
  ℕ, zero, suc, ◌+◌, ◌-◌, ◌<◌, ltb, leb, ◌==◌, ==_iff, if◌then◌else◌, not, ◌||◌, Bool-cases, List,
  [], ◌∷◌, ◌++◌, length, drop, drop-append, append_assoc, Option, none, some, Result, ok, err, min,
  arith, ◌≡◌, refl, ap, sym, ◌∙◌, inl, inr, All,
}
use gokvx.Prelude.Bytes.{Bytes}
use gokvx.Prelude.Words.{u64_mod}
use gokvx.Kverr.Error.{GoError, plain, wrapped, as_error, wrap}
use gokvx.Kverr.Reason.{reason_internal}
use gokvx.Storage.Record.{Decoded, DecodeError, encode_record, decode_record}
use gokvx.Storage.Record.Codec.{decode-encode, length-encode_record}
use gokvx.Storage.Segment.{Segment}
use gokvx.Storage.Disk.{Disk, read_file}
use gokvx.Storage.Stream.{Commands, Fits, encode_all}
use gokvx.Storage.Log.{Log, context_error}

-- Whether the loop found another record than the one that it wrote.
abbrev pub changed : GoError
changed = as_error (wrap reason_internal (plain "") "command log segment changed on disk")

abbrev pub Visit : Type 0 → Type 0
Visit S = ℕ → Bytes → S → Option GoError × S

-- The call of the caller's function, if the index is wanted.
unfoldable pub visit_from : {S : Type 0} → ℕ → Visit S → Visit S
visit_from from visit index command s = if leb from index then visit index command s else (none, s)

-- What follows the call: an error is wrapped and ends the replay.
abbrev pub after_visit :
    {S : Type 0} → Option GoError × S → (S → Option GoError × S) → Option GoError × S
after_visit (some e, s) more = (some (wrapped "storage.Log.Replay" e), s)
after_visit (none, s) more = more s

-- One round on what was decoded.
unfoldable pub replay_step :
    {S : Type 0}
    → ℕ
    → Visit S
    → ℕ
    → Result DecodeError Decoded
    → (Decoded → S → Option GoError × S)
    → S
    → Option GoError × S
unfolding visit_from
replay_step from visit want (err e) more s = (some changed, s)
replay_step from visit want (ok r) more s =
    if not (r.index == want)
    then (some changed, s)
    else after_visit (visit_from from visit r.index r.command s) (more r)

-- The loop of replaySegment, for the next `count` records.
unfoldable pub replay_records :
    {S : Type 0} → (ℕ → Option GoError) → ℕ → Visit S → ℕ → ℕ → Bytes → S → Option GoError × S
replay_records ctx from visit zero want buf s = (none, s)
replay_records ctx from visit (suc count) want buf s =
    let more = λ (r : Decoded). replay_records ctx from visit count (suc want) (drop r.size buf) in
    elim (context_error (ctx want)) [
      | some e ↦ (some e, s)
      | none ↦ replay_step from visit want (decode_record buf) more s
    ]

-- replaySegment, once the file is read: the indices from seg.first to min(seg.last, last).
unfoldable pub replay_content :
    {S : Type 0}
    → (ℕ → Option GoError)
    → ℕ
    → ℕ
    → Visit S
    → Segment
    → Result GoError Bytes
    → S
    → Option GoError × S
unfolding replay_records
replay_content ctx from last visit seg (err e) s =
    (some (as_error (wrap reason_internal e "command log segment could not be read")), s)
replay_content ctx from last visit seg (ok content) s =
    replay_records ctx from visit (min seg.last last + 1 - seg.first) seg.first content s

-- replaySegment.
unfoldable pub replay_segment :
    {S : Type 0}
    → (ℕ → Option GoError)
    → ℕ
    → ℕ
    → Visit S
    → Segment
    → Disk
    → S
    → (Option GoError × S) × Disk
replay_segment ctx from last visit seg d s =
    let (content, d1) = read_file seg.path d in
    (replay_content ctx from last visit seg content s, d1)

-- An error ends the loop of Replay.
abbrev pub then_segments :
    {S : Type 0}
    → (Option GoError × S) × Disk
    → (Disk → S → (Option GoError × S) × Disk)
    → (Option GoError × S) × Disk
then_segments ((some e, s), d) more = ((some e, s), d)
then_segments ((none, s), d) more = more d s

-- The loop of Replay over the segments. Segments without a wanted record are not read.
unfoldable pub replay_segments :
    {S : Type 0}
    → (ℕ → Option GoError)
    → ℕ
    → ℕ
    → Visit S
    → List Segment
    → Disk
    → S
    → (Option GoError × S) × Disk
replay_segments ctx from last visit [] d s = ((none, s), d)
replay_segments ctx from last visit (seg ∷ ss) d s =
    let more = replay_segments ctx from last visit ss in
    if ltb seg.last from || ltb last seg.first
    then more d s
    else then_segments (replay_segment ctx from last visit seg d s) more

-- Replay, on the segments and the last index that it copied under the mutex.
unfoldable pub replay :
    {S : Type 0} → (ℕ → Option GoError) → ℕ → Visit S → Log → Disk → S → (Option GoError × S) × Disk
unfolding replay_segments
replay ctx from visit l d s = replay_segments ctx from l.last_index visit l.segments d s

-- A caller's function that does not fail, run on the records that are wanted, in order.
abbrev pub visit_all : {S : Type 0} → ℕ → (ℕ → Bytes → S → S) → ℕ → Commands → S → S
visit_all from f i [] s = s
visit_all from f i (c ∷ cs) s = visit_all from f (suc i) cs (if leb from i then f i c s else s)

-- Such a function as the code calls it.
abbrev pub sound_visit : {S : Type 0} → (ℕ → Bytes → S → S) → Visit S
sound_visit f i c s = (none, f i c s)

module _ {S : Type 0} (ctx : ℕ → Option GoError) (live : (i : ℕ) → ctx i ≡ none) (from : ℕ)
    (f : ℕ → Bytes → S → S) where
  context_live : (i : ℕ) → context_error (ctx i) ≡ none
  unfolding context_error
  context_live i = rw (live i) refl

  visit_from_sound :
      (i : ℕ) (c : Bytes) (s : S)
      → visit_from from (sound_visit f) i c s ≡ (none, (if leb from i then f i c s else s))
  unfolding visit_from
  visit_from_sound i c s = elim (Bool-cases (leb from i)) [ inl e ↦ rw e refl | inr e ↦ rw e refl ]

  replay_step_sound :
      (i : ℕ) (r : Decoded) (more : Decoded → S → Option GoError × S) (s : S)
      → r.index ≡ i
      → replay_step from (sound_visit f) i (ok r) more s
        ≡ more r (if leb from r.index then f r.index r.command s else s)
  unfolding replay_step
  replay_step_sound i r more s e =
      rw ((==_iff r.index i).1 e, visit_from_sound r.index r.command s) refl

  -- The records of a segment reach the caller's function, from the index `from` on, once each and in
  -- order; what a failed write left behind them does not.
  pub replay_records-encode_all :
      (cs : Commands) (i : ℕ) (junk : Bytes) (s : S)
      → All Fits cs
      → i + length cs < u64_mod
      → replay_records ctx from (sound_visit f) (length cs) i (encode_all i cs ++ junk) s
        ≡ (none, visit_all from f i cs s)
  unfolding replay_records encode_all
  replay_records-encode_all [] i junk s fits small = refl
  replay_records-encode_all (c ∷ cs) i junk s (hc, fits) small =
      rw (context_live i, replay_records, decoded)
        (replay_step_sound i (record { index = i; command = c; size = 16 + length c }) _ s refl
          ∙ ap
              (λ b.
                replay_records ctx from (sound_visit f) (length cs) (suc i) b
                  (if leb from i then f i c s else s))
              dropped
          ∙ replay_records-encode_all cs (suc i) junk (if leb from i then f i c s else s) fits
              (omega (arith, small)))
    where
      rest : Bytes
      rest = encode_all (suc i) cs ++ junk

      decoded :
          decode_record ((encode_record i c ++ encode_all (suc i) cs) ++ junk)
          ≡ ok (record { index = i; command = c; size = 16 + length c })
      decoded =
          ap decode_record (append_assoc (encode_record i c) (encode_all (suc i) cs) junk)
          ∙ decode-encode i c rest (omega (arith, small)) hc

      dropped : drop (16 + length c) ((encode_record i c ++ encode_all (suc i) cs) ++ junk) ≡ rest
      dropped =
          ap (drop (16 + length c)) (append_assoc (encode_record i c) (encode_all (suc i) cs) junk)
          ∙ drop-append (16 + length c) (encode_record i c) rest (sym (length-encode_record i c))
