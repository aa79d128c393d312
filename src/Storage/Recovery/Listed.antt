-- ===== src/Storage/Recovery/Listed.antt =====
-- listSegments on a directory that holds the files of a log's segments and nothing else.
use mathlib.Core.List.{Permᴰ}
use gokvx.Prelude.{
  ℕ, ◌+◌, ◌≤◌, ◌<◌, Bool, ◌≡◌, refl, ap, ◌∙◌, sym, true, List, [], ◌∷◌, ◌++◌, length, length-append,
  map, ok, arith, All, append-nil,
}
use gokvx.Prelude.Bytes.{Bytes}
use gokvx.Prelude.Words.{u64_mod}
use gokvx.Storage.Segment.{Segment, segment_name, collect_segments, sort_segments}
use gokvx.Storage.Segment.Sorted.{
  listed, collect-listed, Chain, Chain-low, Chain-All, All-Permᴰ, sort-Permᴰ, sort-Chain,
}
use gokvx.Storage.Disk.{Files, entries, read_dir}
use gokvx.Storage.Stream.{Commands}
use gokvx.Storage.Log.{World}
use gokvx.Storage.Log.Shape.{IsSealed, concat, Shape}
use gokvx.Storage.Recovery.{list_segments}
use gokvx.Storage.Recovery.Verify.{sound_disk}

-- A segment before its records are read.
abbrev pub unread : Segment → Segment
unread s = record s { last = 0 }

-- The files of the log directory are those of the log's segments: their names, in any order, are
-- the names for the first indices of the segments.
pub record IsDirectory (w : World) : Type 0 where
  pub indices : List ℕ
  pub names : map (λ x. x.0) w.disk.files ≡ map segment_name indices
  pub any_order : Permᴰ indices (map (λ s. s.first) w.log.segments)
  pub paths : All (λ s. s.path ≡ segment_name s.first) w.log.segments

entries-names : (fs : Files) → entries (sound_disk fs []) ≡ map (λ k. (k, true)) (map (λ x. x.0) fs)
unfolding entries
entries-names fs = append-nil _ ∙ regular fs
  where
    regular :
        (fs : Files)
        → map {B = Bytes × Bool} (λ (k, x). (k, true)) fs ≡ map (λ k. (k, true)) (map (λ x. x.0) fs)
    regular [] = refl
    regular (x ∷ fs) = ap (λ t. (x.0, true) ∷ t) (regular fs)

firsts_Chain :
    (fs : Files) (n : ℕ) (ss : List Segment) (css : List Commands) (last high : ℕ)
    → IsSealed fs n ss css
    → last ≡ n + length (concat css)
    → last ≤ high
    → Chain n (map (λ s. s.first) ss ++ last ∷ []) high
firsts_Chain fs n [] [] last high h e k = (omega (arith, e), k)
firsts_Chain fs n [] (ds ∷ css) last high h e k = absurd h
firsts_Chain fs n (s ∷ ss) [] last high h e k = absurd h
firsts_Chain fs n (s ∷ ss) (ds ∷ css) last high h e k = (
  omega (arith, h.1),
  Chain-low s.first (n + length ds) _ high
      (firsts_Chain fs (n + length ds) ss css last high h.2
        (omega (arith, e, length-append ds (concat css))) k)
      (omega (arith, h.1)),
)

unread-listed :
    (ss : List Segment)
    → All (λ s. s.path ≡ segment_name s.first) ss
    → map listed (map (λ s. s.first) ss) ≡ map unread ss
unread-listed [] h = refl
unread-listed (s ∷ ss) h =
    ap (λ p. record { first = s.first; last = 0; path = p } ∷ map listed (map (λ s. s.first) ss))
      (sym h.0)
    ∙ ap (λ t. unread s ∷ t) (unread-listed ss h.1)

pub map-append {ℓ} :
    {A B : Type ℓ} (f : A → B) (xs ys : List A) → map f (xs ++ ys) ≡ map f xs ++ map f ys
map-append f [] ys = refl
map-append f (x ∷ xs) ys = ap (λ t. f x ∷ t) (map-append f xs ys)

module _ {w : World} {base : ℕ} {cmds : Commands} {junk : Bytes} (s : Shape w base cmds junk)
    (small : base + length cmds + 1 < u64_mod) where
  indices_Chain : Chain base (map (λ s. s.first) w.log.segments) (base + length cmds)
  indices_Chain =
      rw (s.segments_eq, map-append (λ s. s.first) s.sealed (s.current ∷ []))
        (firsts_Chain w.disk.files base s.sealed s.batches s.current.first (base + length cmds)
          s.old s.cur_first
          (omega (
            arith,
            s.cur_first,
            ap length s.commands_eq,
            length-append (concat s.batches) s.batch,
          )))

  -- The segments are listed, in the order of the log, and no file changes.
  pub list_segments-IsDirectory :
      IsDirectory w
      → list_segments (sound_disk w.disk.files [])
        ≡ (ok (map unread w.log.segments), sound_disk w.disk.files [])
  unfolding list_segments read_dir
  list_segments-IsDirectory d =
      rw (list_segments, found) (ap (λ t. (ok t, sound_disk w.disk.files [])) order)
    where
      firsts : List ℕ
      firsts = map (λ s. s.first) w.log.segments

      found : collect_segments (entries (sound_disk w.disk.files [])) ≡ ok (map listed d.indices)
      found =
          ap collect_segments (entries-names w.disk.files ∙ ap (map (λ k. (k, true))) d.names)
          ∙ collect-listed d.indices (
              All-Permᴰ (λ i. i < u64_mod) d.any_order
                (Chain-All base firsts (base + length cmds) indices_Chain (omega (arith, small))))

      order : sort_segments (map listed d.indices) ≡ map unread w.log.segments
      order =
          sort-Permᴰ d.indices firsts d.any_order
          ∙ sort-Chain base firsts (base + length cmds) indices_Chain
          ∙ unread-listed w.log.segments d.paths
