-- ===== src/Dump/Records/Profiles.antt =====
-- The statistics records of parser.go: memory statistics, profile buckets, allocation samples.
use bubblepprof.Common.{
  ℕ, zero, suc, ◌+◌, Bool, true, false, List, [], ◌∷◌, ◌++◌, ◌==◌, if◌then◌else◌, String,
}
use bubblepprof.Dump.Errors.{field_at}
use bubblepprof.Dump.Monad.{◌>>=◌, ◌>>◌, pure, on_error, update}
use bubblepprof.Dump.Reader.{uvarint, string}
use bubblepprof.Dump.State.{P, on_reader, uvarint_as, on_snap, on_stats}
use bubblepprof.Snapshot.{MemStatKey, stat_field, pause_ns, num_gc, AllocationFrame}

-- memStatsFields; the map key of the i-th name is `stat_field i`.
abbrev pub mem_stats_fields : List String
mem_stats_fields =
    "alloc" ∷ "total_alloc" ∷ "sys" ∷ "lookups" ∷ "mallocs" ∷ "frees" ∷ "heap_alloc" ∷ "heap_sys"
    ∷ "heap_idle" ∷ "heap_inuse" ∷ "heap_released" ∷ "heap_objects" ∷ "stack_inuse" ∷ "stack_sys"
    ∷ "mspan_inuse" ∷ "mspan_sys" ∷ "mcache_inuse" ∷ "mcache_sys" ∷ "buckhash_sys" ∷ "gc_sys"
    ∷ "other_sys" ∷ "next_gc" ∷ "last_gc" ∷ "pause_total_ns" ∷ []

abbrev pub stat_key_eq : MemStatKey → MemStatKey → Bool
stat_key_eq (stat_field i) (stat_field j) = i == j
stat_key_eq (pause_ns i) (pause_ns j) = i == j
stat_key_eq num_gc num_gc = true
stat_key_eq _ _ = false

-- `p.snap.MemStats[key] = v`
unfoldable pub assign_stat : MemStatKey → ℕ → List (MemStatKey × ℕ) → List (MemStatKey × ℕ)
assign_stat k v [] = (k, v) ∷ []
assign_stat k v ((j, w) ∷ m) = if stat_key_eq j k then (k, v) ∷ m else (j, w) ∷ assign_stat k v m

abbrev pub set_stat : MemStatKey → ℕ → P (Unit {0})
set_stat k v = update (on_snap (λ s. record s { mem_stats = assign_stat k v s.mem_stats }))

unfoldable pub named_stats : ℕ → List String → P (Unit {0})
unfolding assign_stat
named_stats i [] = pure tt
named_stats i (name ∷ rest) = do
  v ← uvarint_as name
  set_stat (stat_field i) v
  named_stats (i + 1) rest

-- The loop over the pauses, with the rounds left.
unfoldable pub pause_stats : ℕ → ℕ → P (Unit {0})
unfolding assign_stat
pause_stats zero i = pure tt
pause_stats (suc left) i = do
  v ← on_error (field_at "pause_ns" i) (on_reader uvarint)
  set_stat (pause_ns i) v
  pause_stats left (i + 1)

unfoldable pub parse_mem_stats : P (Unit {0})
unfolding named_stats pause_stats
parse_mem_stats = do
  named_stats 0 mem_stats_fields
  pause_stats 256 0
  v ← uvarint_as "num_gc"
  set_stat num_gc v

-- The loop over the stack of a bucket, with the rounds left.
unfoldable pub alloc_frames : ℕ → ℕ → List AllocationFrame → P (List AllocationFrame)
alloc_frames zero i frames = pure frames
alloc_frames (suc left) i frames = do
  function ← on_error (field_at "func name" i) (on_reader string)
  file ← on_error (field_at "file" i) (on_reader string)
  line ← on_error (field_at "line" i) (on_reader uvarint)
  alloc_frames left (i + 1)
      (frames ++ record { function = function; file = file; line = line } ∷ [])

unfoldable pub parse_mem_prof : P (Unit {0})
unfolding alloc_frames
parse_mem_prof = do
  bucket ← uvarint_as "bucket addr"
  size ← uvarint_as "size"
  nstk ← uvarint_as "nstk"
  frames ← alloc_frames nstk 0 []
  allocs ← uvarint_as "allocs"
  frees ← uvarint_as "frees"
  update (
      on_snap (λ s.
        on_stats (λ t. record t { mem_prof_count = t.mem_prof_count + 1 })
          (record s {
            mem_profiles =
                s.mem_profiles
                ++ record {
                  bucket = bucket;
                  size = size;
                  frames = frames;
                  allocs = allocs;
                  frees = frees;
                }
                  ∷ [];
          })))

unfoldable pub parse_alloc_sample : P (Unit {0})
parse_alloc_sample = do
  addr ← uvarint_as "addr"
  bucket ← uvarint_as "bucket"
  update (
      on_snap (λ s.
        on_stats (λ t. record t { alloc_sample_count = t.alloc_sample_count + 1 })
          (record s {
            allocation_samples =
                s.allocation_samples ++ record { address = addr; bucket = bucket } ∷ [];
          })))
