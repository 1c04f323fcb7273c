-- ===== src/Dump/RecordSteps.antt =====
-- Every record parser (internal/heapdump/parser.go) is a step of the parser.
use bubblepprof.Common.{
  ℕ, zero, suc, ◌+◌, refl, ◌||◌, ◌==◌, Bool, List, [], ◌∷◌, arith, String, Text,
}
use bubblepprof.Dump.Counted
use bubblepprof.Dump.Counts.{IsCounted-update}
use bubblepprof.Dump.Monad.{◌>>=◌}
use bubblepprof.Dump.Records.Types.{
  check_ptr_size, parse_params, parse_type, parse_other_root, read_finalizer, parse_finalizer,
  parse_queued_finalizer, parse_itab, parse_os_thread,
}
use bubblepprof.Dump.Records.Profiles.{
  mem_stats_fields, assign_stat, set_stat, named_stats, pause_stats, parse_mem_stats, alloc_frames,
  parse_mem_prof, parse_alloc_sample,
}
use bubblepprof.Dump.Errors.{unsupported_pointer_size}
use bubblepprof.Dump.Moves.{Moves-refl, uvarint-MovesBy}
use bubblepprof.Dump.Payloads.{string-MovesBy}
use bubblepprof.Dump.Safe.{Safe-if, Safe-update}
use bubblepprof.Dump.State.{Options, P, uvarint_as, bool_as, string_as}
use bubblepprof.Dump.Steps.{
  HasCurrent-mono, Step, Step-refl, Step-trans, Runs, Runs-pure, Runs-fail, Runs-bind,
  Runs-on_error, Runs-on_reader, Runs-uvarint_as, Runs-bool_as, Runs-string_as, Runs-on_snap,
}
use bubblepprof.Snapshot.{MemStatKey, stat_field, pause_ns, num_gc, AllocationFrame}

module _ (opts : Options) where
  pub uvarint_then :
      {A : Type 0} (name : String) (f : ℕ → P A)
      → ((n : ℕ) → Runs opts (f n))
      → Runs opts (uvarint_as name >>= f)
  uvarint_then name f h = Runs-bind opts (uvarint_as name) f (Runs-uvarint_as opts name) h

  pub bool_then :
      {A : Type 0} (name : String) (f : Bool → P A)
      → ((b : Bool) → Runs opts (f b))
      → Runs opts (bool_as name >>= f)
  bool_then name f h = Runs-bind opts (bool_as name) f (Runs-bool_as opts name) h

  pub string_then :
      {A : Type 0} (name : String) (f : Text → P A)
      → ((t : Text) → Runs opts (f t))
      → Runs opts (string_as name >>= f)
  string_then name f h = Runs-bind opts (string_as name) f (Runs-string_as opts name) h

  pub parse_itab-Runs : Runs opts parse_itab
  unfolding parse_itab
  parse_itab-Runs = uvarint_then _ _ (λ addr. uvarint_then _ _ (λ type_addr.
      Runs-on_snap opts _
        (λ s h.
          let t = record (s.stats) { itab_count = s.stats.itab_count + 1 } in
          IsCounted-update s (record s { itabs = _ }) t h)
        (λ s. omega arith) (λ s. refl)))

  pub parse_os_thread-Runs : Runs opts parse_os_thread
  unfolding parse_os_thread
  parse_os_thread-Runs = uvarint_then _ _ (λ addr. uvarint_then _ _ (λ id.
      uvarint_then _ _ (λ os_id.
        Runs-on_snap opts _ (Counted.add_thread-IsCounted _) (λ s. omega arith) (λ s. refl))))

  read_finalizer-Runs : Runs opts read_finalizer
  unfolding read_finalizer
  read_finalizer-Runs = uvarint_then _ _ (λ _. uvarint_then _ _ (λ _.
      uvarint_then _ _ (λ _. uvarint_then _ _ (λ _. uvarint_then _ _ (λ _. Runs-pure opts _)))))

  pub parse_finalizer-Runs : Runs opts parse_finalizer
  unfolding parse_finalizer
  parse_finalizer-Runs = Runs-bind opts _ _ read_finalizer-Runs (λ fin.
      Runs-on_snap opts _ (Counted.add_finalizer-IsCounted fin) (λ s. omega arith) (λ s. refl))

  pub parse_queued_finalizer-Runs : Runs opts parse_queued_finalizer
  unfolding parse_queued_finalizer
  parse_queued_finalizer-Runs =
      Runs-bind opts _ _ read_finalizer-Runs (λ fin.
        Runs-on_snap opts _ (Counted.add_queued-IsCounted fin) (λ s. omega arith) (λ s. refl))

  pub parse_type-Runs : Runs opts parse_type
  unfolding parse_type
  parse_type-Runs = uvarint_then _ _ (λ addr. uvarint_then _ _ (λ size. string_then _ _ (λ name.
      bool_then _ _ (λ flag.
        Runs-on_snap opts _
          (λ s h.
            let t = record (s.stats) { type_count = s.stats.type_count + 1 } in
            IsCounted-update s (record s { types = _ }) t h)
          (λ s. omega arith) (λ s. refl)))))

  pub parse_other_root-Runs : Runs opts parse_other_root
  unfolding parse_other_root
  parse_other_root-Runs = string_then _ _ (λ desc.
      uvarint_then _ _
        (λ ptr. Runs-on_snap opts _ (Counted.add_root-IsCounted _) (λ s. omega arith) (λ s. refl)))

  check_ptr_size-Runs : (n : ℕ) → Runs opts (check_ptr_size n)
  unfolding check_ptr_size
  check_ptr_size-Runs n =
      Safe-if (Step opts) (n == 4 || n == 8) _ _ (Runs-pure opts tt)
        (Runs-fail opts (unsupported_pointer_size n))

  pub parse_params-Runs : Runs opts parse_params
  unfolding parse_params
  parse_params-Runs = bool_then _ _ (λ big_endian. uvarint_then _ _ (λ ptr_size.
      Runs-bind opts _ _ (check_ptr_size-Runs ptr_size) (λ _. uvarint_then _ _ (λ heap_start.
        uvarint_then _ _ (λ heap_end. string_then _ _ (λ goarch. string_then _ _ (λ build_version.
          uvarint_then _ _ (λ num_cpu.
            Safe-update (Step opts) (Step-refl opts) (Step-trans opts) _ (λ p. record {
              moves = Moves-refl p.reader;
              keeps = λ c. record {
                counts =
                    IsCounted-update p.snap (record (p.snap) { params = _ }) p.snap.stats c.counts;
                current = HasCurrent-mono p.cur_g p.snap _ (omega arith) c.current;
              };
              quiet = λ s. refl;
            })))))))))

  set_stat-Runs : (k : MemStatKey) (v : ℕ) → Runs opts (set_stat k v)
  set_stat-Runs k v =
      Runs-on_snap opts _
        (λ s h. IsCounted-update s (record s { mem_stats = assign_stat k v s.mem_stats }) s.stats h)
        (λ s. omega arith) (λ s. refl)

  named_stats-Runs : (i : ℕ) (names : List String) → Runs opts (named_stats i names)
  unfolding named_stats
  named_stats-Runs i [] = Runs-pure opts tt
  named_stats-Runs i (name ∷ rest) = uvarint_then _ _ (λ v.
      Runs-bind opts _ _ (set_stat-Runs (stat_field i) v) (λ _. named_stats-Runs (i + 1) rest))

  pause_stats-Runs : (left i : ℕ) → Runs opts (pause_stats left i)
  unfolding pause_stats
  pause_stats-Runs zero i = Runs-pure opts tt
  pause_stats-Runs (suc left) i =
      Runs-bind opts _ _ (Runs-on_error opts _ _ (Runs-on_reader opts _ uvarint-MovesBy)) (λ v.
        Runs-bind opts _ _ (set_stat-Runs (pause_ns i) v) (λ _. pause_stats-Runs left (i + 1)))

  pub parse_mem_stats-Runs : Runs opts parse_mem_stats
  unfolding parse_mem_stats
  parse_mem_stats-Runs = Runs-bind opts _ _ (named_stats-Runs 0 mem_stats_fields) (λ _.
      Runs-bind opts _ _ (pause_stats-Runs 256 0)
        (λ _. uvarint_then "num_gc" _ (λ v. set_stat-Runs num_gc v)))

  alloc_frames-Runs :
      (left i : ℕ) (frames : List AllocationFrame) → Runs opts (alloc_frames left i frames)
  unfolding alloc_frames
  alloc_frames-Runs zero i frames = Runs-pure opts frames
  alloc_frames-Runs (suc left) i frames =
      Runs-bind opts _ _ (Runs-on_error opts _ _ (Runs-on_reader opts _ string-MovesBy))
        (λ function.
          Runs-bind opts _ _ (Runs-on_error opts _ _ (Runs-on_reader opts _ string-MovesBy))
            (λ file.
              Runs-bind opts _ _ (Runs-on_error opts _ _ (Runs-on_reader opts _ uvarint-MovesBy))
                (λ line. alloc_frames-Runs left (i + 1) _)))

  pub parse_mem_prof-Runs : Runs opts parse_mem_prof
  unfolding parse_mem_prof
  parse_mem_prof-Runs = uvarint_then _ _ (λ bucket. uvarint_then _ _ (λ size.
      uvarint_then _ _ (λ nstk. Runs-bind opts _ _ (alloc_frames-Runs nstk 0 []) (λ frames.
        uvarint_then _ _ (λ allocs. uvarint_then _ _ (λ frees.
          Runs-on_snap opts _ (Counted.add_mem_profile-IsCounted _) (λ s. omega arith)
            (λ s. refl)))))))

  pub parse_alloc_sample-Runs : Runs opts parse_alloc_sample
  unfolding parse_alloc_sample
  parse_alloc_sample-Runs = uvarint_then _ _ (λ addr. uvarint_then _ _ (λ bucket.
      Runs-on_snap opts _ (Counted.add_alloc_sample-IsCounted _) (λ s. omega arith) (λ s. refl)))
