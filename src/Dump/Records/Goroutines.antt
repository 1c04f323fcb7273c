-- ===== src/Dump/Records/Goroutines.antt =====
-- The goroutine section of parser.go: goroutines, stack frames, defers and panics.
use bubblepprof.Common.{
  ℕ, ◌+◌, true, List, [], ◌∷◌, ◌++◌, some, none, if◌then◌else◌, length, modify, String,
}
use bubblepprof.Common.Result.{ok}
use bubblepprof.Dump.Monad.{◌>>=◌, ◌>>◌, pure, update}
use bubblepprof.Dump.Pointers.{Extraction, no_extraction}
use bubblepprof.Dump.State.{
  Options, Parser, P, uvarint_as, bool_as, string_as, bytes_as, fields_as, on_snap, on_stats, warn,
  decode_pointers,
}
use bubblepprof.Snapshot
use bubblepprof.Snapshot.{HeapSnapshot, frame_without_goroutine}

-- The append, and `p.curG` set to the new last element.
unfoldable pub append_goroutine : Snapshot.Goroutine → Parser → Parser
append_goroutine g p =
    record (on_snap
      (λ s.
        on_stats (λ t. record t { goroutine_count = t.goroutine_count + 1 })
          (record s { goroutines = s.goroutines ++ g ∷ [] }))
      p) { cur_g = some (length p.snap.goroutines) }

unfoldable pub parse_goroutine : P (Unit {0})
unfolding append_goroutine
parse_goroutine = do
  addr ← uvarint_as "g addr"
  sp ← uvarint_as "sp"
  goid ← uvarint_as "goid"
  gopc ← uvarint_as "gopc"
  status ← uvarint_as "status"
  is_sys ← bool_as "is system"
  is_bg ← bool_as "is background"
  wait_since ← uvarint_as "wait since"
  wait_reason ← string_as "wait reason"
  ctxt ← uvarint_as "ctxt"
  m ← uvarint_as "m"
  defer_addr ← uvarint_as "defer"
  panic_addr ← uvarint_as "panic"
  update (
      append_goroutine (record {
        addr = addr;
        stack_top = sp;
        id = goid;
        go_pc = gopc;
        status = status;
        is_system = is_sys;
        is_background = is_bg;
        wait_since = wait_since;
        wait_reason = wait_reason;
        context = ctxt;
        m = m;
        defer = defer_addr;
        panic = panic_addr;
        frames = [];
      }))

-- `p.curG.Frames = append(p.curG.Frames, frame)` with the counters behind it.
unfoldable pub append_frame : ℕ → Snapshot.StackFrame → HeapSnapshot → HeapSnapshot
append_frame i frame s =
    on_stats
      (λ t. record t {
        stack_frame_count = t.stack_frame_count + 1;
        stack_pointers = t.stack_pointers + length frame.pointer_addrs;
      })
      (record s {
        goroutines = modify s.goroutines i (λ g. record g { frames = g.frames ++ frame ∷ [] });
      })

-- A frame outside a goroutine section is dropped with a warning.
unfoldable pub attach_frame : Options → Snapshot.StackFrame → P (Unit {0})
unfolding append_frame warn
attach_frame opts frame p = elim p.cur_g [
  | none ↦ warn opts (frame_without_goroutine frame.func_name frame.sp) p
  | some i ↦ ok (tt, on_snap (append_frame i frame) p)
]

unfoldable pub frame_pointers : Options → ℕ → List ℕ → List Snapshot.Field → P Extraction
unfolding decode_pointers
frame_pointers opts sp contents fields p =
    if p.have_params then decode_pointers opts contents fields sp true p else ok (no_extraction, p)

unfoldable pub parse_stack_frame : Options → P (Unit {0})
unfolding frame_pointers attach_frame
parse_stack_frame opts = do
  sp ← uvarint_as "sp"
  depth ← uvarint_as "depth"
  child_sp ← uvarint_as "child sp"
  contents ← bytes_as "contents"
  entry_pc ← uvarint_as "entry pc"
  cur_pc ← uvarint_as "current pc"
  cont_pc ← uvarint_as "continpc"
  name ← string_as "func name"
  fields ← fields_as "fields"
  x ← frame_pointers opts sp contents fields
  attach_frame opts (record {
    sp = sp;
    depth = depth;
    child_sp = child_sp;
    entry_pc = entry_pc;
    current_pc = cur_pc;
    continue_pc = cont_pc;
    func_name = name;
    size = length contents;
    fields = fields;
    pointer_addrs = x.targets;
    pointer_slots = x.slots;
  })

-- The values are read and dropped.
unfoldable pub skip_fields : List String → P (Unit {0})
skip_fields [] = pure tt
skip_fields (name ∷ rest) = do _ ← uvarint_as name; skip_fields rest

unfoldable pub parse_defer : P (Unit {0})
unfolding skip_fields
parse_defer = do
  skip_fields ("d" ∷ "gp" ∷ "sp" ∷ "pc" ∷ "fn" ∷ "fn_pc" ∷ "link" ∷ [])
  update (on_snap (on_stats (λ t. record t { defer_count = t.defer_count + 1 })))

unfoldable pub parse_panic : P (Unit {0})
unfolding skip_fields
parse_panic = do
  skip_fields ("p" ∷ "gp" ∷ "arg_type" ∷ "arg_data" ∷ "reserved" ∷ "link" ∷ [])
  update (on_snap (on_stats (λ t. record t { panic_count = t.panic_count + 1 })))
