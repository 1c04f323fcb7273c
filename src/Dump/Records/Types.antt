-- ===== src/Dump/Records/Types.antt =====
-- The records of parser.go that hold scalars: params, types, roots, finalizers, itabs, threads.
use bubblepprof.Common.{ℕ, ◌+◌, true, [], ◌∷◌, ◌++◌, ◌==◌, ◌||◌, if◌then◌else◌, assign, text}
use bubblepprof.Dump.Errors.{unsupported_pointer_size}
use bubblepprof.Dump.Monad.{◌>>=◌, ◌>>◌, pure, fail, update}
use bubblepprof.Dump.State.{P, uvarint_as, bool_as, string_as, on_snap, on_stats}
use bubblepprof.Snapshot.{Finalizer}

-- `if ptrSize != 4 && ptrSize != 8 { return … }`
unfoldable pub check_ptr_size : ℕ → P (Unit {0})
check_ptr_size n = if n == 4 || n == 8 then pure tt else fail (unsupported_pointer_size n)

unfoldable pub parse_params : P (Unit {0})
unfolding check_ptr_size
parse_params = do
  big_endian ← bool_as "big endian"
  ptr_size ← uvarint_as "ptr size"
  check_ptr_size ptr_size
  heap_start ← uvarint_as "heap start"
  heap_end ← uvarint_as "heap end"
  goarch ← string_as "goarch"
  build_version ← string_as "build version"
  num_cpu ← uvarint_as "num cpu"
  update (λ p. record p {
    snap = record (p.snap) {
      params = record {
        big_endian = big_endian;
        ptr_size = ptr_size;
        heap_start = heap_start;
        heap_end = heap_end;
        goarch = goarch;
        build_version = build_version;
        num_cpu = num_cpu;
      };
    };
    have_params = true;
    big_endian = big_endian;
  })

unfoldable pub parse_type : P (Unit {0})
parse_type = do
  addr ← uvarint_as "type addr"
  size ← uvarint_as "type size"
  name ← string_as "type name"
  indirect_iface ← bool_as "indirect iface flag"
  update (
      on_snap (λ s.
        on_stats (λ t. record t { type_count = t.type_count + 1 })
          (record s {
            types =
                assign addr
                  (record {
                    addr = addr;
                    size = size;
                    name = name;
                    indirect_iface = indirect_iface;
                    fields = [];
                  })
                  s.types;
          })))

unfoldable pub parse_other_root : P (Unit {0})
parse_other_root = do
  desc ← string_as "description"
  ptr ← uvarint_as "pointer"
  update (
      on_snap (λ s.
        on_stats
          (λ t. record t {
            other_root_count = t.other_root_count + 1;
            global_root_count = t.global_root_count + 1;
          })
          (record s {
            globals =
                s.globals
                ++ record {
                  kind = text "otherroot";
                  description = desc;
                  addr = 0;
                  pointer_addr = ptr;
                }
                  ∷ [];
          })))

-- The five addresses of a finalizer record.
unfoldable pub read_finalizer : P Finalizer
read_finalizer = do
  obj_addr ← uvarint_as "obj addr"
  fn ← uvarint_as "fn addr"
  fn_pc ← uvarint_as "fn pc"
  fint ← uvarint_as "fint"
  ot ← uvarint_as "ot"
  pure (record {
    object_addr = obj_addr;
    func_val = fn;
    func_pc = fn_pc;
    type_addr = fint;
    ptr_type_addr = ot;
  })

unfoldable pub parse_finalizer : P (Unit {0})
unfolding read_finalizer
parse_finalizer = do
  fin ← read_finalizer
  update (
      on_snap (λ s.
        on_stats (λ t. record t { finalizer_count = t.finalizer_count + 1 })
          (record s { finalizers = s.finalizers ++ fin ∷ [] })))

unfoldable pub parse_queued_finalizer : P (Unit {0})
unfolding read_finalizer
parse_queued_finalizer = do
  fin ← read_finalizer
  update (
      on_snap (λ s.
        on_stats (λ t. record t { queued_finalizers = t.queued_finalizers + 1 })
          (record s { queued_finalizers = s.queued_finalizers ++ fin ∷ [] })))

unfoldable pub parse_itab : P (Unit {0})
parse_itab = do
  addr ← uvarint_as "itab addr"
  type_addr ← uvarint_as "type addr"
  update (
      on_snap (λ s.
        on_stats (λ t. record t { itab_count = t.itab_count + 1 })
          (record s {
            itabs = assign addr (record { addr = addr; type_addr = type_addr }) s.itabs;
          })))

unfoldable pub parse_os_thread : P (Unit {0})
parse_os_thread = do
  addr ← uvarint_as "m addr"
  id ← uvarint_as "m id"
  os_id ← uvarint_as "os id"
  update (
      on_snap (λ s.
        on_stats (λ t. record t { os_thread_count = t.os_thread_count + 1 })
          (record s {
            os_threads = s.os_threads ++ record { addr = addr; id = id; os_id = os_id } ∷ [];
          })))
