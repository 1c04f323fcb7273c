-- ===== src/Session/Query.antt =====
-- The label index and Query (internal/memusage/snapshot.go).
use bubblepprof.Common.{
  ℕ, Bool, true, false, List, [], ◌∷◌, ◌++◌, Option, some, none, ltb, ◌||◌, if◌then◌else◌, elem,
  insert, sort_by, Text, value_at, update_at, or_default,
}
use bubblepprof.Common.Result.{Result, ok, err, stuck}
use bubblepprof.Graph.Types.{Analysis, GoroutineReachability}
use bubblepprof.Usage.Request.{Labels, Request, Options}
use bubblepprof.Usage.Compute.{
  Diagnostics, InvariantReach, Response, ComputeError, compute_with, labels_of,
}
use bubblepprof.Session.State.{Session, SessionError, computing, closed, is_excluded}

abbrev pub Index : Type 0
Index = List (Text × List (Text × List ℕ))

-- `s.index[k][v] = append(s.index[k][v], gid)`
unfoldable pub add_entry : ℕ → Index → Text → Text → Index
unfolding update_at
add_entry gid idx k v = update_at [] (update_at [] (λ gids. gids ++ gid ∷ []) v) k idx

unfoldable pub add_entries : ℕ → Index → Labels → Index
unfolding add_entry
add_entries gid idx [] = idx
add_entries gid idx ((k, v) ∷ rest) = add_entries gid (add_entry gid idx k v) rest

module _ (labels : List (ℕ × Labels)) (opts : Options) where
  unfoldable pub index_goroutine : Index → GoroutineReachability → Index
  unfolding add_entries labels_of
  index_goroutine idx gr =
      if is_excluded opts gr
      then idx
      else add_entries gr.goroutine_id idx (labels_of labels gr.goroutine_id)

  unfoldable pub index_goroutines : Index → List GoroutineReachability → Index
  unfolding index_goroutine
  index_goroutines idx [] = idx
  index_goroutines idx (gr ∷ rest) = index_goroutines (index_goroutine idx gr) rest

-- The loop that sorts the ids of each value.
unfoldable pub sort_values : List (Text × List ℕ) → List (Text × List ℕ)
unfolding sort_by
sort_values [] = []
sort_values ((v, gids) ∷ rest) = (v, sort_by ltb gids) ∷ sort_values rest

unfoldable pub sort_index : Index → Index
unfolding sort_values
sort_index [] = []
sort_index ((k, values) ∷ rest) = (k, sort_values values) ∷ sort_index rest

-- newSnapshot, without the metadata.
unfoldable pub new_session : Analysis → List (ℕ × Labels) → Diagnostics → Options → Session
unfolding index_goroutines sort_index
new_session a labels diag opts = record {
  analysis = some a;
  labels = labels;
  index = sort_index (index_goroutines labels opts [] a.goroutines);
  diag = diag;
  opts = opts;
  cache = record { global = none; system = none };
}

-- `s.index[k][v]`
unfoldable pub ids_at : Text → Text → Index → List ℕ
unfolding value_at
ids_at k v idx = or_default [] (value_at v (or_default [] (value_at k idx)))

-- GoroutineIDs
unfoldable pub goroutine_ids : Session → Text → Text → List ℕ
unfolding ids_at
goroutine_ids s key value = ids_at key value s.index

-- The inner loop of Query: the ids that are candidates still.
unfoldable pub next_candidates : Bool → List ℕ → List ℕ → List ℕ
unfolding insert
next_candidates first candidates [] = []
next_candidates first candidates (id ∷ ids) =
    let rest = next_candidates first candidates ids in
    if first || elem id candidates then insert id rest else rest

-- The loop of Query over the labels, and the test after it; a nil set is `none`.
unfoldable pub candidates_from : Bool → List ℕ → Index → Labels → Option (List ℕ)
unfolding next_candidates ids_at
candidates_from first candidates idx [] = if first then none else some candidates
candidates_from first candidates idx ((k, v) ∷ rest) =
    candidates_from false (next_candidates first candidates (ids_at k v idx)) idx rest

abbrev pub cache_after : Session → Option InvariantReach → Session
cache_after s none = s
cache_after s (some c) = record s { cache = c }

abbrev pub queried :
    Session
    → Result ComputeError (Response × Option InvariantReach)
    → Result SessionError (Response × Session)
queried s (ok (resp, c)) = ok (resp, cache_after s c)
queried s (err e) = err (computing e)
queried s stuck = stuck

-- Query: the response, with the session as it is left.
unfoldable pub query : Session → Request → Result SessionError (Response × Session)
unfolding compute_with candidates_from
query s req = elim s.analysis [
  | none ↦ err closed
  | some a ↦ queried s (
      compute_with req (some a) s.labels s.diag s.opts (some s.cache)
        (candidates_from true [] s.index req.labels))
]
