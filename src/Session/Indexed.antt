-- ===== src/Session/Indexed.antt =====
-- What the label index of a session (internal/memusage/snapshot.go) holds.
use bubblepprof.Common.{
  ℕ, ap, ◌∙◌, sort_by, ◌≡◌, refl, Bool, true, false, List, [], ◌∷◌, ◌++◌, some, none, arith, ltb,
  ◌&&◌, ◌||◌, if◌then◌else◌, elem, elem-append, elem-cons, elem-insert, elem-sort_by, Text, text_eq,
  text_eq_iff, value_at, update_at, value_at-update_at, or_default, All, Bool-cases, inl, inr,
}
use bubblepprof.Graph.Types.{GoroutineReachability}
use bubblepprof.Usage.Request.{Labels, Options, label_value}
use bubblepprof.Usage.Compute.{labels_of}
use bubblepprof.Session.State.{is_excluded}
use bubblepprof.Session.Query.{
  Index, add_entry, add_entries, index_goroutine, index_goroutines, sort_values, sort_index, ids_at,
  next_candidates, candidates_from,
}

pub ids_at-add_entry :
    (gid : ℕ) (idx : Index) (k v j w : Text)
    → ids_at j w (add_entry gid idx k v)
      ≡ (if text_eq k j && text_eq v w then ids_at j w idx ++ gid ∷ [] else ids_at j w idx)
unfolding ids_at add_entry
ids_at-add_entry gid idx k v j w =
    let inner = or_default [] (value_at k idx) in
    let append = λ (gids : List ℕ). gids ++ gid ∷ [] in
    ground (
      arith,
      value_at-update_at [] (update_at [] append v) k j idx,
      value_at-update_at [] append v w inner,
      text_eq_iff k j,
      text_eq_iff v w,
    )

-- Entries are only added.
add_entry_mono :
    (x gid : ℕ) (idx : Index) (k v j w : Text)
    → elem x (ids_at j w idx) ≡ true
    → elem x (ids_at j w (add_entry gid idx k v)) ≡ true
add_entry_mono x gid idx k v j w h =
    ground (arith, ids_at-add_entry gid idx k v j w, elem-append x (ids_at j w idx) (gid ∷ []))

add_entries_mono :
    (x gid : ℕ) (idx : Index) (labels : Labels) (j w : Text)
    → elem x (ids_at j w idx) ≡ true
    → elem x (ids_at j w (add_entries gid idx labels)) ≡ true
unfolding add_entries
add_entries_mono x gid idx [] j w h = h
add_entries_mono x gid idx ((k, v) ∷ rest) j w h =
    add_entries_mono x gid (add_entry gid idx k v) rest j w (add_entry_mono x gid idx k v j w h)

-- A goroutine is listed under each of its labels.
add_entries-listed :
    (gid : ℕ) (idx : Index) (labels : Labels) (j w : Text)
    → label_value j labels ≡ some w
    → elem gid (ids_at j w (add_entries gid idx labels)) ≡ true
unfolding add_entries label_value
add_entries-listed gid idx [] j w h = cc
add_entries-listed gid idx ((k, v) ∷ rest) j w h = elim (Bool-cases (text_eq k j)) [
  | inl e ↦
      let same : v ≡ w = ground (arith, e) in
      add_entries_mono gid gid (add_entry gid idx k v) rest j w (
        ground (
          arith,
          e,
          text_eq_iff v w,
          ids_at-add_entry gid idx k v j w,
          elem-append gid (ids_at j w idx) (gid ∷ []),
          elem-cons gid gid [],
        ))
  | inr e ↦ add_entries-listed gid (add_entry gid idx k v) rest j w (ground (arith, e))
]

module _ (labels : List (ℕ × Labels)) (opts : Options) where
  -- A goroutine that is not passed over is listed under each of its labels.
  abbrev pub IsListed : Index → GoroutineReachability → Type 0
  IsListed idx gr =
      is_excluded opts gr ≡ false
      → (j w : Text) → label_value j (labels_of labels gr.goroutine_id) ≡ some w
      → elem gr.goroutine_id (ids_at j w idx) ≡ true

  index_goroutine_mono :
      (x : ℕ) (idx : Index) (gr : GoroutineReachability) (j w : Text)
      → elem x (ids_at j w idx) ≡ true
      → elem x (ids_at j w (index_goroutine labels opts idx gr)) ≡ true
  unfolding index_goroutine
  index_goroutine_mono x idx gr j w h = elim (Bool-cases (is_excluded opts gr)) [
    | inl e ↦ rw e h
    | inr e ↦ rw e (add_entries_mono x gr.goroutine_id idx (labels_of labels gr.goroutine_id) j w h)
  ]

  index_goroutines_mono :
      (x : ℕ) (idx : Index) (grs : List GoroutineReachability) (j w : Text)
      → elem x (ids_at j w idx) ≡ true
      → elem x (ids_at j w (index_goroutines labels opts idx grs)) ≡ true
  unfolding index_goroutines
  index_goroutines_mono x idx [] j w h = h
  index_goroutines_mono x idx (gr ∷ rest) j w h =
      index_goroutines_mono x (index_goroutine labels opts idx gr) rest j w
        (index_goroutine_mono x idx gr j w h)

  index_goroutine-IsListed :
      (idx : Index) (gr : GoroutineReachability) → IsListed (index_goroutine labels opts idx gr) gr
  unfolding index_goroutine
  index_goroutine-IsListed idx gr eligible j w h =
      rw eligible (add_entries-listed gr.goroutine_id idx (labels_of labels gr.goroutine_id) j w h)

  pub index_goroutines-IsListed :
      (idx : Index) (grs : List GoroutineReachability)
      → All (IsListed (index_goroutines labels opts idx grs)) grs
  unfolding index_goroutines
  index_goroutines-IsListed idx [] = tt
  index_goroutines-IsListed idx (gr ∷ rest) = (
    λ eligible j w h.
        index_goroutines_mono gr.goroutine_id (index_goroutine labels opts idx gr) rest j w
          (index_goroutine-IsListed idx gr eligible j w h),
    index_goroutines-IsListed (index_goroutine labels opts idx gr) rest,
  )

value_at-sorted :
    (w : Text) (values : List (Text × List ℕ))
    → or_default [] (value_at w (sort_values values))
      ≡ sort_by ltb (or_default [] (value_at w values))
unfolding sort_values value_at sort_by
value_at-sorted w [] = refl
value_at-sorted w ((v, gids) ∷ rest) = elim (Bool-cases (text_eq v w)) [
  | inl e ↦ rw e refl
  | inr e ↦ rw e (value_at-sorted w rest)
]

pub ids_at-sorted :
    (j w : Text) (idx : Index) → ids_at j w (sort_index idx) ≡ sort_by ltb (ids_at j w idx)
unfolding sort_index ids_at value_at sort_by
ids_at-sorted j w [] = refl
ids_at-sorted j w ((k, values) ∷ rest) = elim (Bool-cases (text_eq k j)) [
  | inl e ↦ rw e (value_at-sorted w values)
  | inr e ↦ rw e (ids_at-sorted j w rest)
]

-- Sorting keeps the ids.
pub ids_at-sort_index :
    (j w : Text) (idx : Index) (x : ℕ)
    → elem x (ids_at j w (sort_index idx)) ≡ elem x (ids_at j w idx)
ids_at-sort_index j w idx x =
    ap (elem x) (ids_at-sorted j w idx) ∙ elem-sort_by ltb x (ids_at j w idx)

elem-next_candidates :
    (first : Bool) (candidates ids : List ℕ) (x : ℕ)
    → elem x (next_candidates first candidates ids) ≡ (elem x ids && (first || elem x candidates))
unfolding next_candidates elem
elem-next_candidates first candidates [] x = refl
elem-next_candidates first candidates (id ∷ ids) x = ground (
  arith,
  elem-next_candidates first candidates ids x,
  elem-insert x id (next_candidates first candidates ids),
)

-- An id that the index lists under every label of the request stays a candidate.
pub candidates_from_keeps :
    (first : Bool) (candidates : List ℕ) (idx : Index) (labels : Labels) (x : ℕ)
    → (first || elem x candidates) ≡ true
    → All (λ kv. elem x (ids_at kv.0 kv.1 idx) ≡ true) labels
    → (elim (candidates_from first candidates idx labels) [ none ↦ true | some ids ↦ elem x ids ])
      ≡ true
unfolding candidates_from
candidates_from_keeps first candidates idx [] x h listed = ground arith
candidates_from_keeps first candidates idx ((k, v) ∷ rest) x h listed =
    candidates_from_keeps false (next_candidates first candidates (ids_at k v idx)) idx rest x
      (ground (arith, elem-next_candidates first candidates (ids_at k v idx) x, listed.0)) listed.1
