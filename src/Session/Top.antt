-- ===== src/Session/Top.antt =====
-- Top (internal/memusage/multibubble.go): the groups of goroutines by the value of one label.
use bubblepprof.Common.{
  ℕ, ◌+◌, Bool, List, [], ◌∷◌, ◌++◌, Option, some, none, not, ltb, ◌==◌, ◌&&◌, ◌||◌, if◌then◌else◌,
  length, elem, insert, lookup, assign, sort_by, ℤ, is_negative, Text, text, text_eq, text_ltb,
  update_at, or_default,
}
use bubblepprof.Common.Result.{Result, ok, ◌>>=◌, ◌>>◌, fail_if}
use bubblepprof.Graph.{Graph, RootRef}
use bubblepprof.Graph.Types.{Analysis, GoroutineReachability}
use bubblepprof.Usage.Request.{label_value}
use bubblepprof.Usage.Compute.{labels_of}
use bubblepprof.Session.State.{
  Session, SessionError, Measure, bad_options, is_excluded, runs_system, ready, walk, measure,
}
use bubblepprof.Session.Sets.{intersection, difference, union}
use bubblepprof.Session.Compare.{cut_to}

-- `groups[value]` and `counts[value]`, which have the same keys.
pub record Group : Type 0 where
  pub roots : List RootRef
  pub goroutines : ℕ

pub record Grouping : Type 0 where
  pub groups : List (Text × Group)
  pub system : List RootRef
  pub ungrouped : List RootRef
  pub excluded_system_goroutines : ℕ
  pub ungrouped_goroutines : ℕ

abbrev pub no_grouping : Grouping
no_grouping = record {
  groups = [];
  system = [];
  ungrouped = [];
  excluded_system_goroutines = 0;
  ungrouped_goroutines = 0;
}

abbrev pub no_group : Group
no_group = record { roots = []; goroutines = 0 }

abbrev pub join : GoroutineReachability → Group → Group
join gr group = record { roots = group.roots ++ gr.roots; goroutines = group.goroutines + 1 }

module _ (s : Session) (by : Text) where
  -- `s.labels[g.GoroutineID][opts.By]`
  unfoldable pub group_of : GoroutineReachability → Option Text
  unfolding labels_of
  group_of gr = label_value by (labels_of s.labels gr.goroutine_id)

  -- A goroutine without the label.
  unfoldable pub leave_ungrouped : Grouping → GoroutineReachability → Grouping
  leave_ungrouped t gr = record t {
    ungrouped = t.ungrouped ++ gr.roots;
    system = if runs_system gr then t.system ++ gr.roots else t.system;
    ungrouped_goroutines = t.ungrouped_goroutines + 1;
  }

  -- The body of the loop over the goroutines.
  unfoldable pub add_goroutine : Grouping → GoroutineReachability → Grouping
  unfolding group_of leave_ungrouped
  add_goroutine t gr =
      if is_excluded s.opts gr
      then record t {
        system = t.system ++ gr.roots;
        excluded_system_goroutines = t.excluded_system_goroutines + 1;
      }
      else elim (group_of gr) [
        | none ↦ leave_ungrouped t gr
        | some value ↦ record t { groups = update_at no_group (join gr) value t.groups }
      ]

  unfoldable pub add_goroutines : Grouping → List GoroutineReachability → Grouping
  unfolding add_goroutine
  add_goroutines t [] = t
  add_goroutines t (gr ∷ rest) = add_goroutines (add_goroutine t gr) rest

-- `membership[id]++` for the members of a set.
unfoldable pub count_members : List (ℕ × ℕ) → List ℕ → List (ℕ × ℕ)
unfolding lookup assign
count_members membership [] = membership
count_members membership (id ∷ ids) =
    count_members (assign id (or_default 0 (lookup id membership) + 1) membership) ids

unfoldable pub count_groups :
    Option Graph → List (ℕ × ℕ) → List (Text × Group) → Result SessionError (List (ℕ × ℕ))
unfolding count_members
count_groups g membership [] = ok membership
count_groups g membership ((value, group) ∷ rest) = do
  set ← walk g group.roots
  count_groups g (count_members membership set) rest

pub record Classes : Type 0 where
  pub exclusive : List ℕ
  pub bubbles_only : List ℕ
  pub other_only : List ℕ
  pub both : List ℕ

abbrev pub no_classes : Classes
no_classes = record { exclusive = []; bubbles_only = []; other_only = []; both = [] }

-- The body of the loop over the objects of a group.
unfoldable pub classify_one : List ℕ → List (ℕ × ℕ) → Classes → ℕ → Classes
classify_one outside membership c id =
    let o = elem id outside in
    let b = ltb 1 (or_default 0 (lookup id membership)) in
    if b && o
    then record c { both = insert id c.both }
    else if b
    then record c { bubbles_only = insert id c.bubbles_only }
    else if o
    then record c { other_only = insert id c.other_only }
    else record c { exclusive = insert id c.exclusive }

unfoldable pub classify : List ℕ → List (ℕ × ℕ) → Classes → List ℕ → Classes
unfolding classify_one
classify outside membership c [] = c
classify outside membership c (id ∷ ids) =
    classify outside membership (classify_one outside membership c id) ids

-- GroupResult, with the fields of its Breakdown.
pub record GroupResult : Type 0 where
  pub value : Text
  pub goroutines : ℕ
  pub reachable : Measure
  pub exclusive : Measure
  pub shared : Measure
  pub bubbles_only : Measure
  pub other_roots_only : Measure
  pub both : Measure
  pub bubble_overlap : Measure
  pub other_root_overlap : Measure
  pub global_overlap : Measure
  pub system_overlap : Measure
  pub ungrouped_overlap : Measure

-- The sets that the rows share.
pub record Backdrop : Type 0 where
  pub global : List ℕ
  pub system : List ℕ
  pub ungrouped : List ℕ
  pub outside : List ℕ
  pub membership : List (ℕ × ℕ)

unfoldable pub measure_row :
    Option Graph → Backdrop → Text → ℕ → List ℕ → Classes → Result SessionError GroupResult
measure_row g back value goroutines set c = do
  reachable ← measure g set
  exclusive ← measure g c.exclusive
  shared ← measure g (difference set c.exclusive)
  bubbles_only ← measure g c.bubbles_only
  other_roots_only ← measure g c.other_only
  both ← measure g c.both
  bubble_overlap ← measure g (union c.bubbles_only c.both)
  other_root_overlap ← measure g (union c.other_only c.both)
  global_overlap ← measure g (intersection set back.global)
  system_overlap ← measure g (intersection set back.system)
  ungrouped_overlap ← measure g (intersection set back.ungrouped)
  ok (record {
    value = value;
    goroutines = goroutines;
    reachable = reachable;
    exclusive = exclusive;
    shared = shared;
    bubbles_only = bubbles_only;
    other_roots_only = other_roots_only;
    both = both;
    bubble_overlap = bubble_overlap;
    other_root_overlap = other_root_overlap;
    global_overlap = global_overlap;
    system_overlap = system_overlap;
    ungrouped_overlap = ungrouped_overlap;
  })

-- The body of the loop over the groups.
unfoldable pub group_row : Option Graph → Backdrop → Text → Group → Result SessionError GroupResult
unfolding classify measure_row
group_row g back value group = do
  set ← walk g group.roots
  measure_row g back value group.goroutines set
      (classify back.outside back.membership no_classes set)

unfoldable pub group_rows :
    Option Graph → Backdrop → List (Text × Group) → Result SessionError (List GroupResult)
unfolding group_row
group_rows g back [] = ok []
group_rows g back ((value, group) ∷ rest) = do
  row ← group_row g back value group
  rows ← group_rows g back rest
  ok (row ∷ rows)

pub record TopOptions : Type 0 where
  pub by : Text
  pub sort : Text
  pub limit : ℤ

pub record TopResult : Type 0 where
  pub by : Text
  pub groups : List GroupResult
  pub total_groups : ℕ
  pub ungrouped_goroutines : ℕ
  pub excluded_system_goroutines : ℕ

-- `metric`, with the empty sort already read as "reachable".
unfoldable pub metric : Text → GroupResult → ℕ
metric sort row =
    if text_eq sort (text "exclusive")
    then row.exclusive.bytes
    else if text_eq sort (text "shared")
    then row.shared.bytes
    else row.reachable.bytes

unfoldable pub row_before : Text → GroupResult → GroupResult → Bool
unfolding metric
row_before sort a b =
    if metric sort a == metric sort b
    then text_ltb a.value b.value
    else ltb (metric sort b) (metric sort a)

abbrev pub sort_or_default : Text → Text
sort_or_default sort = if length sort == 0 then text "reachable" else sort

-- The tests before `ready`.
unfoldable pub is_bad_top : TopOptions → Bool
is_bad_top opts =
    let sort = sort_or_default opts.sort in
    length opts.by == 0
    || (is_negative opts.limit
        || not (
            text_eq sort (text "reachable")
            || (text_eq sort (text "exclusive") || text_eq sort (text "shared"))))

-- The walks that the rows share.
unfoldable pub backdrop : Analysis → Grouping → Result SessionError Backdrop
unfolding count_groups
backdrop analysis t = do
  global ← walk analysis.graph analysis.globals.roots
  system ← walk analysis.graph t.system
  ungrouped ← walk analysis.graph t.ungrouped
  membership ← count_groups analysis.graph [] t.groups
  ok (record {
    global = global;
    system = system;
    ungrouped = ungrouped;
    outside = union global (union system ungrouped);
    membership = membership;
  })

-- Top
unfoldable pub top_groups : Session → TopOptions → Result SessionError TopResult
unfolding is_bad_top add_goroutines backdrop group_rows row_before
top_groups s opts = do
  fail_if (is_bad_top opts) bad_options
  analysis ← ready s
  let t = add_goroutines s opts.by no_grouping analysis.goroutines
  back ← backdrop analysis t
  rows ← group_rows analysis.graph back t.groups
  ok (record {
    by = opts.by;
    groups = cut_to opts.limit (sort_by (row_before (sort_or_default opts.sort)) rows);
    total_groups = length rows;
    ungrouped_goroutines = t.ungrouped_goroutines;
    excluded_system_goroutines = t.excluded_system_goroutines;
  })
