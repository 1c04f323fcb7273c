-- ===== src/Session/Covered.antt =====
-- The rows of Top (multibubble.go): one for each value that a goroutine has.
use bubblepprof.Common.{
  ℕ, ◌<◌, ◌≡◌, sym, ap, ◌∙◌, refl, List, [], ◌∷◌, some, none, arith, ◌==◌, if◌then◌else◌, length,
  total, total-map, map, Text, text_eq, text_eq_iff, value_at, update_at, IsKeyed, All, Bool-cases,
  Option-cases, inl, inr,
}
use bubblepprof.Graph.{Graph}
use bubblepprof.Graph.Types.{Analysis, GoroutineReachability}
use bubblepprof.Usage.Overlap.{keep}
use bubblepprof.Session.State.{Session, is_excluded}
use bubblepprof.Session.Top.{
  Group, Grouping, no_group, no_grouping, join, group_of, leave_ungrouped, add_goroutine,
  add_goroutines, GroupResult,
}
use bubblepprof.Session.Grouped.{in_group}
use bubblepprof.Session.Backdrop.{grouping_of, group_at-goroutines, add_goroutines-IsKeyed}

-- The value and the number of goroutines, of a row and of a group.
abbrev pub row_head : GroupResult → Text × ℕ
row_head r = (r.value, r.goroutines)

abbrev pub group_head : Text × Group → Text × ℕ
group_head p = (p.0, p.1.goroutines)

-- A sum over the rows that depends on their heads only is one over the groups.
pub total-heads :
    (f : Text × ℕ → ℕ) (rows : List GroupResult) (groups : List (Text × Group))
    → map row_head rows ≡ map group_head groups
    → total (λ r. f (row_head r)) rows ≡ total (λ p. f (group_head p)) groups
total-heads f rows groups h =
    sym (total-map f row_head rows) ∙ ap (total f) h ∙ total-map f group_head groups

-- A group has a goroutine.
abbrev IsInhabited : Text × Group → Type 0
IsInhabited p = 0 < p.1.goroutines

update_at-IsInhabited :
    (gr : GoroutineReachability) (value : Text) (groups : List (Text × Group))
    → All IsInhabited groups
    → All IsInhabited (update_at no_group (join gr) value groups)
unfolding update_at
update_at-IsInhabited gr value [] h = (omega arith, tt)
update_at-IsInhabited gr value ((k, group) ∷ rest) h = elim (Bool-cases (text_eq k value)) [
  | inl e ↦ rw e (omega arith, h.1)
  | inr e ↦ rw e (h.0, update_at-IsInhabited gr value rest h.1)
]

add_goroutine-IsInhabited :
    (s : Session) (by : Text) (t : Grouping) (gr : GoroutineReachability)
    → All IsInhabited t.groups
    → All IsInhabited (add_goroutine s by t gr).groups
unfolding add_goroutine leave_ungrouped
add_goroutine-IsInhabited s by t gr h = elim (Bool-cases (is_excluded s.opts gr)) [
  | inl e ↦ rw e h
  | inr e ↦ elim (Option-cases (group_of s by gr)) [
    | inl n ↦ rw (e, n) h
    | inr (v, n) ↦ rw (e, n) (update_at-IsInhabited gr v t.groups h)
  ]
]

add_goroutines-IsInhabited :
    (s : Session) (by : Text) (t : Grouping) (grs : List GoroutineReachability)
    → All IsInhabited t.groups
    → All IsInhabited (add_goroutines s by t grs).groups
unfolding add_goroutines
add_goroutines-IsInhabited s by t [] h = h
add_goroutines-IsInhabited s by t (gr ∷ rest) h =
    add_goroutines-IsInhabited s by (add_goroutine s by t gr) rest
      (add_goroutine-IsInhabited s by t gr h)

value_at-IsInhabited :
    (value : Text) (groups : List (Text × Group)) (group : Group)
    → All IsInhabited groups
    → value_at value groups ≡ some group
    → 0 < group.goroutines
unfolding value_at
value_at-IsInhabited value [] group h e = cc
value_at-IsInhabited value ((k, first) ∷ rest) group h e = elim (Bool-cases (text_eq k value)) [
  | inl m ↦
      let same : first ≡ group = ground (arith, m) in
      omega (arith, h.0, ap (λ (p : Group). p.goroutines) same)
  | inr m ↦ value_at-IsInhabited value rest group h.1 (ground (arith, m))
]

-- How often a key occurs.
total-IsKeyed :
    (value : Text) (groups : List (Text × Group))
    → IsKeyed groups
    → total (λ p. if text_eq p.0 value then 1 else 0) groups
      ≡ (elim (value_at value groups) [ none ↦ 0 | some group ↦ 1 ])
unfolding value_at
total-IsKeyed value [] h = refl
total-IsKeyed value ((k, group) ∷ rest) h = elim (Bool-cases (text_eq k value)) [
  | inl e ↦
      let same : k ≡ value = (text_eq_iff k value).0 e in
      let alone : value_at value rest ≡ none = rw (← same) h.0 in
      ground (arith, e, alone, total-IsKeyed value rest h.1)
  | inr e ↦ ground (arith, e, total-IsKeyed value rest h.1)
]

-- The number of rows with a value: one if a goroutine is in its group, and none otherwise.
abbrev pub CoversGroups : Session → Text → Analysis → List GroupResult → Type 0
CoversGroups s by a rows =
    (value : Text)
    → total (λ r. if text_eq r.value value then 1 else 0) rows
      ≡ (if length (keep (in_group s by value) a.goroutines) == 0 then 0 else 1)

pub rows-CoversGroups :
    (s : Session) (by : Text) (a : Analysis) (g : Graph) (rows : List GroupResult)
    → map row_head rows ≡ map group_head (grouping_of s by a).groups
    → CoversGroups s by a rows
rows-CoversGroups s by a g rows heads value =
    let groups = (grouping_of s by a).groups in
    let same = total-heads (λ p. if text_eq p.0 value then 1 else 0) rows groups heads in
    let keyed =
      total-IsKeyed value groups (add_goroutines-IsKeyed s by no_grouping a.goroutines tt) in
    let count = group_at-goroutines s by a g value in
    elim (Option-cases (value_at value groups)) [
      | inl n ↦ ground (arith, n, same, keyed, count)
      | inr (group, n) ↦
          let positive =
            value_at-IsInhabited value groups group
              (add_goroutines-IsInhabited s by no_grouping a.goroutines tt) n in
          ground (arith, n, same, keyed, count, positive)
    ]
