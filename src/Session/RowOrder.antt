-- ===== src/Session/RowOrder.antt =====
-- The order of the rows of Top (multibubble.go).
use bubblepprof.Common.{
  ℕ, Bool, ◌<◌, ◌≡◌, ◌⊎◌, refl, sym, true, false, [], ◌∷◌, arith, ◌||◌, Bool-cases, inl, inr, Text,
  text, text_eq, text_eq_iff, text_ltb, text_ltb_asym, text_ltb_trans_not, IsStrict,
}
use mathlib.Core.Path.{subst}
use bubblepprof.Session.Top.{
  GroupResult, metric, row_before, sort_or_default, TopOptions, is_bad_top,
}

pub row_before-IsStrict : (sort : Text) → IsStrict (row_before sort)
unfolding row_before
row_before-IsStrict sort = record {
  asym = λ a b h. ground (arith, text_ltb_asym a.value b.value);
  trans_not = λ a b c h k. ground (arith, text_ltb_trans_not a.value b.value c.value);
}

-- The bytes that a sort name stands for.
abbrev pub IsMetric : Text → (GroupResult → ℕ) → Type 0
IsMetric sort m =
    (((sort ≡ []) ⊎ (sort ≡ text "reachable")) × ((r : GroupResult) → m r ≡ r.reachable.bytes))
    ⊎ (((sort ≡ text "exclusive") × ((r : GroupResult) → m r ≡ r.exclusive.bytes))
        ⊎ ((sort ≡ text "shared") × ((r : GroupResult) → m r ≡ r.shared.bytes)))

metric_reachable : (r : GroupResult) → metric (text "reachable") r ≡ r.reachable.bytes
unfolding metric text_eq
metric_reachable r = refl

metric_exclusive : (r : GroupResult) → metric (text "exclusive") r ≡ r.exclusive.bytes
unfolding metric text_eq
metric_exclusive r = refl

metric_shared : (r : GroupResult) → metric (text "shared") r ≡ r.shared.bytes
unfolding metric text_eq
metric_shared r = refl

-- A sort name that Top takes.
abbrev is_sort_name : Text → Bool
is_sort_name name =
    text_eq name (text "reachable")
    || (text_eq name (text "exclusive") || text_eq name (text "shared"))

named-IsMetric : (name : Text) → is_sort_name name ≡ true → IsMetric name (metric name)
named-IsMetric name h = elim (Bool-cases (text_eq name (text "reachable"))) [
  | inl e ↦
      let same = (text_eq_iff name (text "reachable")).0 e in
      inl (
        inr same,
        subst (λ (t : Text). (r : GroupResult) → metric t r ≡ r.reachable.bytes) (sym same)
            metric_reachable,
      )
  | inr e ↦ elim (Bool-cases (text_eq name (text "exclusive"))) [
    | inl e' ↦
        let same = (text_eq_iff name (text "exclusive")).0 e' in
        inr (
          inl (
            same,
            subst (λ (t : Text). (r : GroupResult) → metric t r ≡ r.exclusive.bytes) (sym same)
                metric_exclusive,
          ))
    | inr e' ↦
        let same = (text_eq_iff name (text "shared")).0 (ground arith) in
        inr (
          inr (
            same,
            subst (λ (t : Text). (r : GroupResult) → metric t r ≡ r.shared.bytes) (sym same)
                metric_shared,
          ))
  ]
]

default-IsMetric :
    (sort : Text)
    → is_sort_name (sort_or_default sort) ≡ true
    → IsMetric sort (metric (sort_or_default sort))
default-IsMetric [] h = inl (inl refl, metric_reachable)
default-IsMetric (c ∷ cs) h =
    let given : sort_or_default (c ∷ cs) ≡ c ∷ cs = ground arith in
    subst (λ (t : Text). IsMetric (c ∷ cs) (metric t)) (sym given)
      (named-IsMetric (c ∷ cs) (subst (λ (t : Text). is_sort_name t ≡ true) given h))

pub metric-IsMetric :
    (opts : TopOptions)
    → is_bad_top opts ≡ false
    → IsMetric opts.sort (metric (sort_or_default opts.sort))
unfolding is_bad_top
metric-IsMetric opts h = default-IsMetric opts.sort (ground arith)

-- `a` has more bytes than `b`, or as many and a value that is not after that of `b`.
abbrev pub RowLeads : (GroupResult → ℕ) → GroupResult → GroupResult → Type 0
RowLeads m a b = (m b < m a) ⊎ ((m a ≡ m b) × (text_ltb b.value a.value ≡ false))

pub row_before-RowLeads :
    (sort : Text) (a b : GroupResult) → row_before sort b a ≡ false → RowLeads (metric sort) a b
unfolding row_before
row_before-RowLeads sort a b h = ground arith
