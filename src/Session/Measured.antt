-- ===== src/Session/Measured.antt =====
-- `measure` (internal/memusage/multibubble.go) against a count over the objects of the graph.
use bubblepprof.Common.{
  ℕ, ◌+◌, ◌≤◌, ◌-◌, ◌≡◌, refl, sym, ◌∙◌, List, [], ◌∷◌, some, arith, length, get_elem?, elem-cons,
  leb, ltb, if◌then◌else◌, max_uint64, Bool-cases, inl, inr, get_elem?-some,
}
use bubblepprof.Common.Result.{ok, err}
use bubblepprof.Graph.{Graph, Object}
use bubblepprof.Usage.Totals.{bytes_in, bytes_in-nil, bytes_in-cons_new, Counts}
use bubblepprof.Session.State.{Measure, bytes_overflow, measure, measure_from, no_measure}
use bubblepprof.Session.Splits.{IsObjectSet, SameMembers, bytes_in-same, length-same}

-- The objects of a set and their sizes, counted over the graph.
abbrev pub measure_of : Graph → List ℕ → Measure
measure_of g ids = record { objects = length ids; bytes = bytes_in g.objects 0 ids }

measured : Measure → ℕ → ℕ → Measure
measured m n b = record { objects = m.objects + n; bytes = m.bytes + b }

measure_from-cons :
    (g : Graph) (m : Measure) (id : ℕ) (ids : List ℕ) (o : Object)
    → get_elem? g.objects id ≡ some o
    → measure_from g m (id ∷ ids) ≡ (
        if ltb (max_uint64 - m.bytes) o.size
        then err bytes_overflow
        else measure_from g (record { objects = m.objects + 1; bytes = m.bytes + o.size }) ids)
unfolding measure_from
measure_from-cons g m id ids o e = rw (e, measure_from) refl

measure_from_lem :
    (g : Graph) (m : Measure) (ids : List ℕ)
    → IsObjectSet g ids
    → m.bytes ≤ max_uint64
    → measure_from g m ids ≡ (
        if leb (m.bytes + bytes_in g.objects 0 ids) max_uint64
        then ok (measured m (length ids) (bytes_in g.objects 0 ids))
        else err bytes_overflow)
unfolding measure_from measured
measure_from_lem g m [] d h = ground (arith, bytes_in-nil g.objects 0)
measure_from_lem g m (id ∷ ids) (d, below) h =
    let (o, e) = get_elem?-some g.objects id (below id (ground (arith, elem-cons id id ids))) in
    let first : bytes_in g.objects 0 (id ∷ ids) ≡ o.size + bytes_in g.objects 0 ids =
      bytes_in-cons_new g id ids d.0 ∙ rw e refl in
    let rest : IsObjectSet g ids = (d.1, λ a k. below a (ground (arith, elem-cons a id ids))) in
    measure_from-cons g m id ids o e ∙ elim (Bool-cases (ltb (max_uint64 - m.bytes) o.size)) [
      | inl over ↦ rw over (ground arith)
      | inr fits ↦ rw fits (
          measure_from_lem g (record { objects = m.objects + 1; bytes = m.bytes + o.size }) ids rest
            (ground arith)
          ∙ ground arith)
    ]

-- Measuring a set of objects gives the number of its members and the exact sum of their sizes, or
-- the overflow error exactly if that sum is above the largest uint64.
pub measure_exact :
    (g : Graph) (ids : List ℕ)
    → IsObjectSet g ids
    → measure (some g) ids ≡ (
        if leb (bytes_in g.objects 0 ids) max_uint64
        then ok (measure_of g ids)
        else err bytes_overflow)
unfolding measure measured
measure_exact g ids d = measure_from_lem g no_measure ids d (omega arith) ∙ ground arith

-- Go leaves the order of a map's iteration open; the result, the error included, does not depend on
-- it: two listings of the same set of objects measure the same.
pub measure-same :
    (g : Graph) (xs ys : List ℕ)
    → IsObjectSet g xs
    → IsObjectSet g ys
    → SameMembers xs ys
    → measure (some g) xs ≡ measure (some g) ys
measure-same g xs ys p q h =
    measure_exact g xs p
    ∙ rw (length-same g xs ys p q h, bytes_in-same g.objects 0 xs ys h) (sym (measure_exact g ys q))

-- A set of objects with the property, measured.
abbrev pub Measures : Graph → (ℕ → Type 0) → Measure → Type 0
Measures g P m = Counts g P m.objects m.bytes

pub measure-eq-ok :
    (g : Graph) (ids : List ℕ) (m : Measure)
    → IsObjectSet g ids
    → measure (some g) ids ≡ ok m
    → m ≡ measure_of g ids
measure-eq-ok g ids m d h = elim (Bool-cases (leb (bytes_in g.objects 0 ids) max_uint64)) [
  | inl e ↦
      let whole : ok m ≡ ok (measure_of g ids) = sym h ∙ measure_exact g ids d ∙ rw e refl in cc
  | inr e ↦ let bad : ok m ≡ err bytes_overflow = sym h ∙ measure_exact g ids d ∙ rw e refl in cc
]
