-- ===== src/Session/Listed.antt =====
-- Which comparisons succeed, and in what order Shared lists its objects.
use bubblepprof.Common.{
  ◌<◌, ◌⊎◌, ◌↔◌, ◌∷◌, pos, true, elem, get_elem?, get_elem?-some, All, All-over_map, IsSorted,
  IsSorted-map, IsOrdered-IsSorted, IsCut, length-map, ℕ, ◌≤◌, ◌≡◌, refl, sym, ap, ◌∙◌, List, [],
  Option, some, none, arith, max_uint64, Bool, false, length, ltb, sort_by, IsStrict,
  sort_by-IsOrdered, elem-sort_by, sort_by-IsDistinct, map, ℤ, is_negative,
}
use bubblepprof.Common.Result.{ok, ok-injective, >>=-eq-ok, fail_if, fail_if-eq-ok}
use bubblepprof.Graph.{Graph, Object, RootRef}
use bubblepprof.Graph.Types.{Analysis}
use bubblepprof.Graph.Build.Laws.{sum_sizes}
use bubblepprof.Graph.Reach.{reachable_from, children}
use bubblepprof.Usage.Request.{Request, validate_request}
use bubblepprof.Usage.Sets.{common, size_at}
use bubblepprof.Session.State.{Session, Choice, bad_limit, ready, selected, choose, walk}
use bubblepprof.Session.Walked.{ready-eq-ok, walk_lem}
use bubblepprof.Session.SetOf.{IsSetOf}
use bubblepprof.Session.Compare.{
  Comparison, SharedObject, SharedResult, addr_at, measure_parts, compare_sets, compare_requests,
  larger_first, shared_object, is_cut, cut_to, non_nil, shared_objects,
}
use mathlib.Core.Path.{subst}
use bubblepprof.Session.Cut.{nonnegative, cut_to-IsCut, is_cut_iff, map-cut_to}
use bubblepprof.Session.Compared.{
  HeldFor, compare_sets-AreParts, measure_parts_fits, chosen-IsSetOf,
}

selected_valid :
    (s : Session) (req : Request) (a : Analysis)
    → validate_request (some req) s.opts ≡ none
    → (c : Choice) × (selected s req a ≡ ok c)
unfolding selected
selected_valid s req a h =
    (choose s req (record { roots = []; gids = [] }) a.goroutines, rw (h, selected) refl)

walk_total :
    (graph : Option Graph) (g : Graph) (roots : List RootRef)
    → graph ≡ some g
    → walk graph roots ≡ ok (reachable_from (some g) roots)
walk_total graph g roots e = ap (λ (k : Option Graph). walk k roots) e ∙ walk_lem g roots

-- A comparison of two valid requests on a session that is ready succeeds, where the sizes of the
-- graph's objects sum up within uint64.
pub compare_requests_total :
    (s : Session) (x y : Request) (a : Analysis) (g : Graph)
    → ready s ≡ ok a
    → a.graph ≡ some g
    → validate_request (some x) s.opts ≡ none
    → validate_request (some y) s.opts ≡ none
    → sum_sizes g.objects ≤ max_uint64
    → (out : Comparison) × (compare_requests s x y ≡ ok out)
unfolding compare_requests compare_sets
compare_requests_total s x y a g open_session graph vx vy fits =
    let (ca, ea) = selected_valid s x a vx in
    let (cb, eb) = selected_valid s y a vy in
    let left = reachable_from (some g) ca.roots in
    let right = reachable_from (some g) cb.roots in
    let (p, ep) =
      measure_parts_fits g (HeldFor s x a g) (HeldFor s y a g) left right
        (chosen-IsSetOf s x a g ca ea) (chosen-IsSetOf s y a g cb eb) fits in
    let ep' = ap (λ (k : Option Graph). measure_parts k left right) graph ∙ ep in
    (
      record {
        a = x.labels;
        b = y.labels;
        a_goroutines = length ca.gids;
        b_goroutines = length cb.gids;
        overlapping_goroutines = sort_by ltb (common ca.gids cb.gids);
        a_only = p.a_only;
        b_only = p.b_only;
        shared = p.shared;
        union = p.union;
      },
      rw
          (
            open_session,
            ea,
            eb,
            walk_total a.graph g ca.roots graph,
            walk_total a.graph g cb.roots graph,
            ep',
          )
          refl,
    )

-- The order of Shared's listing is strict.
larger_first-IsStrict : (g : Graph) → IsStrict (larger_first g)
unfolding larger_first
larger_first-IsStrict g = record {
  asym = λ a b h. ground arith;
  trans_not = λ a b c h k. ground arith;
}

sort_by-IsSetOf :
    (before : ℕ → ℕ → Bool) (g : Graph) (P : ℕ → Type 0) (ids : List ℕ)
    → IsSetOf g P ids
    → IsSetOf g P (sort_by before ids)
sort_by-IsSetOf before g P ids set = record {
  objects = (
    sort_by-IsDistinct before ids set.objects.0,
    λ a m. set.objects.1 a (rw (elem-sort_by before a ids) at m),
  );
  exact = λ a. rw (elem-sort_by before a ids) (set.exact a);
}

-- An object as it is listed, with what the graph has at its id.
abbrev pub Describes : Graph → SharedObject → Type 0
Describes g shown =
    (o : Object) × (get_elem? g.objects shown.id ≡ some o)
    × (shown.address ≡ o.addr)
    × (shown.size ≡ o.size)
    × (shown.outgoing_references ≡ length o.children)

-- `a` is larger than `b`; or as large, and at a lower address; or at the same one, with an id that
-- is not higher.
abbrev pub Leads : SharedObject → SharedObject → Type 0
Leads a b =
    (b.size < a.size)
    ⊎ ((a.size ≡ b.size) × ((a.address < b.address) ⊎ ((a.address ≡ b.address) × (a.id ≤ b.id))))

shared_object-Describes :
    (g : Graph) (id : ℕ) → id < length g.objects → Describes g (shared_object g id)
unfolding shared_object addr_at size_at children
shared_object-Describes g id h =
    let (o, at) = get_elem?-some g.objects id h in
    (o, at, ground (arith, at), ground (arith, at), ground (arith, at))

larger_first-Leads :
    (g : Graph) (a b : ℕ)
    → larger_first g b a ≡ false
    → Leads (shared_object g a) (shared_object g b)
unfolding larger_first shared_object
larger_first-Leads g a b h = ground arith

ids_of_listing : (g : Graph) (ids : List ℕ) → map (λ o. o.id) (map (shared_object g) ids) ≡ ids
unfolding shared_object
ids_of_listing g [] = refl
ids_of_listing g (id ∷ ids) = ap (λ rest. id ∷ rest) (ids_of_listing g ids)

All-elem : (P : ℕ → Type 0) (ids : List ℕ) → ((a : ℕ) → elem a ids ≡ true → P a) → All P ids
unfolding elem
All-elem P [] h = tt
All-elem P (id ∷ ids) h = (h id (ground arith), All-elem P ids (λ a m. h a (ground arith)))

-- Where Shared succeeds, its comparison is that of Compare; its limit is a number n; and there is a
-- listing of the objects that the goroutines chosen by both requests hold, each once and with the
-- address, the size and the number of children that it has in the graph, in which larger objects
-- lead, then lower addresses, then lower ids. What is listed is the first n of it, or all of it if n
-- is 0 or there are no more than n, and the result is marked truncated exactly in the first case.
pub shared_objects_listed :
    (s : Session) (x y : Request) (limit : ℤ) (a : Analysis) (g : Graph) (out : SharedResult)
    → s.analysis ≡ some a
    → a.graph ≡ some g
    → shared_objects s x y limit ≡ ok out
    → (n : ℕ) × (full : List SharedObject) × (compare_requests s x y ≡ ok out.comparison)
      × (limit ≡ pos n)
      × IsSetOf g (λ i. HeldFor s x a g i × HeldFor s y a g i) (map (λ o. o.id) full)
      × All (Describes g) full
      × IsSorted Leads full
      × IsCut n full out.objects
      × ((out.truncated ≡ true) ↔ ((0 < n) × (n < length full)))
unfolding shared_objects compare_requests
shared_objects_listed s x y limit a g out open_session graph h =
    let (_, e0, h0) = >>=-eq-ok (fail_if (is_negative limit) bad_limit) _ h in
    let (a', e, h1) = >>=-eq-ok (ready s) _ h0 in
    let ((c, set), e', h2) = >>=-eq-ok (compare_sets s a' x y) _ h1 in
    let (g', e'', h3) = >>=-eq-ok (non_nil a'.graph) _ h2 in
    let same : a' ≡ a = ground (arith, ready-eq-ok s a' e) in
    let same_graph : g' ≡ g = ground arith in
    let found : compare_sets s a x y ≡ ok (c, set) =
      ap (λ (b : Analysis). compare_sets s b x y) (sym same) ∙ e' in
    let (n, is_n) = nonnegative limit (fail_if-eq-ok (is_negative limit) bad_limit e0) in
    let ids = sort_by (larger_first g) set in
    let is_set =
      sort_by-IsSetOf (larger_first g) g _ set
        (compare_sets-AreParts s a x y g c set graph found).1 in
    let full = map (shared_object g) ids in
    let ended = ok-injective h3 in
    let shown : out.objects ≡ map (shared_object g) (cut_to limit ids) =
      sym (ap (λ (r : SharedResult). r.objects) ended)
      ∙ ap (λ (k : Graph). map (shared_object k) (cut_to limit (sort_by (larger_first k) set)))
          same_graph in
    let marked : out.truncated ≡ is_cut limit ids =
      sym (ap (λ (r : SharedResult). r.truncated) ended)
      ∙ ap (λ (k : Graph). is_cut limit (sort_by (larger_first k) set)) same_graph in
    (
      n,
      full,
      rw (e, e') (ap (λ (r : SharedResult). ok r.comparison) ended),
      is_n,
      subst (IsSetOf g _) (sym (ids_of_listing g ids)) is_set,
      All-over_map (Describes g) (shared_object g) ids
          (All-elem _ ids (λ i m. shared_object-Describes g i (is_set.objects.1 i m))),
      IsSorted-map Leads (shared_object g) ids (
          IsOrdered-IsSorted (larger_first g) _ (larger_first-Leads g) ids
            (sort_by-IsOrdered (larger_first g) (larger_first-IsStrict g) set)),
      subst (IsCut n full)
          (sym
            (shown ∙ map-cut_to (shared_object g) limit ids ∙ ap (λ (l : ℤ). cut_to l full) is_n))
          (cut_to-IsCut n full),
      subst (λ (t : Bool). (t ≡ true) ↔ ((0 < n) × (n < length full)))
          (sym (marked ∙ ap (λ (l : ℤ). is_cut l ids) is_n)) (rw length-map (is_cut_iff n ids)),
    )
