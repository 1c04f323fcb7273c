-- ===== src/Graph/Build/Stamps.antt =====
-- The duplicate check of the edge loop (build.go): within one object, a target carries the
-- object's stamp exactly if its edge is recorded.
use bubblepprof.Common.{
  ℕ, ◌+◌, ◌≤◌, ◌<◌, ◌≡◌, ◌≢◌, refl, ◌↔◌, ◌⊎◌, inl, inr, ⊎_elim, true, false, Bool-cases, List, [],
  ◌∷◌, some, none, Option-cases, arith, length, length-modify, get_or, get_or-modify_self,
  get_or-modify_ne, modify, elem, elem-append, elem-cons, elem-cons_iff, elem-nil, IsDistinct,
  IsDistinct-append, ◌==◌, if◌then◌else◌,
}
use bubblepprof.Snapshot
use bubblepprof.Graph.{Graph, find_object_containing}
use bubblepprof.Graph.Types.{Options}
use bubblepprof.Graph.Build.Edges.{EdgeScan, add_edge, scan_pointer, scan_pointers}

module _ (n epoch : ℕ) where
  pub record Stamped (s : EdgeScan) : Type 0 where
    pub size : length s.seen ≡ n
    pub marks : (t : ℕ) → t < n → (get_or s.seen t 0 ≡ epoch) ↔ (elem t s.children ≡ true)
    pub low : (t : ℕ) → get_or s.seen t 0 ≤ epoch
    pub distinct : IsDistinct s.children

  -- The recorded targets are the old ones and the new one.
  add_edge-children :
      (s : EdgeScan) (t u : ℕ)
      → t < n
      → Stamped s
      → (elem u (add_edge epoch s t).children ≡ true) ↔ ((elem u s.children ≡ true) ⊎ (u ≡ t))
  unfolding add_edge
  add_edge-children s t u h inv =
      ground (arith, inv.marks t h, elem-append u s.children (t ∷ []), elem-cons u t [], elem-nil u)

  stamp_at :
      (s : EdgeScan) (t u : ℕ)
      → t < n
      → Stamped s
      → get_or (modify s.seen t (λ _. epoch)) u 0 ≡ (if t == u then epoch else get_or s.seen u 0)
  stamp_at s t u h inv = elim (Bool-cases (t == u)) [
    | inl e ↦
        let e' : t ≡ u = ground arith in
        rw e (rw (← e') (get_or-modify_self s.seen t (λ _. epoch) 0 (omega (arith, inv.size))))
    | inr e ↦ rw e (get_or-modify_ne s.seen t u (λ _. epoch) 0 (ground arith))
  ]

  add_edge-Stamped : (s : EdgeScan) (t : ℕ) → t < n → Stamped s → Stamped (add_edge epoch s t)
  unfolding add_edge
  add_edge-Stamped s t h inv = elim (Bool-cases (get_or s.seen t 0 == epoch)) [
    | inl old ↦ rw old inv
    | inr new ↦
        let fresh : elem t s.children ≡ false = ground (arith, inv.marks t h) in
        rw new (record {
          size = rw length-modify inv.size;
          marks = λ u k. ground (
            arith,
            stamp_at s t u h inv,
            inv.marks u k,
            elem-append u s.children (t ∷ []),
            elem-cons u t [],
            elem-nil u,
          );
          low = λ u. ground (arith, stamp_at s t u h inv, inv.low u);
          distinct = IsDistinct-append t s.children fresh inv.distinct;
        })
  ]

  Stamped-same :
      (s s' : EdgeScan) → s'.seen ≡ s.seen → s'.children ≡ s.children → Stamped s → Stamped s'
  Stamped-same s s' e c inv = record {
    size = rw e inv.size;
    marks = λ t h. rw (e, c) (inv.marks t h);
    low = λ t. rw e (inv.low t);
    distinct = rw c inv.distinct;
  }

regroup {ℓ} : {A B C D E F : Type ℓ} → A ↔ (B ⊎ C) → B ↔ (D ⊎ E) → F ↔ (E ⊎ C) → A ↔ (D ⊎ F)
regroup a b f = (
  λ x. ⊎_elim (λ y. ⊎_elim inl (λ e. inr (f.1 (inl e))) (b.0 y)) (λ c. inr (f.1 (inr c))) (a.0 x),
  ⊎_elim (λ d. a.1 (inl (b.1 (inl d)))) (λ x. a.1 (⊎_elim (λ e. inl (b.1 (inr e))) inr (f.0 x))),
)

-- A nonzero pointer of the list resolves to `t`.
abbrev pub PointsTo : Graph → List ℕ → ℕ → Type 0
PointsTo g ptrs t =
    (ptr : ℕ) × (elem ptr ptrs ≡ true) × (ptr ≢ 0) × (find_object_containing (some g) ptr ≡ some t)

PointsTo-cons :
    (g : Graph) (ptr : ℕ) (rest : List ℕ) (t : ℕ)
    → PointsTo g (ptr ∷ rest) t
      ↔ (((ptr ≢ 0) × (find_object_containing (some g) ptr ≡ some t)) ⊎ PointsTo g rest t)
PointsTo-cons g ptr rest t = (
  λ (p, m, nz, e). elim ((elem-cons_iff p ptr rest).0 m) [
    | inl same ↦ inl (rw (← same) nz, rw (← same) e)
    | inr m' ↦ inr (p, m', nz, e)
  ],
  λ c. elim c [
    | inl (nz, e) ↦ (ptr, (elem-cons_iff ptr ptr rest).1 (inl refl), nz, e)
    | inr (p, m, nz, e) ↦ (p, (elem-cons_iff p ptr rest).1 (inr m), nz, e)
  ],
)

-- What a round over one pointer does, by what the pointer is.
module _ (opts : Options) (g : Graph) (src : Snapshot.Object) (epoch : ℕ) (s : EdgeScan)
    (pi ptr : ℕ) where
  abbrev after : EdgeScan
  after = scan_pointer opts g src epoch s pi ptr

  scan_pointer_zero : ptr ≡ 0 → (after.seen ≡ s.seen) × (after.children ≡ s.children)
  unfolding scan_pointer
  scan_pointer_zero z = ground arith

  scan_pointer_lost :
      find_object_containing (some g) ptr ≡ none
      → (after.seen ≡ s.seen) × (after.children ≡ s.children)
  unfolding scan_pointer
  scan_pointer_lost e = ground arith

  scan_pointer_hit :
      (t : ℕ)
      → ptr ≢ 0
      → find_object_containing (some g) ptr ≡ some t
      → (after.seen ≡ (add_edge epoch s t).seen) × (after.children ≡ (add_edge epoch s t).children)
  unfolding scan_pointer
  scan_pointer_hit t nz e = ground arith

  -- Each pointer is counted once, as zero, resolved or unresolved.
  pub scan_pointer_counts :
      s.raw ≡ s.zeros + s.resolved + s.unresolved
      → (after.raw ≡ after.zeros + after.resolved + after.unresolved) × (after.raw ≡ s.raw + 1)
  unfolding scan_pointer
  scan_pointer_counts h = ground arith

module _ (opts : Options) (g : Graph) (src : Snapshot.Object) (n epoch : ℕ)
    (valid : (ptr t : ℕ) → find_object_containing (some g) ptr ≡ some t → t < n) where
  scan_pointer_effect :
      (s : EdgeScan) (pi ptr : ℕ)
      → Stamped n epoch s
      → Stamped n epoch (scan_pointer opts g src epoch s pi ptr)
        × ((t : ℕ)
            → (elem t (scan_pointer opts g src epoch s pi ptr).children ≡ true) ↔ (
                (elem t s.children ≡ true)
                ⊎ ((ptr ≢ 0) × (find_object_containing (some g) ptr ≡ some t))))
  scan_pointer_effect s pi ptr inv = elim (Bool-cases (ptr == 0)) [
    | inl z ↦
        let (e, c) = scan_pointer_zero opts g src epoch s pi ptr (ground arith) in
        (
          Stamped-same n epoch s (scan_pointer opts g src epoch s pi ptr) e c inv,
          λ t. rw c (inl, ⊎_elim (λ m. m) (λ (nz, _). absurd (ground arith))),
        )
    | inr nz ↦ elim (Option-cases (find_object_containing (some g) ptr)) [
      | inl lost ↦
          let (e, c) = scan_pointer_lost opts g src epoch s pi ptr lost in
          (
            Stamped-same n epoch s (scan_pointer opts g src epoch s pi ptr) e c inv,
            λ t. rw c (inl, ⊎_elim (λ m. m) (λ (_, found). cc)),
          )
      | inr (u, found) ↦
          let (e, c) = scan_pointer_hit opts g src epoch s pi ptr u (ground arith) found in
          let h = valid ptr u found in
          (
            Stamped-same n epoch (add_edge epoch s u) (scan_pointer opts g src epoch s pi ptr) e c
                (add_edge-Stamped n epoch s u h inv),
            λ t. rw c (ground (arith, add_edge-children n epoch s u t h inv, found)),
          )
    ]
  ]

  -- The loop over the pointers of an object records exactly the targets of its pointers.
  pub scan_pointers_effect :
      (s : EdgeScan) (pi : ℕ) (ptrs : List ℕ)
      → Stamped n epoch s
      → Stamped n epoch (scan_pointers opts g src epoch s pi ptrs)
        × ((t : ℕ)
            → (elem t (scan_pointers opts g src epoch s pi ptrs).children ≡ true)
              ↔ ((elem t s.children ≡ true) ⊎ PointsTo g ptrs t))
  unfolding scan_pointers
  scan_pointers_effect s pi [] inv =
      (inv, λ t. (inl, ⊎_elim (λ m. m) (λ (p, m, _, _). cc (elem-nil p))))
  scan_pointers_effect s pi (ptr ∷ rest) inv =
      let (inv', one) = scan_pointer_effect s pi ptr inv in
      let (inv'', more) =
        scan_pointers_effect (scan_pointer opts g src epoch s pi ptr) (pi + 1) rest inv' in
      (inv'', λ t. regroup (more t) (one t) (PointsTo-cons g ptr rest t))

pub scan_pointers_counts :
    (opts : Options) (g : Graph) (src : Snapshot.Object) (epoch : ℕ) (s : EdgeScan) (pi : ℕ)
    (ptrs : List ℕ)
    → s.raw ≡ s.zeros + s.resolved + s.unresolved
    → ((scan_pointers opts g src epoch s pi ptrs).raw
        ≡ (scan_pointers opts g src epoch s pi ptrs).zeros
          + (scan_pointers opts g src epoch s pi ptrs).resolved
          + (scan_pointers opts g src epoch s pi ptrs).unresolved)
      × ((scan_pointers opts g src epoch s pi ptrs).raw ≡ s.raw + length ptrs)
unfolding scan_pointers
scan_pointers_counts opts g src epoch s pi [] h = omega arith
scan_pointers_counts opts g src epoch s pi (ptr ∷ rest) h =
    let (e, c) = scan_pointer_counts opts g src epoch s pi ptr h in
    let more =
      scan_pointers_counts opts g src epoch (scan_pointer opts g src epoch s pi ptr) (pi + 1) rest
        e in
    omega arith
