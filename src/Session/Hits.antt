-- ===== src/Session/Hits.antt =====
-- The membership counts of Top (multibubble.go): how many groups reach an object.
use bubblepprof.Common.{
  ℕ, ◌+◌, ◌<◌, ◌≡◌, ◌≢◌, refl, sym, ap, ◌∙◌, List, [], ◌∷◌, Option, some, none, arith, Bool, true,
  false, not, ◌&&◌, Bool-cases, inl, inr, if◌then◌else◌, lookup, assign, lookup-assign, elem,
  IsDistinct, Text, text_eq, text_eq_iff, value_at, or_default, IsKeyed,
}
use bubblepprof.Common.Result.{ok, >>=-eq-ok}
use bubblepprof.Graph.{Graph}
use bubblepprof.Graph.Reach.{reachable_from}
use bubblepprof.Graph.Correct.{Reachable-nil, reachable_from-IsDistinct, reachable_from_correct}
use bubblepprof.Session.State.{walk}
use bubblepprof.Session.Compared.{walk-eq-ok}
use bubblepprof.Session.Top.{Group, no_group, count_members, count_groups}
use bubblepprof.Session.Grouped.{group_at}

-- `membership[id]`
abbrev pub count_at : List (ℕ × ℕ) → ℕ → ℕ
count_at membership id = or_default 0 (lookup id membership)

count_members_lem :
    (membership : List (ℕ × ℕ)) (ids : List ℕ) (x : ℕ)
    → IsDistinct ids
    → count_at (count_members membership ids) x
      ≡ count_at membership x + (if elem x ids then 1 else 0)
unfolding count_members elem
count_members_lem membership [] x d = omega arith
count_members_lem membership (id ∷ ids) x d = ground (
  arith,
  count_members_lem (assign id (count_at membership id + 1) membership) ids x d.1,
  lookup-assign id x (count_at membership id + 1) membership,
)

module _ (g : Graph) (x : ℕ) where
  -- Whether a group reaches the object.
  abbrev pub reaches : Group → Bool
  reaches group = elem x (reachable_from (some g) group.roots)

  -- How many groups do, and how many with another value.
  abbrev pub hits : List (Text × Group) → ℕ
  hits [] = 0
  hits ((value, group) ∷ rest) = (if reaches group then 1 else 0) + hits rest

  abbrev pub hits_beside : Text → List (Text × Group) → ℕ
  hits_beside v [] = 0
  hits_beside v ((value, group) ∷ rest) =
      (if not (text_eq value v) && reaches group then 1 else 0) + hits_beside v rest

  reaches_none : reaches no_group ≡ false
  reaches_none = elim (Bool-cases (reaches no_group)) [
    | inl e ↦ absurd (Reachable-nil ((reachable_from_correct g [] x).0 e))
    | inr e ↦ e
  ]

  pub count_groups_lem :
      (graph : Option Graph) (membership : List (ℕ × ℕ)) (groups : List (Text × Group))
      (out : List (ℕ × ℕ))
      → graph ≡ some g
      → count_groups graph membership groups ≡ ok out
      → count_at out x ≡ count_at membership x + hits groups
  unfolding count_groups
  count_groups_lem graph membership [] out e h = ground arith
  count_groups_lem graph membership ((value, group) ∷ rest) out e h =
      let (set, walked, h1) = >>=-eq-ok (walk graph group.roots) _ h in
      let same = walk-eq-ok graph g group.roots set e walked in
      let distinct : IsDistinct set = rw same (reachable_from-IsDistinct g group.roots) in
      let hit : elem x set ≡ reaches group = ap (elem x) same in
      ground (
        arith,
        count_groups_lem graph (count_members membership set) rest out e h1,
        count_members_lem membership set x distinct,
        hit,
      )

  hits_beside_missing :
      (v : Text) (groups : List (Text × Group))
      → value_at v groups ≡ none
      → hits_beside v groups ≡ hits groups
  unfolding value_at
  hits_beside_missing v [] h = refl
  hits_beside_missing v ((value, group) ∷ rest) h = ground (arith, hits_beside_missing v rest)

  pub hits_split :
      (v : Text) (groups : List (Text × Group))
      → IsKeyed groups
      → hits groups ≡ (if reaches (group_at v groups) then 1 else 0) + hits_beside v groups
  unfolding value_at
  hits_split v [] k = rw reaches_none refl
  hits_split v ((value, group) ∷ rest) k = elim (Bool-cases (text_eq value v)) [
    | inl e ↦
        let same : value ≡ v = (text_eq_iff value v).0 e in
        rw e (omega (arith, hits_beside_missing v rest (rw same at k.0)))
    | inr e ↦ rw e (omega (arith, hits_split v rest k.1))
  ]

  pub hits_beside-pos :
      (v : Text) (groups : List (Text × Group))
      → IsKeyed groups
      → 0 < hits_beside v groups
      → (w : Text) × (w ≢ v) × (reaches (group_at w groups) ≡ true)
  unfolding value_at
  hits_beside-pos v [] k h = absurd (omega arith)
  hits_beside-pos v ((value, group) ∷ rest) k h =
      elim (Bool-cases (not (text_eq value v) && reaches group)) [
        | inl e ↦ (
          value,
          λ same. ground (arith, text_eq_iff value v),
          rw ((text_eq_iff value value).1 refl) (ground arith),
        )
        | inr e ↦
            let (w, other, hit) = hits_beside-pos v rest k.1 (ground arith) in
            (
              w,
              other,
              elim (Bool-cases (text_eq value w)) [
                | inl same ↦
                    let gone : value_at w rest ≡ none = rw ((text_eq_iff value w).0 same) at k.0 in
                    absurd (ground (arith, gone, reaches_none))
                | inr differs ↦ rw differs hit
              ],
            )
      ]

  pub pos-hits_beside :
      (v w : Text) (groups : List (Text × Group))
      → w ≢ v
      → reaches (group_at w groups) ≡ true
      → 0 < hits_beside v groups
  unfolding value_at
  pos-hits_beside v w [] other hit = absurd (ground (arith, reaches_none))
  pos-hits_beside v w ((value, group) ∷ rest) other hit = elim (Bool-cases (text_eq value w)) [
    | inl same ↦
        let here : reaches group ≡ true = rw same at hit in
        let apart : text_eq value v ≡ false = (elim (Bool-cases (text_eq value v)) [
          | inl e ↦ absurd (other (sym ((text_eq_iff value w).0 same) ∙ (text_eq_iff value v).0 e))
          | inr e ↦ e
        ]) in
        ground arith
    | inr differs ↦
        let there : reaches (group_at w rest) ≡ true = rw differs at hit in
        omega (arith, pos-hits_beside v w rest other there)
  ]
