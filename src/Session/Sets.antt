-- ===== src/Session/Sets.antt =====
-- The set operations of internal/memusage/multibubble.go.
use bubblepprof.Common.{
  ℕ, ◌≡◌, refl, ◌&&◌, ◌||◌, not, inl, inr, Bool-cases, List, [], ◌∷◌, ltb, if◌then◌else◌, arith,
  length, elem, insert, IsDistinct, elem-insert, insert-IsDistinct,
}
use bubblepprof.Usage.Sets.{common}
use bubblepprof.Usage.Totals.{elem-common, common-IsDistinct}

-- `intersection`: the loop runs over the smaller set.
unfoldable pub intersection : List ℕ → List ℕ → List ℕ
unfolding common
intersection a b = if ltb (length b) (length a) then common b a else common a b

-- `difference`
unfoldable pub difference : List ℕ → List ℕ → List ℕ
difference [] b = []
difference (id ∷ a) b = if elem id b then difference a b else id ∷ difference a b

-- `out[id] = struct{}{}` for the members of a set.
unfoldable pub insert_all : List ℕ → List ℕ → List ℕ
insert_all out [] = out
insert_all out (id ∷ ids) = insert_all (insert id out) ids

-- `union`
unfoldable pub union : List ℕ → List ℕ → List ℕ
unfolding insert_all
union a b = insert_all (insert_all [] a) b

pub elem-intersection : (a b : List ℕ) (x : ℕ) → elem x (intersection a b) ≡ (elem x a && elem x b)
unfolding intersection
elem-intersection a b x = ground (arith, elem-common a b x, elem-common b a x)

pub intersection-IsDistinct :
    (a b : List ℕ) → IsDistinct a → IsDistinct b → IsDistinct (intersection a b)
unfolding intersection
intersection-IsDistinct a b p q = elim (Bool-cases (ltb (length b) (length a))) [
  | inl e ↦ rw e (common-IsDistinct b a q)
  | inr e ↦ rw e (common-IsDistinct a b p)
]

pub elem-difference :
    (a b : List ℕ) (x : ℕ) → elem x (difference a b) ≡ (elem x a && not (elem x b))
unfolding difference elem
elem-difference [] b x = refl
elem-difference (y ∷ a) b x = ground (arith, elem-difference a b x)

pub difference-IsDistinct : (a b : List ℕ) → IsDistinct a → IsDistinct (difference a b)
unfolding difference
difference-IsDistinct [] b p = tt
difference-IsDistinct (y ∷ a) b p = elim (Bool-cases (elem y b)) [
  | inl e ↦ rw e (difference-IsDistinct a b p.1)
  | inr e ↦ rw e (ground (arith, elem-difference a b y), difference-IsDistinct a b p.1)
]

elem-insert_all :
    (out ids : List ℕ) (x : ℕ) → elem x (insert_all out ids) ≡ (elem x out || elem x ids)
unfolding insert_all elem
elem-insert_all out [] x = ground arith
elem-insert_all out (id ∷ ids) x =
    ground (arith, elem-insert_all (insert id out) ids x, elem-insert x id out)

insert_all-IsDistinct : (out ids : List ℕ) → IsDistinct out → IsDistinct (insert_all out ids)
unfolding insert_all
insert_all-IsDistinct out [] p = p
insert_all-IsDistinct out (id ∷ ids) p =
    insert_all-IsDistinct (insert id out) ids (insert-IsDistinct id out p)

pub elem-union : (a b : List ℕ) (x : ℕ) → elem x (union a b) ≡ (elem x a || elem x b)
unfolding union elem
elem-union a b x = ground (arith, elem-insert_all (insert_all [] a) b x, elem-insert_all [] a x)

pub union-IsDistinct : (a b : List ℕ) → IsDistinct (union a b)
unfolding union
union-IsDistinct a b = insert_all-IsDistinct (insert_all [] a) b (insert_all-IsDistinct [] a tt)
