-- ===== src/Usage/Failures.antt =====
-- Label-decode failures (internal/memusage/compute.go): which of them fail a request.
use bubblepprof.Common.{
  ℕ, ◌≤◌, ◌≡◌, ◌↔◌, inl, inr, true, false, List, [], ◌∷◌, none, arith, elem, elem-cons_iff,
  elem-nil, All,
}
use bubblepprof.Usage.Compute.{
  Diagnostics, members, no_gids, counts_as_eligible, count_failed, count_missing, eligible_failures,
  eligible_failure_error,
}

All-elem {ℓ} : (P : ℕ → Type ℓ) (xs : List ℕ) (a : ℕ) → All P xs → elem a xs ≡ true → P a
All-elem P [] a h m = cc (elem-nil a)
All-elem P (x ∷ xs) a h m = elim ((elem-cons_iff a x xs).0 m) [
  | inl e ↦ rw e h.0
  | inr m' ↦ All-elem P xs a h.1 m'
]

module _ (known eligible : List ℕ) where
  -- The failure of this goroutine cannot change what is matched.
  abbrev pub IsIgnored : ℕ → Type 0
  IsIgnored gid = (elem gid known ≡ true) × (elem gid eligible ≡ false)

  IsIgnored-iff : (gid : ℕ) → (counts_as_eligible known eligible gid ≡ false) ↔ IsIgnored gid
  unfolding counts_as_eligible
  IsIgnored-iff gid = ground arith

  count_failed_zero :
      (missing failed : List ℕ)
      → ((count_failed known eligible missing failed).1 ≡ 0) ↔ All IsIgnored failed
  unfolding count_failed
  count_failed_zero missing [] = ground arith
  count_failed_zero missing (gid ∷ rest) =
      ground (arith, IsIgnored-iff gid, count_failed_zero missing rest)

  count_failed-le :
      (missing failed : List ℕ)
      → (count_failed known eligible missing failed).0
        ≤ (count_failed known eligible missing failed).1
  unfolding count_failed
  count_failed-le missing [] = omega arith
  count_failed-le missing (gid ∷ rest) = ground (arith, count_failed-le missing rest)

  -- Ids that are failed too are left to the other loop.
  count_missing_zero :
      (failed missing : List ℕ)
      → All IsIgnored failed
      → (count_missing known eligible failed missing ≡ 0) ↔ All IsIgnored missing
  unfolding count_missing
  count_missing_zero failed [] h = ground arith
  count_missing_zero failed (gid ∷ rest) h =
      ground (
        arith,
        IsIgnored-iff gid,
        count_missing_zero failed rest h,
        All-elem IsIgnored failed gid h,
      )

-- With the failed ids known, label recovery fails no request exactly if every goroutine that failed
-- is in the analysis and excluded from matching.
pub eligible_failure_error_iff :
    (d : Diagnostics) (known eligible : List ℕ)
    → no_gids d ≡ false
    → (eligible_failure_error d known eligible ≡ none) ↔ (
        All (IsIgnored known eligible) (members d.failed_gids)
        × All (IsIgnored known eligible) (members d.string_missing_gids))
unfolding eligible_failure_error eligible_failures
eligible_failure_error_iff d known eligible h = ground (
  arith,
  h,
  count_failed_zero known eligible (members d.string_missing_gids) (members d.failed_gids),
  count_failed-le known eligible (members d.string_missing_gids) (members d.failed_gids),
  count_missing_zero known eligible (members d.failed_gids) (members d.string_missing_gids),
)
