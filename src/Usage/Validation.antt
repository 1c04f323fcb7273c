-- ===== src/Usage/Validation.antt =====
-- ValidateRequest and LabelsMatch (internal/memusage/request.go, compute.go).
use bubblepprof.Common.{
  ℕ, ◌≤◌, ◌≡◌, ◌≢◌, ◌↔◌, true, [], ◌∷◌, some, none, Option-cases, arith, length, All, Text,
  text_eq_iff, inl, inr,
}
use bubblepprof.Usage.Request.{
  Labels, Request, Options, effective_max_labels, effective_max_label_key_bytes,
  effective_max_label_value_bytes, validate_entries, validate_request, label_value, carries,
  labels_match,
}

-- An entry that the limits allow.
abbrev pub IsAllowed : ℕ → ℕ → Text × Text → Type 0
IsAllowed max_key max_val (k, v) = (length k ≢ 0) × (length k ≤ max_key) × (length v ≤ max_val)

validate_entries_iff :
    (max_key max_val : ℕ) (ls : Labels)
    → (validate_entries max_key max_val ls ≡ none) ↔ All (IsAllowed max_key max_val) ls
unfolding validate_entries
validate_entries_iff max_key max_val [] = ground arith
validate_entries_iff max_key max_val ((k, v) ∷ rest) =
    ground (arith, validate_entries_iff max_key max_val rest)

-- A request is accepted exactly if it has at least one label, at most the effective number of
-- labels, and every key is nonempty and within its limit and every value within its limit.
pub validate_request_iff :
    (req : Request) (opts : Options)
    → (validate_request (some req) opts ≡ none) ↔ (
        (length req.labels ≢ 0)
        × (length req.labels ≤ effective_max_labels opts)
        × All
            (IsAllowed (effective_max_label_key_bytes opts) (effective_max_label_value_bytes opts))
            req.labels)
unfolding validate_request
validate_request_iff req opts = ground (
  arith,
  validate_entries_iff (effective_max_label_key_bytes opts) (effective_max_label_value_bytes opts)
      req.labels,
)

carries_iff :
    (have : Labels) (k v : Text) → (carries have k v ≡ true) ↔ (label_value k have ≡ some v)
unfolding carries
carries_iff have k v = elim (Option-cases (label_value k have)) [
  | inl e ↦ ground arith
  | inr (hv, e) ↦ ground (arith, text_eq_iff hv v)
]

-- A goroutine matches exactly if its labels give every key of the selector the selector's value.
pub labels_match_iff :
    (have want : Labels)
    → (labels_match have want ≡ true) ↔ All (λ kv. label_value kv.0 have ≡ some kv.1) want
unfolding labels_match
labels_match_iff have [] = ground arith
labels_match_iff have ((k, v) ∷ rest) =
    ground (arith, carries_iff have k v, labels_match_iff have rest)
