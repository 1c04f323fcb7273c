-- ===== src/Usage/Request.antt =====
-- internal/memusage/request.go: the request, its options and its validation. A label map is the
-- list of its entries in the order in which the loop visits them; Go leaves that order open, and
-- the theorems hold for every list.
use bubblepprof.Common.{
  ℕ, Bool, true, false, List, [], ◌∷◌, Option, some, none, ltb, ◌==◌, ◌&&◌, if◌then◌else◌, length,
  Text, text_eq,
}

abbrev pub Labels : Type 0
Labels = List (Text × Text)

pub record Request : Type 0 where
  pub labels : Labels

-- The options that the computation reads. A limit that is zero or negative in the source is 0.
pub record Options : Type 0 where
  pub include_system_goroutines : Bool
  pub max_labels : ℕ
  pub max_label_key_bytes : ℕ
  pub max_label_value_bytes : ℕ

abbrev pub default_max_labels : ℕ
default_max_labels = 32

abbrev pub default_max_label_key_bytes : ℕ
default_max_label_key_bytes = 1024

abbrev pub default_max_label_value_bytes : ℕ
default_max_label_value_bytes = 4096

-- The codes, with the values that the messages print.
pub data ValidationError : Type 0 where
  invalid_request empty_labels empty_label_key : ValidationError
  too_many_labels label_key_too_long label_value_too_long : ℕ → ℕ → ValidationError

abbrev pub effective : ℕ → ℕ → ℕ
effective limit default = if limit == 0 then default else limit

unfoldable pub effective_max_labels : Options → ℕ
effective_max_labels o = effective o.max_labels default_max_labels

unfoldable pub effective_max_label_key_bytes : Options → ℕ
effective_max_label_key_bytes o = effective o.max_label_key_bytes default_max_label_key_bytes

unfoldable pub effective_max_label_value_bytes : Options → ℕ
effective_max_label_value_bytes o = effective o.max_label_value_bytes default_max_label_value_bytes

-- The loop over the entries.
unfoldable pub validate_entries : ℕ → ℕ → Labels → Option ValidationError
validate_entries max_key max_val [] = none
validate_entries max_key max_val ((k, v) ∷ rest) =
    let more = validate_entries max_key max_val rest in
    if length k == 0
    then some empty_label_key
    else if ltb max_key (length k)
    then some (label_key_too_long (length k) max_key)
    else if ltb max_val (length v)
    then some (label_value_too_long (length v) max_val)
    else more

-- ValidateRequest; `none` in the result is a valid request.
unfoldable pub validate_request : Option Request → Options → Option ValidationError
unfolding validate_entries effective_max_labels effective_max_label_key_bytes
    effective_max_label_value_bytes
validate_request none opts = some invalid_request
validate_request (some req) opts =
    if length req.labels == 0
    then some empty_labels
    else if ltb (effective_max_labels opts) (length req.labels)
    then some (too_many_labels (length req.labels) (effective_max_labels opts))
    else validate_entries (effective_max_label_key_bytes opts)
        (effective_max_label_value_bytes opts) req.labels

-- `have[k]`
unfoldable pub label_value : Text → Labels → Option Text
label_value k [] = none
label_value k ((j, v) ∷ rest) = if text_eq j k then some v else label_value k rest

-- One round of LabelsMatch: `hv, ok := have[k]; ok && hv == v`
unfoldable pub carries : Labels → Text → Text → Bool
unfolding label_value
carries have k v = elim (label_value k have) [ none ↦ false | some hv ↦ text_eq hv v ]

-- LabelsMatch (compute.go)
unfoldable pub labels_match : Labels → Labels → Bool
unfolding carries
labels_match have [] = true
labels_match have ((k, v) ∷ rest) = carries have k v && labels_match have rest
