-- ===== src/Labels/Bounded.antt =====
-- What the limits of the decoder (internal/heaplabels/decode.go) bound.
use bubblepprof.Common.{◌≤◌, length, Text}
use bubblepprof.Usage.Request.{Labels}
use bubblepprof.Labels.Layout.{Layout}
use bubblepprof.Labels.Decode.{Options, normalize_options}

-- A text within the limit on strings.
abbrev pub IsShort : Options → Text → Type 0
IsShort opts s = length s ≤ (normalize_options opts).max_string_len

abbrev pub IsShortLabel : Options → Text × Text → Type 0
IsShortLabel opts label = IsShort opts label.0 × IsShort opts label.1
