-- ===== src/Session/Ids.antt =====
-- GoroutineIDs (internal/memusage/snapshot.go) on a new session.
use bubblepprof.Common.{ℕ, Bool, false, List, [], ◌∷◌, ◌==◌, ◌&&◌, ◌||◌, not, Text, text_eq}
use bubblepprof.Graph.Types.{GoroutineReachability}
use bubblepprof.Usage.Request.{Labels, Options}
use bubblepprof.Usage.Compute.{labels_of}
use bubblepprof.Session.State.{is_excluded}

-- A label with this key and value is among the labels.
unfoldable pub carries : Text → Text → Labels → Bool
carries j w [] = false
carries j w ((k, v) ∷ rest) = text_eq k j && text_eq v w || carries j w rest

-- A goroutine with this id is not passed over and has the label.
unfoldable pub is_labelled :
    List (ℕ × Labels) → Options → Text → Text → List GoroutineReachability → ℕ → Bool
is_labelled labels opts j w [] x = false
is_labelled labels opts j w (gr ∷ rest) x =
    not (is_excluded opts gr)
      && (x == gr.goroutine_id)
      && carries j w (labels_of labels gr.goroutine_id)
    || is_labelled labels opts j w rest x
