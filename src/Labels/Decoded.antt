-- ===== src/Labels/Decoded.antt =====
-- Label sets laid out in memory, and what the decoder (internal/heaplabels/decode.go) makes of them.
use bubblepprof.Common.{
  ℕ, suc, ◌+◌, ◌*◌, ◌/◌, ◌%◌, ◌<◌, ◌≤◌, ◌≡◌, ◌≢◌, ◌⊎◌, inl, inr, refl, sym, ap, ◌∙◌, false, List,
  [], ◌∷◌, ◌++◌, some, arith, ltb, ◌==◌, ◌||◌, if◌then◌else◌, length, u64_mod, Text, IsKeyed,
  IsKeyed-middle, update_at, update_at_new, Bool-cases,
}
use mathlib.Core.List.{append_assoc, append-nil}
use mathlib.Core.Path.{subst}
use bubblepprof.Common.Result.{ok}
use bubblepprof.Space.{Reader, checked_add, checked_add_fits, checked_mul, read_string}
use bubblepprof.Usage.Request.{Labels}
use bubblepprof.Labels.Layout.{Layout}
use bubblepprof.Labels.Decode.{
  Options, normalize_options, word_at, string_body, decode_string, decode_label, decode_labels,
  decode_slice, decode_array, decode_label_map,
}

-- A sum of addresses that does not wrap.
checked_sum : (a b : ℕ) → a + b < u64_mod → checked_add a b ≡ some (a + b)
checked_sum a b h = checked_add_fits a b (omega arith) (omega arith) h

module _ (structural body : Reader) (layout : Layout) (opts : Options) where
  -- A string header at an address, with the text that it refers to.
  pub record HoldsString (header : ℕ) (s : Text) : Type 0 where
    pub pointer : ℕ
    pub pointer_fits : header + layout.string_data_offset < u64_mod
    pub size_fits : header + layout.string_len_offset < u64_mod
    pub pointer_word :
        word_at structural body layout opts (header + layout.string_data_offset) ≡ some pointer
    pub size_word :
        word_at structural body layout opts (header + layout.string_len_offset) ≡ some (length s)
    pub short : length s ≤ (normalize_options opts).max_string_len
    pub bytes : (s ≡ []) ⊎ ((pointer ≢ 0) × (body pointer (length s) ≡ some s))

  -- A key and a value, in the two parts of a label.
  abbrev pub HoldsLabel : ℕ → Text × Text → Type 0
  HoldsLabel addr label =
      (addr + layout.label_key_offset < u64_mod)
      × (addr + layout.label_value_offset < u64_mod)
      × HoldsString (addr + layout.label_key_offset) label.0
      × HoldsString (addr + layout.label_value_offset) label.1

  -- The labels of an array, from index `i` on.
  abbrev pub HoldsArray : ℕ → ℕ → Labels → Type 0
  HoldsArray pointer i [] = Unit {0}
  HoldsArray pointer i (label ∷ rest) =
      (pointer + i * layout.label_size < u64_mod)
      × HoldsLabel (pointer + i * layout.label_size) label
      × HoldsArray pointer (i + 1) rest

  -- The slice header of a label list at an address, and the array that it refers to.
  pub record HoldsLabels (header : ℕ) (labels : Labels) : Type 0 where
    pub pointer : ℕ
    pub capacity : ℕ
    pub pointer_fits : header + layout.slice_data_offset < u64_mod
    pub size_fits : header + layout.slice_len_offset < u64_mod
    pub capacity_fits : header + layout.slice_cap_offset < u64_mod
    pub pointer_word :
        word_at structural body layout opts (header + layout.slice_data_offset) ≡ some pointer
    pub size_word :
        word_at structural body layout opts (header + layout.slice_len_offset)
        ≡ some (length labels)
    pub capacity_word :
        word_at structural body layout opts (header + layout.slice_cap_offset) ≡ some capacity
    pub within : length labels ≤ capacity
    pub few : length labels ≤ (normalize_options opts).max_labels
    pub array :
        (labels ≡ [])
        ⊎ ((pointer ≢ 0)
            × (length labels * layout.label_size < u64_mod)
            × ((bytes : List ℕ) × (structural pointer (length labels * layout.label_size)
                  ≡ some bytes))
            × HoldsArray pointer 0 labels)

  string_body_lem :
      (pointer : ℕ) (s : Text)
      → length s ≤ (normalize_options opts).max_string_len
      → (s ≡ []) ⊎ ((pointer ≢ 0) × (body pointer (length s) ≡ some s))
      → string_body structural body layout opts pointer (length s) ≡ ok s
  unfolding string_body read_string
  string_body_lem pointer [] short bytes = ground arith
  string_body_lem pointer (c ∷ s) short (inl e) = cc
  string_body_lem pointer (c ∷ s) short (inr (nonzero, read)) = ground (arith, read)

  decode_string_lem :
      (header : ℕ) (s : Text)
      → HoldsString header s
      → decode_string structural body layout opts header ≡ ok s
  unfolding decode_string
  decode_string_lem header s h =
      rw
        (
          checked_sum header layout.string_data_offset h.pointer_fits,
          checked_sum header layout.string_len_offset h.size_fits,
          h.pointer_word,
          h.size_word,
        )
        (string_body_lem h.pointer s h.short h.bytes)

  decode_label_lem :
      (addr : ℕ) (label : Text × Text)
      → HoldsLabel addr label
      → decode_label structural body layout opts addr ≡ ok label
  unfolding decode_label
  decode_label_lem addr (key, value) (key_fits, value_fits, key_held, value_held) =
      rw
        (
          checked_sum addr layout.label_key_offset key_fits,
          checked_sum addr layout.label_value_offset value_fits,
          decode_string_lem (addr + layout.label_key_offset) key key_held,
          decode_string_lem (addr + layout.label_value_offset) value value_held,
        )
        refl

  decode_labels-cons :
      (n pointer i : ℕ) (acc : Labels) (label : Text × Text)
      → pointer + i * layout.label_size < u64_mod
      → HoldsLabel (pointer + i * layout.label_size) label
      → decode_labels structural body layout opts (suc n) pointer i acc
        ≡ decode_labels structural body layout opts n pointer
            (i + 1)
            (update_at label.1 (λ _. label.1) label.0 acc)
  unfolding decode_labels
  decode_labels-cons n pointer i acc label fits held =
      let small : (i * layout.label_size) % u64_mod ≡ i * layout.label_size = grind arith in
      rw
        (
          small,
          checked_sum pointer (i * layout.label_size) fits,
          decode_label_lem (pointer + i * layout.label_size) label held,
        )
        refl

  decode_labels_lem :
      (pointer i : ℕ) (acc labels : Labels)
      → HoldsArray pointer i labels
      → IsKeyed (acc ++ labels)
      → decode_labels structural body layout opts (length labels) pointer i acc ≡ ok (acc ++ labels)
  decode_labels_lem pointer i acc [] held keyed =
      unfold decode_labels in ap ok (sym (append-nil acc))
  decode_labels_lem pointer i acc ((key, value) ∷ rest) (fits, held, later) keyed =
      let placed : update_at value (λ _. value) key acc ≡ acc ++ ((key, value) ∷ []) =
        update_at_new value (λ _. value) key acc (IsKeyed-middle key value acc rest keyed) in
      let joined : (acc ++ ((key, value) ∷ [])) ++ rest ≡ acc ++ ((key, value) ∷ rest) =
        append_assoc acc ((key, value) ∷ []) rest in
      decode_labels-cons (length rest) pointer i acc (key, value) fits held
      ∙ ap (decode_labels structural body layout opts (length rest) pointer (i + 1)) placed
      ∙ decode_labels_lem pointer (i + 1) (acc ++ ((key, value) ∷ [])) rest later
          (subst IsKeyed (sym joined) keyed)
      ∙ ap ok joined

  decode_slice_lem :
      (header : ℕ) (labels : Labels) (h : HoldsLabels header labels)
      → decode_slice structural body layout opts header ≡ ok (h.pointer, length labels)
  unfolding decode_slice
  decode_slice_lem header labels h =
      let enough : ltb h.capacity (length labels) ≡ false = ground (arith, h.within) in
      let allowed : ltb (normalize_options opts).max_labels (length labels) ≡ false =
        ground (arith, h.few) in
      rw
        (
          checked_sum header layout.slice_data_offset h.pointer_fits,
          checked_sum header layout.slice_len_offset h.size_fits,
          checked_sum header layout.slice_cap_offset h.capacity_fits,
          h.pointer_word,
          h.size_word,
          h.capacity_word,
          enough,
          allowed,
        )
        refl

-- A product that does not wrap.
checked_product : (a b : ℕ) → a * b < u64_mod → checked_mul a b ≡ some (a * b)
unfolding checked_mul
checked_product a b h =
    let small : (a * b) % u64_mod ≡ a * b = grind arith in
    elim (Bool-cases (a == 0 || b == 0)) [
      | inl e ↦ rw e (grind arith)
      | inr e ↦ let exact : (a * b) / a ≡ b = grind arith in rw (e, small, exact) (ground arith)
    ]

module _ (structural body : Reader) (layout : Layout) (opts : Options) where
  -- Where the slice header decodes, the array is what is left.
  decode_label_map-slice :
      (addr pointer size : ℕ)
      → addr + layout.label_map_set_offset + layout.set_list_offset < u64_mod
      → decode_slice structural body layout opts
          (addr + layout.label_map_set_offset + layout.set_list_offset)
        ≡ ok (pointer, size)
      → decode_label_map structural body layout opts addr
        ≡ (if size == 0 then ok [] else decode_array structural body layout opts pointer size)
  unfolding decode_label_map
  decode_label_map-slice addr pointer size fits slice =
      rw
        (
          checked_sum addr layout.label_map_set_offset (omega arith),
          checked_sum (addr + layout.label_map_set_offset) layout.set_list_offset fits,
          slice,
        )
        refl

  decode_array_lem :
      (pointer : ℕ) (labels : Labels) (bytes : List ℕ)
      → pointer ≢ 0
      → length labels * layout.label_size < u64_mod
      → structural pointer (length labels * layout.label_size) ≡ some bytes
      → HoldsArray structural body layout opts pointer 0 labels
      → IsKeyed labels
      → decode_array structural body layout opts pointer (length labels) ≡ ok labels
  unfolding decode_array
  decode_array_lem pointer labels bytes nonzero fits read held keyed =
      let there : (pointer == 0) ≡ false = ground arith in
      rw (there, checked_product (length labels) layout.label_size fits, read)
        (decode_labels_lem structural body layout opts pointer 0 [] labels held keyed)

  -- A label set with distinct keys that is laid out in memory, at the offsets of the layout and
  -- within the limits, which are the defaults for options that are 0, decodes to exactly its labels, in their order.
  pub decode_label_map-HoldsLabels :
      (addr : ℕ) (labels : Labels)
      → addr + layout.label_map_set_offset + layout.set_list_offset < u64_mod
      → HoldsLabels structural body layout opts
          (addr + layout.label_map_set_offset + layout.set_list_offset)
          labels
      → IsKeyed labels
      → decode_label_map structural body layout opts addr ≡ ok labels
  decode_label_map-HoldsLabels addr [] fits h keyed =
      decode_label_map-slice addr h.pointer 0 fits
        (decode_slice_lem structural body layout opts _ [] h)
  decode_label_map-HoldsLabels addr (label ∷ rest) fits h keyed = elim h.array [
    | inl empty ↦ cc
    | inr (nonzero, array_fits, (bytes, read), held) ↦
        let positive : (length (label ∷ rest) == 0) ≡ false = ground arith in
        decode_label_map-slice addr h.pointer (length (label ∷ rest)) fits
          (decode_slice_lem structural body layout opts _ (label ∷ rest) h)
        ∙ rw positive
            (decode_array_lem h.pointer (label ∷ rest) bytes nonzero array_fits read held keyed)
  ]
