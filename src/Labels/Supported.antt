-- ===== src/Labels/Supported.antt =====
-- Which layouts Lookup gives (internal/runtimelayout/table.go).
use bubblepprof.Common.{
  ℕ, ◌≡◌, ◌⊎◌, inl, inr, refl, sym, ap, ◌∙◌, true, false, List, [], ◌∷◌, some, arith, Option-cases,
  Bool-cases, All,
}
use mathlib.Core.Path.{subst}
use bubblepprof.Common.Result.{ok}
use bubblepprof.Labels.Layout.{
  Layout, LookupInput, TableEntry, table, manual, verified_table, entry_matches, lookup_entry,
  lookup_layout, with_little_endian_defaults, manual_description, manual_layout,
}

-- The width of an entry's pointers.
abbrev IsSupported : TableEntry → Type 0
IsSupported e = (e.big_endian ≡ false) × ((e.ptr_size ≡ 4) ⊎ (e.ptr_size ≡ 8))

verified_table-IsSupported : All IsSupported verified_table
verified_table-IsSupported = (
  (refl, inr refl),
  (
    (refl, inl refl),
    (
      (refl, inr refl),
      (
        (refl, inl refl),
        (
          (refl, inr refl),
          (
            (refl, inl refl),
            ((refl, inr refl), ((refl, inl refl), ((refl, inr refl), ((refl, inl refl), tt)))),
          ),
        ),
      ),
    ),
  ),
)

lookup_entry-IsSupported :
    (input : LookupInput) (entries : List TableEntry) (e : TableEntry)
    → All IsSupported entries
    → lookup_entry input entries ≡ some e
    → IsSupported e × (entry_matches input e ≡ true)
unfolding lookup_entry
lookup_entry-IsSupported input [] e h found = cc
lookup_entry-IsSupported input (first ∷ rest) e h found =
    elim (Bool-cases (entry_matches input first)) [
      | inl m ↦
          let same : first ≡ e = ground (arith, m) in
          subst (λ (x : TableEntry). IsSupported x × (entry_matches input x ≡ true)) same (h.0, m)
      | inr m ↦ lookup_entry-IsSupported input rest e h.1 (ground (arith, m))
    ]

matching_entry :
    (input : LookupInput) (e : TableEntry)
    → IsSupported e
    → entry_matches input e ≡ true
    → (e.ptr_size ≡ input.ptr_size) × (input.big_endian ≡ false)
unfolding entry_matches
matching_entry input e supported m = (ground arith, ground arith)

manual_layout_lem :
    (input : LookupInput) (offset : ℕ)
    → input.big_endian ≡ false
    → (input.ptr_size ≡ 4) ⊎ (input.ptr_size ≡ 8)
    → manual_layout input offset
      ≡ ok (
          with_little_endian_defaults manual input.go_version input.goarch offset manual_description
            input.ptr_size)
unfolding manual_layout
manual_layout_lem input offset little width = ground arith

-- A layout that Lookup gives is, but for its source and its description, the one that Manual makes
-- for the same input and the same offset of the labels field; so Lookup gives one only for a little-endian target with
-- pointers of 4 or 8 bytes.
pub lookup_layout-manual_layout :
    (input : LookupInput) (layout : Layout)
    → lookup_layout input ≡ some layout
    → manual_layout input layout.g_labels_offset
      ≡ ok (record layout { source = manual; description = manual_description })
unfolding lookup_layout with_little_endian_defaults
lookup_layout-manual_layout input layout h =
    elim (Option-cases (lookup_entry input verified_table)) [
      | inl e ↦ absurd (ground (arith, e))
      | inr (entry, e) ↦
          let (supported, m) =
            lookup_entry-IsSupported input verified_table entry verified_table-IsSupported e in
          let (width, little) = matching_entry input entry supported m in
          let value : with_little_endian_defaults table input.go_version input.goarch
                entry.g_labels_offset entry.description entry.ptr_size
              ≡ layout =
            ground (arith, e) in
          let offset : entry.g_labels_offset ≡ layout.g_labels_offset =
            ap (λ (l : Layout). l.g_labels_offset) value in
          manual_layout_lem input layout.g_labels_offset little (ground (arith, supported.1, width))
          ∙ ap
              (λ (n : ℕ). ok (
                with_little_endian_defaults manual input.go_version input.goarch n
                  manual_description input.ptr_size))
              (sym offset)
          ∙ ap
              (λ (n : ℕ). ok (
                with_little_endian_defaults manual input.go_version input.goarch
                  entry.g_labels_offset manual_description n))
              (sym width)
          ∙ ap (λ (l : Layout). ok (record l { source = manual; description = manual_description }))
              value
    ]
