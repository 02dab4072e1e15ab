-- ===== src/Manifest/Summary.antt =====
-- src/manifest/artifact_summary.py: the portal's subtitles from edp-api's counts.
use platform_api.Prelude.{
  List, Option, Text, [], decimal, if◌then◌else◌, insert, length, none, some, text, ℕ, ◌++◌, ◌+◌,
  ◌==◌, ◌∷◌,
}
use platform_api.Edp.Artifacts.{
  ArtifactKind, ArtifactRef, ArtifactSummary, bom, cable_hose_schedule, dtm, interface_plate,
}

-- the summary of the first reference that has one
pub first_summary : List ArtifactRef → Option ArtifactSummary
first_summary [] = none
first_summary (r ∷ rs) = elim r.summary [ some s ↦ some s | none ↦ first_summary rs ]

bus : ℕ → Text
bus n = if n == 1 then text "bus" else text "buses"

-- `quantities[plate_id] = plates`; `none` where a reference lacks its id or count
pub quantities : List (Text × ℕ) → List ArtifactRef → Option (List (Text × ℕ))
quantities acc [] = some acc
quantities acc (ref ∷ refs) = elim ref.plate_id [
  | none ↦ none
  | some i ↦ elim ref.summary [
    | none ↦ none
    | some s ↦ elim s.plates [ none ↦ none | some n ↦ quantities (insert i n acc) refs ]
  ]
]

abbrev pub total_quantity : List (Text × ℕ) → ℕ
total_quantity [] = 0
total_quantity ((i, n) ∷ q) = n + total_quantity q

plate_text : List (Text × ℕ) → Option Text
plate_text [] = none
plate_text ((i, n) ∷ q) = some (
    decimal (total_quantity ((i, n) ∷ q))
    ++ (text " plates · " ++ (decimal (length ((i, n) ∷ q)) ++ text " kinds")))

pub plate_subtitle : List ArtifactRef → Option Text
unfolding quantities plate_text
plate_subtitle refs = elim (quantities [] refs) [ none ↦ none | some q ↦ plate_text q ]

-- "<a><mid><b><end>" when both counts are there
abbrev both : Option ℕ → Option ℕ → (ℕ → ℕ → Text) → Option Text
both (some a) (some b) f = some (f a b)
both (some a) none f = none
both none b f = none

summary_text : ArtifactKind → ArtifactSummary → Option Text
unfolding bus
summary_text bom s =
    both s.line_items s.vendors
      λ a b. decimal a ++ (text " line items · " ++ (decimal b ++ text " vendors"))
summary_text cable_hose_schedule s =
    both s.runs s.media_kinds
      λ a b. decimal a ++ (text " runs · " ++ (decimal b ++ text " media kinds"))
summary_text dtm s =
    both s.devices s.buses
      λ a b. decimal a ++ (text " devices · " ++ (decimal b ++ (text " " ++ bus b)))
summary_text _ s = none

unfoldable pub subtitle_for : ArtifactKind → List ArtifactRef → Option Text
unfolding plate_subtitle first_summary summary_text
subtitle_for interface_plate refs = plate_subtitle refs
subtitle_for kind refs = elim (first_summary refs) [ none ↦ none | some s ↦ summary_text kind s ]
