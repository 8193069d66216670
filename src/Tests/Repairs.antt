-- ===== src/Tests/Repairs.antt =====
-- Examples of a repair.
use episcience.Base.{◌≡◌, refl, ℕ, ◌<◌, true, none, some, [], ◌∷◌}
use episcience.Base.Texts.{Text}
use episcience.Client.Repair.{outside, escape, repair_json}
use episcience.Client.Repair.Escapes.{unescape}
use episcience.Client.Repair.Steps.{is_clean, content}
use episcience.Client.Repair.Repairs.{repair_json-Repairs}

-- `["a` and a line break and `",]`
abbrev near_json : Text
near_json = b'[' ∷ b'"' ∷ b'a' ∷ b'\n' ∷ b'"' ∷ b',' ∷ b']' ∷ []

repaired : repair_json near_json ≡ b'[' ∷ b'"' ∷ b'a' ∷ b'\\' ∷ b'n' ∷ b'"' ∷ b']' ∷ []
unfolding repair_json escape
repaired = refl

-- A control character behind a backslash stays.
behind_backslash : repair_json (b'"' ∷ b'\\' ∷ b'\n' ∷ b'"' ∷ []) ≡ b'"' ∷ b'\\' ∷ b'\n' ∷ b'"' ∷ []
unfolding repair_json
behind_backslash = refl

repair_json_example :
    (is_clean (outside none) (repair_json near_json) ≡ true)
    × (is_clean (outside none) near_json ≡ true → repair_json near_json ≡ near_json)
    × (repair_json (repair_json near_json) ≡ repair_json near_json)
    × (content (outside none) (repair_json near_json) ≡ content (outside none) near_json)
    × ((c : ℕ) → c < 32 → unescape (escape c) ≡ some c)
repair_json_example = repair_json-Repairs near_json
