-- ===== src/Prelude/Maps.antt =====
-- A `Map` with text keys, as an association list.
use swkoo_kr.Prelude.Base.{◌≡◌, Option, none, some, List, [], ◌∷◌, arith, if◌then◌else◌, ◌==◌}
use swkoo_kr.Prelude.Texts.{Text, text_beq_iff, text_eq}

module _ {ℓ} {Value : Type ℓ} where
  -- `map.get(key)`
  unfoldable pub lookup : Text → List (Text × Value) → Option Value
  lookup key [] = none
  lookup key ((name, held) ∷ rest) = if key == name then some held else lookup key rest

  -- `map.delete(key)`
  unfoldable pub remove : Text → List (Text × Value) → List (Text × Value)
  remove key [] = []
  remove key ((name, held) ∷ rest) =
      if key == name then remove key rest else (name, held) ∷ remove key rest

  -- `map.set(key, held)`, which leaves the place of a key that is there.
  unfoldable pub insert : Text → Value → List (Text × Value) → List (Text × Value)
  insert key new [] = (key, new) ∷ []
  insert key new ((name, held) ∷ rest) =
      if key == name then (name, new) ∷ rest else (name, held) ∷ insert key new rest

  pub lookup-insert :
      (key other : Text) (new : Value) (entries : List (Text × Value))
      → lookup other (insert key new entries)
        ≡ (if key == other then some new else lookup other entries)
  unfolding lookup insert
  lookup-insert key other new [] = ground (arith, text_beq_iff key other, text_beq_iff other key)
  lookup-insert key other new ((name, held) ∷ rest) = ground (
    arith,
    text_beq_iff key other,
    text_beq_iff key name,
    text_beq_iff other name,
    lookup-insert key other new rest,
  )

  pub lookup-remove :
      (key other : Text) (entries : List (Text × Value))
      → lookup other (remove key entries) ≡ (if key == other then none else lookup other entries)
  unfolding lookup remove
  lookup-remove key other [] = ground arith
  lookup-remove key other ((name, held) ∷ rest) = ground (
    arith,
    text_beq_iff key other,
    text_beq_iff key name,
    text_beq_iff other name,
    lookup-remove key other rest,
  )
