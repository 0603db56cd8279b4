-- ===== src/Deploy/Storage.antt =====
-- The storage profile of deploy/deploy.service.ts: what a schema of Prisma asks for, and what a
-- deployment is given.
use swkoo_kr.Prelude.{
  ℕ, Bool, ◌||◌, Option, none, some, [], ◌∷◌, if◌then◌else◌, ◌==◌, nat_eq, ◌≡◌, refl, or_else,
  is_some,
}
use swkoo_kr.Prelude.Texts.{Text, lit, is_digit, is_lower, is_upper, is_space}

pub data InitMode : Type 0 where
  migrate_deploy db_push : InitMode

pub data StorageClass : Type 0 where
  local_path user_quota : StorageClass

-- The type, the size, the mount path and the URL have one value each.
pub record StorageProfile : Type 0 where
  pub init_mode : InitMode
  pub storage_class_name : Option StorageClass

-- `s.slice(p.length)`, where `s` starts with `p`
unfoldable pub after : Text → Text → Option Text
after [] s = some s
after (d ∷ p) [] = none
after (d ∷ p) (c ∷ s) = let rest = after p s in if c == d then rest else none

unfoldable pub skip_while : (ℕ → Bool) → Text → Text
skip_while p [] = []
skip_while p (c ∷ s) = if p c then skip_while p s else c ∷ s

abbrev pub then_try {ℓ κ} : {A : Type ℓ} {B : Type κ} → Option A → (A → Option B) → Option B
then_try none f = none
then_try (some a) f = f a

-- `\w`
abbrev is_word : ℕ → Bool
is_word c = is_lower c || is_upper c || is_digit c || c == b'_'

-- `+` of a class
abbrev one_or_more : (ℕ → Bool) → Text → Option Text
one_or_more p [] = none
one_or_more p (c ∷ s) = if p c then some (skip_while p s) else none

-- `([^}]*)\}`
unfoldable pub until_brace : Text → Option Text
until_brace [] = none
until_brace (c ∷ s) =
    let rest = until_brace s in
    if c == b'}' then some [] else elim rest [ none ↦ none | some t ↦ some (c ∷ t) ]

-- `/datasource\s+\w+\s*\{([^}]*)\}/` at the start of a text
unfoldable pub datasource_here : Text → Option Text
datasource_here s = then_try (after (lit "datasource") s) λ a.
    then_try (one_or_more is_space a) λ b.
      then_try (one_or_more is_word b)
        λ c. then_try (after (lit "{") (skip_while is_space c)) until_brace

unfoldable pub datasource_block : Text → Text
datasource_block [] = []
datasource_block (c ∷ s) =
    let rest = datasource_block s in
    elim (datasource_here (c ∷ s)) [ none ↦ rest | some block ↦ block ]

-- `/provider\s*=\s*"sqlite"/` at the start of a text
unfoldable pub sqlite_here : Text → Bool
sqlite_here s = is_some (
    then_try (after (lit "provider") s) λ a.
      then_try (after (lit "=") (skip_while is_space a))
        λ b. after (lit "\"sqlite\"") (skip_while is_space b))

-- `/url\s*=\s*env\(\s*"DATABASE_URL"\s*\)/` at the start of a text
unfoldable pub env_url_here : Text → Bool
env_url_here s = is_some (
    then_try (after (lit "url") s) λ a. then_try (after (lit "=") (skip_while is_space a)) λ b.
      then_try (after (lit "env(") (skip_while is_space b)) λ c.
        then_try (after (lit "\"DATABASE_URL\"") (skip_while is_space c))
          λ d. after (lit ")") (skip_while is_space d))

-- A pattern that is not anchored.
unfoldable pub somewhere : (Text → Bool) → Text → Bool
somewhere here [] = here []
somewhere here (c ∷ s) = here (c ∷ s) || somewhere here s

-- `selectedStorageProfile` and `effectiveStorageProfile` of `registerForUser`
abbrev pub class_of : Option StorageProfile → StorageProfile → StorageClass
class_of none selected = or_else selected.storage_class_name StorageClass.user_quota
class_of (some existing) selected = or_else existing.storage_class_name StorageClass.local_path

abbrev pub selected_profile : Option StorageProfile → Option StorageProfile → Option StorageProfile
selected_profile none existing = existing
selected_profile (some detected) existing = some detected

abbrev pub with_class : Option StorageProfile → Option StorageProfile → Option StorageProfile
with_class existing none = none
with_class existing (some selected) =
    some (record selected { storage_class_name = some (class_of existing selected) })

unfoldable pub effective_storage_profile :
    Option StorageProfile → Option StorageProfile → Option StorageProfile
effective_storage_profile detected existing =
    with_class existing (selected_profile detected existing)

-- Whatever is detected, a deployment that has a storage profile keeps one, with the storage class
-- that its volume has, `local-path` where the profile names none; and doing it again changes nothing.
pub effective_storage_profile-kept :
    (detected : Option StorageProfile) (existing : StorageProfile)
    → (kept : StorageProfile) × (effective_storage_profile detected (some existing) ≡ some kept)
      × (kept.storage_class_name
          ≡ some (or_else existing.storage_class_name StorageClass.local_path))
      × (effective_storage_profile detected (some kept) ≡ some kept)
unfolding effective_storage_profile
effective_storage_profile-kept none existing = (_, refl, refl, refl)
effective_storage_profile-kept (some detected) existing = (_, refl, refl, refl)
