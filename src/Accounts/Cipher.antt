-- ===== src/Accounts/Cipher.antt =====
-- onboarding/token-cipher.ts. AES-256-GCM under the process's key is a parameter: `seal` gives the
-- nonce, the tag and the ciphertext in base64 (each call draws a nonce), `open_sealed` answers for
-- the three texts in base64.
use swkoo_kr.Prelude.{Bool, not, ◌||◌, List, [], ◌∷◌, if◌then◌else◌, ◌==◌, Result, err}
use swkoo_kr.Prelude.Texts.{Text, lit, text_eq, split, join}

pub record Sealed : Type 0 where
  pub nonce : Text
  pub tag : Text
  pub encrypted : Text

pub record Gcm : Type 0 where
  pub seal : Text → Text → Sealed
  pub open_sealed : Sealed → Text → Result Text Text

abbrev colon : Text
colon = b':' ∷ []

unfoldable pub encrypt : Gcm → Text → Text → Text
encrypt gcm value context =
    let s = gcm.seal value context in join colon (lit "enc1" ∷ s.nonce ∷ s.tag ∷ s.encrypted ∷ [])

abbrev is_empty : Text → Bool
is_empty t = t == []

abbrev invalid : Result Text Text
invalid = err (lit "Invalid encrypted token")

abbrev open_parts : Gcm → Text → Text → Text → Text → Text → Result Text Text
open_parts gcm version nonce tag encrypted context =
    if not (version == lit "enc1") || is_empty nonce || is_empty tag || is_empty encrypted
    then invalid
    else gcm.open_sealed (record { nonce = nonce; tag = tag; encrypted = encrypted }) context

-- Parts after the fourth are ignored; a part that is missing is `undefined`, which is refused.
abbrev decrypt_parts : Gcm → List Text → Text → Result Text Text
decrypt_parts gcm (version ∷ nonce ∷ tag ∷ encrypted ∷ more) context =
    open_parts gcm version nonce tag encrypted context
decrypt_parts gcm _ context = invalid

unfoldable pub decrypt : Gcm → Text → Text → Result Text Text
decrypt gcm value context = decrypt_parts gcm (split b':' value) context
