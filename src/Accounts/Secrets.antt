-- ===== src/Accounts/Secrets.antt =====
-- What is encrypted is decrypted in its context.
use swkoo_kr.Prelude.{
  append_assoc, ℕ, ◌≡◌, refl, ap, ◌∙◌, Bool, true, false, not, [], ◌∷◌, ◌++◌, arith, ◌==◌, nat_eq,
  all, ok,
}
use swkoo_kr.Prelude.Texts.{Text, lit, text_eq, text_beq, split, join}
use swkoo_kr.Accounts.Cipher.{Gcm, encrypt, decrypt}

abbrev pub not_colon : ℕ → Bool
not_colon c = not (c == b':')

-- What the code relies on: base64 has no colon, a nonce and a tag are not empty, a text that is not
-- empty has a ciphertext that is not, and what is sealed opens in its context.
pub record IsCipher (gcm : Gcm) : Type 0 where
  pub nonce : (v c : Text) → all not_colon (gcm.seal v c).nonce ≡ true
  pub tag : (v c : Text) → all not_colon (gcm.seal v c).tag ≡ true
  pub encrypted : (v c : Text) → all not_colon (gcm.seal v c).encrypted ≡ true
  pub has_nonce : (v c : Text) → ((gcm.seal v c).nonce == []) ≡ false
  pub has_tag : (v c : Text) → ((gcm.seal v c).tag == []) ≡ false
  pub has_text : (v c : Text) → (v == []) ≡ false → ((gcm.seal v c).encrypted == []) ≡ false
  pub opens : (v c : Text) → gcm.open_sealed (gcm.seal v c) c ≡ ok v

split-colon :
    (s t : Text) → all not_colon s ≡ true → split b':' (s ++ (b':' ∷ t)) ≡ s ∷ split b':' t
unfolding split
split-colon [] t h = refl
split-colon (c ∷ s) t h =
    let rest = split-colon s t (ground arith) in
    let other : (c == b':') ≡ false = ground arith in rw (other, rest) refl

split_last : (s : Text) → all not_colon s ≡ true → split b':' s ≡ s ∷ []
unfolding split
split_last [] h = refl
split_last (c ∷ s) h =
    let rest = split_last s (ground arith) in
    let other : (c == b':') ≡ false = ground arith in rw (other, rest) refl

join-four :
    (a b c d : Text)
    → join (b':' ∷ []) (a ∷ b ∷ c ∷ d ∷ []) ≡ a ++ (b':' ∷ (b ++ (b':' ∷ (c ++ (b':' ∷ d)))))
unfolding join
join-four a b c d = simp (append_assoc)

split-four :
    (a b c d : Text)
    → all not_colon a ≡ true
    → all not_colon b ≡ true
    → all not_colon c ≡ true
    → all not_colon d ≡ true
    → split b':' (join (b':' ∷ []) (a ∷ b ∷ c ∷ d ∷ [])) ≡ a ∷ b ∷ c ∷ d ∷ []
split-four a b c d h i j k =
    ap (split b':') (join-four a b c d)
    ∙ (split-colon a (b ++ (b':' ∷ (c ++ (b':' ∷ d)))) h
        ∙ ap (λ ws. a ∷ ws)
            (split-colon b (c ++ (b':' ∷ d)) i
              ∙ ap (λ ws. b ∷ ws) (split-colon c d j ∙ ap (λ ws. c ∷ ws) (split_last d k))))

encrypt-parts :
    (gcm : Gcm) (v c : Text)
    → IsCipher gcm
    → split b':' (encrypt gcm v c)
      ≡ lit "enc1" ∷ (gcm.seal v c).nonce ∷ (gcm.seal v c).tag ∷ (gcm.seal v c).encrypted ∷ []
unfolding encrypt lit
encrypt-parts gcm v c h =
    split-four (lit "enc1") (gcm.seal v c).nonce (gcm.seal v c).tag (gcm.seal v c).encrypted refl
      (h.nonce v c) (h.tag v c) (h.encrypted v c)

-- A text that is not empty is decrypted, in the context in which it was encrypted, to itself.
pub decrypt-encrypt :
    (gcm : Gcm) (value context : Text)
    → IsCipher gcm
    → (value == []) ≡ false
    → decrypt gcm (encrypt gcm value context) context ≡ ok value
unfolding decrypt lit text_beq
decrypt-encrypt gcm value context h filled =
    rw
      (
        encrypt-parts gcm value context h,
        h.has_nonce value context,
        h.has_tag value context,
        h.has_text value context filled,
      )
      (h.opens value context)
