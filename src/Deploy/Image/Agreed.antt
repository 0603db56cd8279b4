-- ===== src/Deploy/Image/Agreed.antt =====
-- What an answer of `readyImageDigest` and of `runningImage` says of the cluster.
use swkoo_kr.Prelude.{
  ◌≡◌, refl, ◌⊎◌, inl, inr, Bool, true, ◌&&◌, some, some-eq, List, [], ◌∷◌, ◌++◌, if◌then◌else◌,
  ◌==◌, nat_eq, Bool-cases, Option-cases, any, find, All, arith, subst, ◌∙◌,
}
use swkoo_kr.Prelude.Rows.{All-map}
use swkoo_kr.Prelude.Texts.{Text, lit, text_eq, text_beq_iff, text_beq_refl, ends_with}
use swkoo_kr.Deploy.Image.{
  Application, RunningPod, PodImage, is_settled, is_digest, pinned_digest, matches, agreed, agrees,
  ready_image_digest, pod_image, collect_images, only, running_image,
}

pub pinned_digest-is_digest : (s d : Text) → pinned_digest s ≡ some d → is_digest d ≡ true
unfolding pinned_digest
pinned_digest-is_digest [] d e = absurd (cc)
pinned_digest-is_digest (c ∷ s) d e = ground (arith, pinned_digest-is_digest s d)

agreed-same :
    (app : Application) (login repo desired digest d : Text)
    → agreed login repo app desired (some digest) ≡ some d
    → (some digest ≡ some d)
      × (any (λ i. matches login repo i && ends_with i (lit "@" ++ d)) app.running ≡ true)
agreed-same app login repo desired digest d e =
    elim (Bool-cases (agrees login repo app desired digest)) [
      | inr f ↦ absurd (cc (rw f at e))
      | inl t ↦
          let same : some digest ≡ some d = rw t at e in
          (
            same,
            subst
                (λ x.
                  any (λ i. matches login repo i && ends_with i (lit "@" ++ x)) app.running ≡ true)
                (some-eq same) (ground (arith, t)),
          )
    ]

-- Where `readyImageDigest` gives a digest, Argo CD has synced, is healthy and has succeeded; the
-- digest is well formed; and an image of the repository with that digest is among the running ones.
pub ready_image_digest-agrees :
    (app : Application) (login repo d : Text)
    → ready_image_digest (some app) login repo ≡ some d
    → (is_settled app ≡ true)
      × (is_digest d ≡ true)
      × (any (λ i. matches login repo i && ends_with i (lit "@" ++ d)) app.running ≡ true)
unfolding ready_image_digest
ready_image_digest-agrees app login repo d e = elim (Bool-cases (is_settled app)) [
  | inr f ↦ absurd (cc (rw f at e))
  | inl t ↦ elim (Option-cases (find (matches login repo) app.images)) [
    | inl n ↦ absurd (cc (rw (t, n) at e))
    | inr (desired, m) ↦ elim (Option-cases (pinned_digest desired)) [
      | inl n ↦ absurd (cc (rw (t, m, n) at e))
      | inr (digest, p) ↦ (
        t,
        pinned_digest-is_digest desired d
            (p ∙ (agreed-same app login repo desired digest d (rw (t, m, p) at e)).0),
        (agreed-same app login repo desired digest d (rw (t, m, p) at e)).1,
      )
    ]
  ]
]

abbrev has : Text → List Text → Bool
has image images = any (λ i. i == image) images

abbrev with_image : Text → List Text → List Text
with_image image images = if has image images then images else images ++ image ∷ []

has-append :
    (i image : Text) (images : List Text)
    → has i images ≡ true
    → has i (images ++ image ∷ []) ≡ true
has-append i image [] h = absurd (cc)
has-append i image (x ∷ xs) h = ground (arith, has-append i image xs)

has-append_self : (image : Text) (images : List Text) → has image (images ++ image ∷ []) ≡ true
has-append_self image [] = rw (text_beq_refl image) refl
has-append_self image (x ∷ xs) = ground (arith, has-append_self image xs)

has-with_image :
    (i image : Text) (images : List Text)
    → has i images ≡ true
    → has i (with_image image images) ≡ true
has-with_image i image images h = elim (Bool-cases (has image images)) [
  | inl t ↦ rw t h
  | inr f ↦ rw f (has-append i image images h)
]

has-with_image_self :
    (image : Text) (images : List Text) → has image (with_image image images) ≡ true
has-with_image_self image images = elim (Bool-cases (has image images)) [
  | inl t ↦ rw t t
  | inr f ↦ rw f (has-append_self image images)
]

-- What one pod adds to the images that the loop has met.
abbrev IsMet : Text → List Text → RunningPod → Type 0
IsMet name images pod =
    (pod_image name pod ≡ PodImage.skipped)
    ⊎ ((image : Text) × (pod_image name pod ≡ PodImage.runs image) × (has image images ≡ true))

PodImage-cases :
    (p : PodImage)
    → (p ≡ PodImage.skipped) ⊎ (p ≡ PodImage.unknown) ⊎ ((image : Text) × (p ≡ PodImage.runs image))
PodImage-cases PodImage.skipped = inl refl
PodImage-cases PodImage.unknown = inr (inl refl)
PodImage-cases (PodImage.runs image) = inr (inr (image, refl))

collect_images-IsMet :
    (name : Text) (pods : List RunningPod) (images final : List Text)
    → collect_images name pods images ≡ some final
    → All (IsMet name final) pods × ((i : Text) → has i images ≡ true → has i final ≡ true)
unfolding collect_images
collect_images-IsMet name [] images final e = (tt, λ i h. subst (λ x. has i x ≡ true) (some-eq e) h)
collect_images-IsMet name (pod ∷ pods) images final e = elim (PodImage-cases (pod_image name pod)) [
  | inl s ↦
      let rest = collect_images-IsMet name pods images final (rw (s, collect_images) at e) in
      ((inl s, rest.0), rest.1)
  | inr (inl u) ↦ absurd (cc (rw (u, collect_images) at e))
  | inr (inr (image, r)) ↦
      let rest =
        collect_images-IsMet name pods (with_image image images) final
          (rw (r, collect_images) at e) in
      (
        (inr (image, r, rest.1 image (has-with_image_self image images)), rest.0),
        λ i h. rest.1 i (has-with_image i image images h),
      )
]

only-has :
    (images : List Text) (image i : Text)
    → only images ≡ some image
    → has i images ≡ true
    → i ≡ image
only-has [] image i e h = absurd (cc)
only-has (x ∷ []) image i e h = ground (arith, text_beq_iff x i)
only-has (x ∷ y ∷ xs) image i e h = absurd (cc)

met-one :
    (name : Text) (images : List Text) (image : Text) (pod : RunningPod)
    → only images ≡ some image
    → IsMet name images pod
    → (pod_image name pod ≡ PodImage.skipped) ⊎ (pod_image name pod ≡ PodImage.runs image)
met-one name images image pod o (inl s) = inl s
met-one name images image pod o (inr (i, r, h)) =
    inr (subst (λ x. pod_image name pod ≡ PodImage.runs x) (only-has images image i o h) r)

-- Where `runningImage` names an image, every pod that the loop does not skip runs that image.
pub running_image-only :
    (pods : List RunningPod) (name image : Text)
    → running_image pods name ≡ some image
    → All
        (λ pod.
          (pod_image name pod ≡ PodImage.skipped) ⊎ (pod_image name pod ≡ PodImage.runs image))
        pods
unfolding running_image
running_image-only pods name image e = elim (Option-cases (collect_images name pods [])) [
  | inl n ↦ absurd (cc (rw (n, running_image) at e))
  | inr (images, c) ↦
      let o : only images ≡ some image = rw (c, running_image) at e in
      All-map (IsMet name images) _ pods (λ pod m. met-one name images image pod o m)
        (collect_images-IsMet name pods [] images c).0
]
