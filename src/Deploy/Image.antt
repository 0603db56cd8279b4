-- ===== src/Deploy/Image.antt =====
-- deploy/deployment-readiness.ts and deploy/running-image.ts: which image a deployment runs.
pub mod Agreed
use swkoo_kr.Prelude.{
  ℕ, ◌+◌, Bool, true, false, not, ◌&&◌, ◌||◌, Option, none, some, List, [], ◌∷◌, ◌++◌,
  if◌then◌else◌, ◌==◌, nat_eq, or_else, is_some, any, all, find, drop, length, leb, map,
}
use swkoo_kr.Prelude.Texts.{
  Text, lit, text_eq, is_digit, to_lower, starts_with, ends_with, split, join,
}

-- `?.` and `??` on what Argo CD reports: an absent list has no entries.
pub record Application : Type 0 where
  pub sync : Option Text
  pub health : Option Text
  pub phase : Option Text
  pub images : List Text
  pub compared : List Text
  pub running : List Text

abbrev pub is_hex : ℕ → Bool
is_hex c = is_digit c || (leb b'a' c && leb c b'f')

-- `/^sha256:[a-f0-9]{64}$/`
unfoldable pub is_digest : Text → Bool
is_digest s = starts_with s (lit "sha256:") && length (drop 7 s) == 64 && all is_hex (drop 7 s)

-- `s.match(/@(sha256:[a-f0-9]{64})$/)?.[1]`
unfoldable pub pinned_digest : Text → Option Text
pinned_digest [] = none
pinned_digest (c ∷ s) = if c == b'@' && is_digest s then some s else pinned_digest s

abbrev pub is_text : Text → Option Text → Bool
is_text s none = false
is_text s (some t) = t == s

unfoldable pub image_repo : Text → Text → Text
image_repo login repo = to_lower (lit "ghcr.io/" ++ login ++ lit "/" ++ repo)

abbrev pub of_repo : Text → Text → Bool
of_repo repository image =
    starts_with image (repository ++ lit ":") || starts_with image (repository ++ lit "@")

-- `matches` of `readyImageDigest`
unfoldable pub matches : Text → Text → Text → Bool
matches login repo image = of_repo (image_repo login repo) (to_lower image)

abbrev pub is_settled : Application → Bool
is_settled app =
    is_text (lit "Synced") app.sync
    && is_text (lit "Healthy") app.health
    && is_text (lit "Succeeded") app.phase

-- The image that was compared and is in the summary, by its digest.
abbrev pub agrees : Text → Text → Application → Text → Text → Bool
agrees login repo app desired digest =
    any (λ i. i == desired) app.compared
    && any (λ i. matches login repo i && ends_with i (lit "@" ++ digest)) app.running

abbrev pub agreed : Text → Text → Application → Text → Option Text → Option Text
agreed login repo app desired none = none
agreed login repo app desired (some digest) =
    if agrees login repo app desired digest then some digest else none

abbrev pub ready_of : Text → Text → Application → Option Text → Option Text
ready_of login repo app none = none
ready_of login repo app (some desired) = agreed login repo app desired (pinned_digest desired)

abbrev pub ready_app : Text → Text → Application → Option Text
ready_app login repo app =
    if is_settled app then ready_of login repo app (find (matches login repo) app.images) else none

-- `readyImageDigest`
unfoldable pub ready_image_digest : Option Application → Text → Text → Option Text
ready_image_digest none login repo = none
ready_image_digest (some app) login repo = ready_app login repo app

pub record RunningContainer : Type 0 where
  pub name : Text
  pub image : Text

pub record ContainerState : Type 0 where
  pub name : Text
  pub ready : Bool
  pub image_id : Text

pub record RunningPod : Type 0 where
  pub deleting : Bool
  pub phase : Text
  pub containers : List RunningContainer
  pub statuses : List ContainerState

-- `s.match(/sha256:[a-f0-9]{64}$/)?.[0]`
unfoldable pub trailing_digest : Text → Option Text
trailing_digest [] = none
trailing_digest (c ∷ s) = if is_digest (c ∷ s) then some (c ∷ s) else trailing_digest s

abbrev pub first_part : List Text → Text
first_part [] = []
first_part (w ∷ ws) = w

abbrev has_slash : Text → Bool
has_slash s = any (λ c. c == b'/') s

-- `.replace(/:[^/:]+$/, '')`: the last part of what `:` separates, if it has no slash.
unfoldable pub drop_tag : List Text → List Text
drop_tag [] = []
drop_tag (w ∷ []) = w ∷ []
drop_tag (w ∷ v ∷ []) = if has_slash v || v == [] then w ∷ v ∷ [] else w ∷ []
drop_tag (w ∷ v ∷ u ∷ ws) = w ∷ drop_tag (v ∷ u ∷ ws)

unfoldable pub repository_of : Text → Text
repository_of image = join (lit ":") (drop_tag (split b':' (first_part (split b'@' image))))

pub data PodImage : Type 0 where
  skipped unknown : PodImage
  runs : Text → PodImage

abbrev container_image : Text → RunningPod → Option Text
container_image name pod = elim (find (λ (c : RunningContainer). c.name == name) pod.containers) [
  | none ↦ none
  | some c ↦ if c.image == [] then none else some c.image
]

abbrev pub pinned_image : Option Text → Option Text → PodImage
pinned_image (some digest) (some image) = PodImage.runs (repository_of image ++ lit "@" ++ digest)
pinned_image _ _ = PodImage.unknown

-- One round of the loop of `runningImage`.
unfoldable pub pod_image : Text → RunningPod → PodImage
pod_image name pod =
    if pod.deleting || not (pod.phase == lit "Running")
    then PodImage.skipped
    else elim (find (λ (c : ContainerState). c.name == name) pod.statuses) [
      | none ↦ PodImage.skipped
      | some c ↦
          if c.ready
          then pinned_image (trailing_digest c.image_id) (container_image name pod)
          else PodImage.skipped
    ]

-- The set of the images, or `none` where the loop returns early.
unfoldable pub collect_images : Text → List RunningPod → List Text → Option (List Text)
collect_images name [] images = some images
collect_images name (pod ∷ pods) images = elim (pod_image name pod) [
  | PodImage.skipped ↦ collect_images name pods images
  | PodImage.unknown ↦ none
  | PodImage.runs image ↦
      collect_images name pods
        (if any (λ i. i == image) images then images else images ++ image ∷ [])
]

abbrev pub only : List Text → Option Text
only (image ∷ []) = some image
only _ = none

-- `runningImage`
unfoldable pub running_image : List RunningPod → Text → Option Text
running_image pods name = elim (collect_images name pods []) [
  | none ↦ none
  | some images ↦ only images
]
