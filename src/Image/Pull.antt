-- ===== src/Image/Pull.antt =====
-- internal/image/pull.go: the image of a reference for the guest's architecture. What the library of
-- images and the network answer is data; `none` and false are errors.
use aegisvm.Base.{
  ℕ, List, [], ◌∷◌, Option, none, some, Bool, false, ◌&&◌, if◌then◌else◌, String, ◌=s◌,
}
use aegisvm.Image.Unpack.{Layer}

-- A `v1.Image`, with the operating system and the architecture of its configuration.
pub record Image : Type 0 where
  pub layers : Option (List Layer)
  pub config_file : Option (String × String)
  -- The `Env` of the configuration.
  pub environment : List (List ℕ)
  pub digest : Option (List ℕ)

-- An entry of an index: its platform, if it has one, and the image of its digest.
pub record Variant : Type 0 where
  pub platform : Option (String × String)
  pub image : Option Image

pub data Descriptor : Type 0 where
  -- `none` is an index, or its manifest, that cannot be read.
  image_index : Option (List Variant) → Descriptor
  single_image : Option Image → Descriptor

pub record Remote : Type 0 where
  pub parses : Bool
  pub answer : Option Descriptor

-- `PullResult`
pub record Pulled : Type 0 where
  pub image : Image
  pub digest : List ℕ

abbrev fits_platform : String → Option (String × String) → Bool
fits_platform arch none = false
fits_platform arch (some (os, a)) = (os =s "linux") && (a =s arch)

-- The loop over the manifests of an index; none is both an error and no variant.
unfoldable find_variant : String → List Variant → Option Image
find_variant arch [] = none
find_variant arch (v ∷ vs) =
    let rest = find_variant arch vs in if fits_platform arch v.platform then v.image else rest

abbrev checked : String → Option Image → Option Image
checked arch none = none
checked arch (some img) = if fits_platform arch img.config_file then some img else none

unfoldable choose : String → Descriptor → Option Image
unfolding find_variant
choose arch (image_index none) = none
choose arch (image_index (some vs)) = find_variant arch vs
choose arch (single_image o) = checked arch o

abbrev with_digest : Image → Option (List ℕ) → Option Pulled
with_digest img none = none
with_digest img (some d) = some (record { image = img; digest = d })

abbrev result_of : Option Image → Option Pulled
result_of none = none
result_of (some img) = with_digest img img.digest

abbrev answered : String → Option Descriptor → Option Pulled
answered arch none = none
answered arch (some d) = result_of (choose arch d)

-- `Pull`
unfoldable pub pull : String → Remote → Option Pulled
unfolding choose
pull arch r = if r.parses then answered arch r.answer else none
