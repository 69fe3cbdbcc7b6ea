-- ===== src/Distro/Image.antt =====
-- `fetch_image` of scripts/build-distro.py, on the folder that was downloaded.
pub mod Intact
use linux_build.Base.{
  ℕ, Bool, true, false, ◌&&◌, List, [], ◌∷◌, ◌++◌, Option, none, some, ◌==◌, length, Text, codes,
  text_eq, Result, ok, err, value_error, os_error, ◌>>=◌, ◌>>◌, require,
}
use linux_build.Base.Dict.{Dict, lookup}
use linux_build.Release.Order.{split_from}

-- What is read from `manifest.json`: the digests of the configuration and of the layers.
pub record ImageManifest : Type 0 where
  pub config : Text
  pub layers : List Text

pub record ImageConfig : Type 0 where
  pub architecture : Text
  pub os : Text

-- What the record of a disk says of an image.
pub record Provenance : Type 0 where
  pub reference : Text
  pub manifest_sha256 : Text
  pub config_digest : Text
  pub layer_digest : Text

-- SHA-256, and the readers of JSON.
pub record ImageReaders : Type 0 where
  pub sha : Text → Text
  pub read_manifest : Text → Result ImageManifest
  pub read_config : Text → Result ImageConfig

-- The parts of a digest; another number of parts than two is a ValueError.
unfoldable pub digest_parts : List Text → Result (Text × Text)
digest_parts (algorithm ∷ digest ∷ []) = ok (algorithm, digest)
digest_parts _ = err (value_error (codes "not enough or too many values to unpack"))

unfoldable pub file_in : Dict Text → Text → Result Text
file_in folder name = elim (lookup name folder) [
  | none ↦ err (os_error name)
  | some content ↦ ok content
]

module _ (r : ImageReaders) where
  -- Whether the blob has its digest; the blob is not looked at if the algorithm is another.
  unfoldable pub has_digest : Dict Text → Text → Text → Result Bool
  has_digest folder algorithm digest = elim (text_eq algorithm (codes "sha256")) [
    | false ↦ ok false
    | true ↦ do content ← file_in folder digest; ok (text_eq (r.sha content) digest)
  ]

  unfoldable pub check_blobs : Dict Text → List Text → Result (Unit {0})
  check_blobs folder [] = ok tt
  check_blobs folder (d ∷ ds) = do
    parts ← digest_parts (split_from b':' [] d)
    intact ← has_digest folder parts.0 parts.1
    require intact (value_error (codes "OCI blob integrity failure"))
    check_blobs folder ds

  -- The only layer.
  unfoldable pub single_layer : List Text → Result Text
  single_layer (layer ∷ []) = ok layer
  single_layer _ = err (value_error (codes "expected an official single-layer minimal base image"))

  -- The contents of the layer, and where it is from.
  unfoldable pub fetch_image : Text → Dict Text → Result (Text × Provenance)
  fetch_image reference folder = do
    written ← file_in folder (codes "manifest.json")
    manifest ← r.read_manifest written
    layer ← single_layer manifest.layers
    check_blobs folder (manifest.config ∷ layer ∷ [])
    config_parts ← digest_parts (split_from b':' [] manifest.config)
    blob ← file_in folder config_parts.1
    config ← r.read_config blob
    require (text_eq config.architecture (codes "riscv64") && text_eq config.os (codes "linux"))
        (value_error (codes "upstream image is not linux/riscv64"))
    layer_parts ← digest_parts (split_from b':' [] layer)
    content ← file_in folder layer_parts.1
    ok (
      content,
      record {
        reference = reference;
        manifest_sha256 = r.sha written;
        config_digest = manifest.config;
        layer_digest = layer;
      },
    )
