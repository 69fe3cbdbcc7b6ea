-- ===== src/Distro/Image/Intact.antt =====
-- The images that scripts/build-distro.py accepts.
use mathlib.Core.Path.{subst}
use linux_build.Base.{
  true, ◌&&◌, List, [], ◌∷◌, some, Text, codes, text_eq, text_eq_iff, &&_iff, ok, >>=-eq-ok,
  >>-eq-ok, ok-inj, err≢ok, some-inj, Bool-cases, Option-cases, inl, inr, ◌≡◌, refl, sym, ap, ◌∙◌,
  false≢true,
}
use linux_build.Base.Dict.{Dict, lookup}
use linux_build.Release.Order.{split_from}
use linux_build.Distro.Image.{
  ImageManifest, ImageConfig, Provenance, ImageReaders, digest_parts, file_in, has_digest,
  check_blobs, single_layer, fetch_image,
}

file_in-eq-ok :
    (folder : Dict Text) (name : Text) {c : Text}
    → file_in folder name ≡ ok c
    → lookup name folder ≡ some c
unfolding file_in
file_in-eq-ok folder name h = elim (Option-cases (lookup name folder)) [
  | inl e ↦ absurd (err≢ok (rw (e, file_in) at h))
  | inr (content, e) ↦ e ∙ ap some (ok-inj (rw (e, file_in) at h))
]

single_layer-eq-ok :
    (r : ImageReaders) (ls : List Text) {layer : Text}
    → single_layer r ls ≡ ok layer
    → ls ≡ layer ∷ []
unfolding single_layer
single_layer-eq-ok r [] h = cc
single_layer-eq-ok r (l ∷ []) h = ap (λ x. x ∷ []) (ok-inj h)
single_layer-eq-ok r (l ∷ l' ∷ ls) h = cc

module _ (r : ImageReaders) where
  -- A file of the folder whose name is its SHA-256, which the digest gives.
  pub record IsBlob (folder : Dict Text) (digest : Text) : Type 0 where
    pub name : Text
    pub parts : digest_parts (split_from b':' [] digest) ≡ ok (codes "sha256", name)
    pub content : Text
    pub found : lookup name folder ≡ some content
    pub hashed : r.sha content ≡ name

  check_blobs-IsBlob :
      (folder : Dict Text) (d : Text) (ds : List Text)
      → check_blobs r folder (d ∷ ds) ≡ ok tt
      → IsBlob folder d × (check_blobs r folder ds ≡ ok tt)
  unfolding check_blobs has_digest
  check_blobs-IsBlob folder d ds h =
      let ((algorithm, name), e₁, h₁) = >>=-eq-ok (digest_parts (split_from b':' [] d)) _ h in
      let (intact, e₂, h₂) = >>=-eq-ok (has_digest r folder algorithm name) _ h₁ in
      let (is, rest) = >>-eq-ok intact _ _ h₂ in (blob algorithm name e₁ (e₂ ∙ ap ok is), rest)
    where
      blob :
          (algorithm name : Text)
          → digest_parts (split_from b':' [] d) ≡ ok (algorithm, name)
          → has_digest r folder algorithm name ≡ ok true
          → IsBlob folder d
      blob algorithm name e h = elim (Bool-cases (text_eq algorithm (codes "sha256"))) [
        | inr f ↦ absurd (false≢true (ok-inj (rw (f, has_digest) at h)))
        | inl t ↦
            let (content, c, k) = >>=-eq-ok (file_in folder name) _ (rw (t, has_digest) at h) in
            record {
              name = name;
              parts = e ∙ ap (λ a. ok (a, name)) ((text_eq_iff algorithm (codes "sha256")).0 t);
              content = content;
              found = file_in-eq-ok folder name c;
              hashed = (text_eq_iff (r.sha content) name).0 (ok-inj k);
            }
      ]

  -- An image as it is used: it has one layer, layer and configuration have their digests, and the
  -- configuration is that of a RISC-V image.
  pub record IsIntact (folder : Dict Text) (content : Text) (from : Provenance) : Type 0 where
    pub written : Text
    pub has_manifest : lookup (codes "manifest.json") folder ≡ some written
    pub manifest_hash : from.manifest_sha256 ≡ r.sha written
    pub manifest : ImageManifest
    pub read : r.read_manifest written ≡ ok manifest
    pub one_layer : manifest.layers ≡ from.layer_digest ∷ []
    pub config : IsBlob folder manifest.config
    pub layer : IsBlob folder from.layer_digest
    pub is_content : layer.content ≡ content
    pub image : ImageConfig
    pub is_image : r.read_config config.content ≡ ok image
    pub architecture : image.architecture ≡ codes "riscv64"
    pub os : image.os ≡ codes "linux"

  -- The contents of a blob are what the steps after the check read under its digest.
  IsBlob-content :
      (folder : Dict Text) (d : Text) {parts : Text × Text} {content : Text}
      → (blob : IsBlob folder d) → digest_parts (split_from b':' [] d) ≡ ok parts
      → file_in folder parts.1 ≡ ok content
      → blob.content ≡ content
  IsBlob-content folder d {parts} {content} blob e f =
      let same : blob.name ≡ parts.1 = ap (λ x. x.1) (ok-inj (sym blob.parts ∙ e)) in
      some-inj (sym blob.found ∙ ap (λ n. lookup n folder) same ∙ file_in-eq-ok folder parts.1 f)

  -- What `fetch_image` accepts is a single-layer RISC-V image whose configuration and layer have the digests that the
  -- manifest gives, and the provenance names this manifest and this layer.
  pub fetch_image-IsIntact :
      (reference : Text) (folder : Dict Text) {content : Text} {from : Provenance}
      → fetch_image r reference folder ≡ ok (content, from)
      → IsIntact folder content from × (from.reference ≡ reference)
  unfolding fetch_image
  fetch_image-IsIntact reference folder {content} {from} h =
      let (written, e₁, h₁) = >>=-eq-ok (file_in folder (codes "manifest.json")) _ h in
      let (manifest, e₂, h₂) = >>=-eq-ok (r.read_manifest written) _ h₁ in
      let (layer, e₃, h₃) = >>=-eq-ok (single_layer r manifest.layers) _ h₂ in
      let (u, e₄, h₄) = >>=-eq-ok (check_blobs r folder (manifest.config ∷ layer ∷ [])) _ h₃ in
      let (config_parts, e₅, h₅) =
        >>=-eq-ok (digest_parts (split_from b':' [] manifest.config)) _ h₄ in
      let (blob, e₆, h₆) = >>=-eq-ok (file_in folder config_parts.1) _ h₅ in
      let (image, e₇, h₇) = >>=-eq-ok (r.read_config blob) _ h₆ in
      let (target, h₈) =
        >>-eq-ok (text_eq image.architecture (codes "riscv64") && text_eq image.os (codes "linux"))
          _ _ h₇ in
      let (layer_parts, e₉, h₉) = >>=-eq-ok (digest_parts (split_from b':' [] layer)) _ h₈ in
      let (bytes, e₁₀, h₁₀) = >>=-eq-ok (file_in folder layer_parts.1) _ h₉ in
      let made : Provenance = record {
        reference = reference;
        manifest_sha256 = r.sha written;
        config_digest = manifest.config;
        layer_digest = layer;
      } in
      let same : (bytes, made) ≡ (content, from) = ok-inj h₁₀ in
      let is_from : made ≡ from = ap (λ x. x.1) same in
      let (config_blob, k) = check_blobs-IsBlob folder manifest.config (layer ∷ []) e₄ in
      let (layer_blob, end) = check_blobs-IsBlob folder layer [] k in
      let (arch, os) = (&&_iff _ _).0 target in
      let intact : IsIntact folder bytes made = record {
        written = written;
        has_manifest = file_in-eq-ok folder (codes "manifest.json") e₁;
        manifest_hash = refl;
        manifest = manifest;
        read = e₂;
        one_layer = single_layer-eq-ok r manifest.layers e₃;
        config = config_blob;
        layer = layer_blob;
        is_content = IsBlob-content folder layer layer_blob e₉ e₁₀;
        image = image;
        is_image = ap r.read_config (IsBlob-content folder manifest.config config_blob e₅ e₆) ∙ e₇;
        architecture = (text_eq_iff _ _).0 arch;
        os = (text_eq_iff _ _).0 os;
      } in
      (subst (λ x. IsIntact folder x.0 x.1) same intact, ap (λ x. x.reference) (sym is_from))
