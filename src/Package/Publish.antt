-- ===== src/Package/Publish.antt =====
-- The package that `main` of scripts/package-artifacts.py writes: its files, its manifest, and its
-- place in the folder of packages.
use linux_build.Base.{
  ℕ, zero, suc, ◌+◌, ◌/◌, ◌%◌, List, [], ◌∷◌, ◌++◌, Option, none, some, ltb, if◌then◌else◌, ℤ, pos,
  negsuc, ◌+ℤ◌, Text, codes, decimal,
}
use linux_build.Base.Dict.{Dict, lookup, insert}
use linux_build.Base.Bytes.{Bytes}
use linux_build.Base.Image.{kernel_end}
use linux_build.Package.Readme.{Manifest}
use linux_build.Package.Checks.{Inputs, Checked, is_buildroot}

-- What is recorded of the build and of its sources, and the files that are only copied.
pub record Build : Type 0 where
  pub preset_stem : Text
  pub kernel_version : Text
  pub isa : Text
  pub abi : Text
  pub source_files : Dict Bytes
  pub source_commit : Text
  pub opensbi_commit : Text
  pub created : ℕ
  pub fw_payload_elf : Bytes
  pub fw_dynamic : Bytes
  pub vmlinux : Bytes
  -- The file of which `Inputs` has the text.
  pub kernel_config : Bytes
  pub preset_toml : Bytes
  pub source_record : Option Bytes
  pub rootfs_manifest : Option Bytes

hex_digit : ℕ → ℕ
hex_digit d = if ltb d 10 then b'0' + d else 87 + d

-- The digits of n before those of acc; `n < fuel` digits are enough.
hex_onto : ℕ → ℕ → Text → Text
hex_onto zero n acc = acc
hex_onto (suc fuel) n acc =
    let rest = hex_onto fuel (n / 16) (hex_digit (n % 16) ∷ acc) in
    if ltb n 16 then hex_digit n ∷ acc else rest

-- `hex(n)`
unfoldable pub hex : ℤ → Text
unfolding hex_digit hex_onto
hex (pos n) = codes "0x" ++ hex_onto (suc n) n []
hex (negsuc n) = codes "-0x" ++ hex_onto (suc (suc n)) (suc n) []

-- Where the memory begins.
abbrev base : ℤ
base = pos 0x80000000

module _ (sha : Bytes → Text) where
  -- `{name: sha(content)}`
  unfoldable pub hashes : Dict Bytes → Dict Text
  hashes [] = []
  hashes ((name, content) ∷ files) = (name, sha content) ∷ hashes files

  -- `m`, before `files` is added.
  unfoldable pub manifest_of : Inputs → Checked → Build → Manifest
  manifest_of i c b = record {
    preset = b.preset_stem;
    variant = i.variant;
    bits = c.bits;
    kernel_version = b.kernel_version;
    kernel_hz = c.hz;
    memory_mib = c.memory;
    kernel_address = hex (base +ℤ pos c.layout.text_offset);
    kernel_memory_end = hex (base +ℤ pos (kernel_end c.layout i.image));
    kernel_memory_size = c.layout.memory_size;
    payload_kernel_offset = c.payload_offset;
    fdt_offset = i.fdt_offset;
    fdt_address = hex (base +ℤ i.fdt_offset);
    opensbi_isa = b.isa;
    abi = b.abi;
    build_inputs = hashes b.source_files;
    source_commit = b.source_commit;
    opensbi_commit = b.opensbi_commit;
    created = b.created;
  }

abbrev pub optional : Text → Option Bytes → Dict Bytes
optional name none = []
optional name (some content) = (name, content) ∷ []

-- The files of `stage`, before the manifest is written; `kernel_config` is the file as it is copied.
unfoldable pub staged : Inputs → Build → Bytes → Bytes → Dict Bytes
staged i b kernel_config readme_text =
    (codes "fw_payload.bin", i.fw_payload)
    ∷ (codes "fw_payload.elf", b.fw_payload_elf)
    ∷ (codes "fw_dynamic.bin", b.fw_dynamic)
    ∷ (codes "Image", i.image)
    ∷ (codes "vmlinux", b.vmlinux)
    ∷ (codes "kernel.config", kernel_config)
    ∷ (codes "initramfs.cpio.gz", i.initramfs)
    ∷ (codes "preset.toml", b.preset_toml)
    ∷ (optional (codes "kernel-source.json") b.source_record
        ++ ((if is_buildroot i
              then optional (codes "rootfs-manifest.json") b.rootfs_manifest
              else [])
            ++ ((codes "README.md", readme_text) ∷ [])))

-- The folder `dist`: its packages, its archives, and `.superseded`.
pub record Folder : Type 0 where
  pub packages : Dict (Dict Bytes)
  pub archives : Dict Bytes
  pub superseded : List (Text × Dict Bytes)

-- `destination.rename(prior / ...)`, if there is one.
unfoldable pub set_aside :
    Text → ℕ → Option (Dict Bytes) → List (Text × Dict Bytes) → List (Text × Dict Bytes)
set_aside name time_ns none superseded = superseded
set_aside name time_ns (some prior) superseded =
    (name ++ (b'-' ∷ decimal time_ns), prior) ∷ superseded

-- The last steps: an earlier package of the name is set aside, the new one takes its place, and its
-- archive replaces the old archive. This is the state at the end: the staging folder, the temporary archive and the
-- renames between are not seen.
unfoldable pub publish : Text → ℕ → Dict Bytes → Bytes → Folder → Folder
publish name time_ns stage archive folder = record {
  packages = insert name stage folder.packages;
  archives = insert (name ++ codes ".tar.gz") archive folder.archives;
  superseded = set_aside name time_ns (lookup name folder.packages) folder.superseded;
}
