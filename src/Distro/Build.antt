-- ===== src/Distro/Build.antt =====
-- `build` of scripts/build-distro.py. The files are a dictionary by path; the virtual machine, the
-- downloads, SHA-256 and JSON are given. The temporary folder is left out.
pub mod Kept
pub mod Steps
pub mod Recorded
pub mod Again
use linux_build.Base.{
  ℕ, ◌+◌, Bool, true, false, not, ◌&&◌, ◌||◌, List, [], ◌∷◌, ◌++◌, Option, none, some, ◌==◌,
  if◌then◌else◌, Text, codes, newline, text_eq, has_char, strip, splitlines, Result, ok, err,
  value_error, os_error,
}
use linux_build.Base as Base
use linux_build.Base.Dict.{Dict, lookup, insert}
use linux_build.Base.State.{Action, ◌>>=◌, ◌>>◌, give, lift}
use linux_build.Toml.{Value, Fields, get, to_text}
use linux_build.Release.Matrix.{subscript, text_of}
use linux_build.Toml as Toml
use linux_build.Gate.Boots.{contains}
use linux_build.Gate.{sort_items}
use linux_build.Distro.Config.{load_config, provision_script}
use linux_build.Distro.Image.{Provenance}

-- `record`, which is written beside the disk.
pub record DiskRecord : Type 0 where
  pub schema : ℕ
  pub preset : Text
  pub inputs_sha256 : Text
  pub base_image : Provenance
  pub bootstrap_image : Provenance
  pub rootfs : Fields
  pub platform : Text
  pub rootfs_sha256 : Text
  pub packages : List Text
  pub builder : Text
  pub build_log_sha256 : Text
  pub kernel_sha256 : Text
  pub firmware_sha256 : Text

-- A file record as it is read; a key that `get` does not find is `none`.
pub record Prior : Type 0 where
  pub inputs_sha256 : Option Text
  pub rootfs_sha256 : Option Text

abbrev pub Files : Type 0
Files = Dict Text

-- How the preparation and the virtual machine end: the log, if the machine was started, and the disk.
pub record Provisioned : Type 0 where
  pub log : Option Text
  pub disk : Result Text

-- `fetch` is the download with its checks, as `fetch_image` makes them; `provision` what the virtual machine
-- makes of the settings, the provisioning script and the two layers: the disk and the log.
pub record Outside : Type 0 where
  pub sha : Text → Text
  pub dumps : DiskRecord → Text
  pub read_prior : Text → Result Prior
  pub has_tool : Text → Bool
  pub fetch : Text → Result (Text × Provenance)
  pub provision : Fields → Text → Text → Text → Provisioned
  pub decode_log : Text → Text
  pub check_disk : Text → Result (Unit {0})
  pub inventory : Text → Result Text

-- The preset with its contents, the script itself, and the files of `rootfs/distro` by their names.
pub record Sources : Type 0 where
  pub preset_name : Text
  pub preset : Text
  pub cfg : Fields
  pub script : Text
  pub runtime : Dict Text

-- The paths: those beside the disk have its name with another suffix.
pub record Paths : Type 0 where
  pub disk : Text
  pub kernel : Text
  pub firmware : Text

-- Whether the last component goes on with a suffix of its own.
has_suffix : Text → Bool
has_suffix s = has_char b'.' s || has_char b'/' s

-- The path without its last suffix, for a name that does not begin with its only dot.
unfoldable pub without_suffix : Text → Text
unfolding has_suffix
without_suffix [] = []
without_suffix (c ∷ s) =
    let rest = without_suffix s in if c == b'.' && not (has_suffix s) then [] else c ∷ rest

-- `path.with_suffix(suffix)`
abbrev pub with_suffix : Text → Text → Text
with_suffix suffix path = without_suffix path ++ suffix

abbrev pub record_path : Text → Text
record_path disk = with_suffix (codes ".json") disk

abbrev pub log_path : Text → Text
log_path disk = with_suffix (codes ".build.log") disk

unfoldable pub named_contents : Dict Text → Text
named_contents [] = []
named_contents ((name, content) ∷ files) = name ++ (content ++ named_contents files)

abbrev pub seed_image : Text
seed_image = codes "docker.io/library/alpine:3.23"

abbrev pub tools : List Text
tools =
    codes "skopeo"
    ∷ codes "fakeroot"
    ∷ codes "tar"
    ∷ codes "mke2fs"
    ∷ codes "cpio"
    ∷ codes "qemu-system-riscv64"
    ∷ codes "debugfs"
    ∷ []

abbrev pub is_file : Text → Files → Bool
is_file path files = elim (lookup path files) [ none ↦ false | some content ↦ true ]

-- `d.get(k) == h`
unfoldable pub is_recorded : Option Text → Text → Bool
is_recorded none h = false
is_recorded (some g) h = text_eq g h

-- What the log of a successful provisioning has, and has not.
unfoldable pub is_provisioned : Text → Bool
is_provisioned text =
    contains (newline ∷ (codes "RAPT_PROVISION_PASS" ++ (newline ∷ []))) text
    && not (contains (codes "RAPT_PROVISION_FAIL") text)
    && not (contains (codes "Kernel panic") text)

unfoldable pub without_returns : Text → Text
without_returns [] = []
without_returns (c ∷ s) = let rest = without_returns s in if c == 13 then rest else c ∷ rest

-- A test with a ValueError.
abbrev pub demand : Bool → Text → Action Files (Unit {0})
demand true message files = (files, ok tt)
demand false message files = (files, err (value_error message))

abbrev pub write_file : Text → Text → Action Files (Unit {0})
write_file path content files = (insert path content files, ok tt)

abbrev pub existing : Text → Action Files (Option Text)
existing path files = (files, ok (lookup path files))

module _ (out : Outside) (s : Sources) (p : Paths) (pristine : Bool) where
  unfoldable pub fingerprint : Text
  fingerprint = out.sha (s.preset ++ (s.script ++ named_contents (sort_items s.runtime)))

  unfoldable pub hash_of : Text → Action Files Text
  hash_of path files = elim (lookup path files) [
    | none ↦ (files, err (os_error path))
    | some content ↦ (files, ok (out.sha content))
  ]

  abbrev different_inputs : Text
  different_inputs =
      p.disk
      ++ codes " already exists with different inputs; choose a new BUILD_ROOT or move it aside"

  -- The disk that is there, with what its record says.
  unfoldable pub check_prior : Text → Prior → Action Files (Unit {0})
  check_prior disk prior = elim (is_recorded prior.inputs_sha256 fingerprint) [
    | false ↦ demand false different_inputs
    | true ↦
        demand (not pristine || is_recorded prior.rootfs_sha256 (out.sha disk))
          (codes "release disk modified since construction; choose a clean build directory")
  ]

  -- A disk that is there is used again, if it is of the same inputs.
  unfoldable pub reuse_disk : Text → Option Text → Action Files (Unit {0})
  reuse_disk disk none = demand false different_inputs
  reuse_disk disk (some written) = lift (out.read_prior written) >>= check_prior disk

  unfoldable pub check_tools : List Text → Action Files (Unit {0})
  check_tools [] = give tt
  check_tools (tool ∷ rest) =
      demand (out.has_tool tool) (codes "missing host tool: " ++ tool) >> check_tools rest

  abbrev pub check_built : Action Files (Unit {0})
  check_built files =
      demand (is_file p.kernel files && is_file p.firmware files)
        (codes "build the distro kernel and OpenSBI before provisioning the rootfs") files

  -- The layer that the machine is started with: the same, if the image is the one that is used for this.
  unfoldable pub fetch_seed : Text → Text × Provenance → Action Files (Text × Provenance)
  fetch_seed image base = elim (text_eq image seed_image) [
    | true ↦ give base
    | false ↦ lift (out.fetch seed_image)
  ]

  abbrev pub record_of :
      Fields → Provenance → Provenance → Text → List Text → Text → Text → Text → DiskRecord
  record_of rootfs base seed disk packages log kernel firmware = record {
    schema = 2;
    preset = s.preset_name;
    inputs_sha256 = fingerprint;
    base_image = base;
    bootstrap_image = seed;
    rootfs = rootfs;
    platform = codes "linux/riscv64";
    rootfs_sha256 = out.sha disk;
    packages = packages;
    builder = codes "qemu-system-riscv64";
    build_log_sha256 = log;
    kernel_sha256 = kernel;
    firmware_sha256 = firmware;
  }

  -- The record, and the disk and the record in their places.
  unfoldable pub publish_disk :
      Fields → Provenance → Provenance → Text → Text → Action Files (Unit {0})
  publish_disk rootfs base seed disk inventory = do
    log ← hash_of (log_path p.disk)
    kernel ← hash_of p.kernel
    firmware ← hash_of p.firmware
    write_file p.disk disk
    write_file (record_path p.disk)
        (out.dumps (record_of rootfs base seed disk (splitlines inventory) log kernel firmware))

  unfoldable pub keep_log : Option Text → Action Files (Unit {0})
  keep_log none files = (files, ok tt)
  keep_log (some log) files = (insert (log_path p.disk) log files, ok tt)

  abbrev pub read_log : Action Files Text
  read_log files = elim (lookup (log_path p.disk) files) [
    | none ↦ (files, err (os_error (log_path p.disk)))
    | some log ↦ (files, ok (without_returns (out.decode_log log)))
  ]

  -- What the machine has left, by its log.
  unfoldable pub accept_disk :
      Fields → Provenance → Provenance → Text → Text → Action Files (Unit {0})
  accept_disk rootfs base seed disk text = do
    demand (is_provisioned text) (codes "guest provisioning failed; inspect " ++ log_path p.disk)
    lift (out.check_disk disk)
    inventory ← lift (out.inventory disk)
    demand (not (text_eq (strip inventory) [])) (codes "missing guest package inventory")
    publish_disk rootfs base seed disk inventory

  unfoldable pub examine_run :
      Fields → Provenance → Provenance → Provisioned → Action Files (Unit {0})
  examine_run rootfs base seed run = do
    keep_log run.log
    disk ← lift run.disk
    text ← read_log
    accept_disk rootfs base seed disk text

  unfoldable pub provision_disk :
      Fields → Text × Provenance → Text × Provenance → Action Files (Unit {0})
  provision_disk rootfs base seed =
      examine_run rootfs base.1 seed.1
        (out.provision rootfs (provision_script rootfs) base.0 seed.0)

  -- `cfg['rootfs']['image']`, which `load_config` found to be a text.
  abbrev pub image_of : Fields → Result Text
  image_of rootfs = elim (get (codes "image") rootfs) [ none ↦ ok [] | some v ↦ text_of v ]

  unfoldable pub create_from : Fields → Text → Action Files (Unit {0})
  create_from rootfs image = do
    base ← lift (out.fetch image)
    seed ← fetch_seed image base
    provision_disk rootfs base seed

  unfoldable pub create : Fields → Action Files (Unit {0})
  create rootfs = do
    check_tools tools
    check_built
    image ← lift (image_of rootfs)
    create_from rootfs image

  -- What is done, by whether the disk is there.
  unfoldable pub decide : Fields → Option Text → Action Files (Unit {0})
  decide rootfs none = create rootfs
  decide rootfs (some disk) = existing (record_path p.disk) >>= reuse_disk disk

  unfoldable pub on_disk : Fields → Action Files (Unit {0})
  on_disk rootfs = existing p.disk >>= decide rootfs

  unfoldable pub build : Action Files (Unit {0})
  build = lift (load_config s.cfg) >>= on_disk
