-- ===== src/Distro/Audit.antt =====
-- `audit` of scripts/distro_runtime.py, on the files of an extracted package.
use linux_build.Base.{
  ℕ, Bool, true, false, ◌&&◌, List, [], ◌∷◌, ◌++◌, Option, none, some, ◌==◌, ℤ, pos, Text, codes,
  text_eq, text_in, starts_with, splitlines, Result, ok, err, value_error, ◌>>=◌, ◌>>◌, require,
}
use linux_build.Base.Dict.{Dict}
use linux_build.Base.Bytes.{Bytes, unpack}
use Prim.Native.Nat.{bit_and}
use linux_build.Gate.Packages.{at_key, eq_ℤ}

-- `m`: of the manifest of a package, what the audit and the tests read.
pub record DistroManifest : Type 0 where
  pub preset : Text
  pub variant : Text
  pub bits : ℤ
  pub kernel_version : Text
  pub kernel_hz : ℤ
  pub memory_mib : ℤ
  pub abi : Text
  pub opensbi_isa : Text
  pub build_inputs : Dict Text
  pub files : Dict Text

-- `r`: the record of the disk, by the keys that are read.
pub record DiskOrigin : Type 0 where
  pub rootfs_sha256 : Text
  pub kernel_sha256 : Text
  pub firmware_sha256 : Text
  pub build_log_sha256 : Text
  pub builder : Text
  pub packages : List Text

-- `m['tested_user_elf']`
pub record TestedElf : Type 0 where
  pub path : Text
  pub flags : ℕ

abbrev pub audited_lines : List Text
audited_lines =
    codes "CONFIG_HZ=100"
    ∷ codes "CONFIG_HZ_100=y"
    ∷ codes "CONFIG_MMU=y"
    ∷ codes "CONFIG_FPU=y"
    ∷ codes "CONFIG_RISCV_ISA_C=y"
    ∷ codes "CONFIG_EXT4_FS=y"
    ∷ codes "CONFIG_VIRTIO_BLK=y"
    ∷ codes "CONFIG_VIRTIO_NET=y"
    ∷ codes "CONFIG_DEVTMPFS_MOUNT=y"
    ∷ codes "CONFIG_INITRAMFS_SOURCE=\"\""
    ∷ []

unfoldable pub has_lines : List Text → List Text → Result (Unit {0})
has_lines [] config = ok tt
has_lines (line ∷ lines) config = do
  require (text_in line config) (value_error (codes "missing distro kernel setting: " ++ line))
  has_lines lines config

abbrev mismatch : Text → Text
mismatch key = codes "rootfs provenance mismatch: " ++ key

-- One comparison of the record with the hashes of the files.
unfoldable pub same_hash : Text → Text → Text → Dict Text → Result (Unit {0})
same_hash key hash member files = do
  found ← at_key member files
  require (text_eq hash found) (value_error (mismatch key))

unfoldable pub audit_origin : DiskOrigin → Dict Text → Result (Unit {0})
audit_origin r files = do
  same_hash (codes "rootfs_sha256") r.rootfs_sha256 (codes "rootfs.ext4") files
  same_hash (codes "kernel_sha256") r.kernel_sha256 (codes "Image") files
  same_hash (codes "firmware_sha256") r.firmware_sha256 (codes "fw_dynamic.bin") files
  same_hash (codes "build_log_sha256") r.build_log_sha256 (codes "rootfs-build.log") files

abbrev pub some_packages : List Text → Bool
some_packages [] = false
some_packages (p ∷ ps) = true

-- The checks of the configuration, the machine and the origin.
unfoldable pub audit_record : Text → DistroManifest → DiskOrigin → Result (Unit {0})
audit_record config m r = do
  has_lines audited_lines (splitlines config)
  require (eq_ℤ m.bits (pos 64) && text_eq m.abi (codes "lp64d") && eq_ℤ m.memory_mib (pos 1024))
      (value_error (codes "distro requires RV64GC/lp64d and 1 GiB"))
  audit_origin r m.files
  require (text_eq r.builder (codes "qemu-system-riscv64") && some_packages r.packages)
      (value_error (codes "missing native provisioning evidence"))

abbrev magic : Bytes
magic = 0x7f ∷ b'E' ∷ b'L' ∷ b'F' ∷ 2 ∷ []

-- The checks of BusyBox, which is at the path; the machine is read only in a file with the magic.
unfoldable pub check_busybox : Text → Bytes → Result TestedElf
check_busybox path body = do
  machine ← elim (starts_with body magic) [ true ↦ unpack 2 body 18 | false ↦ ok 0 ]
  require (starts_with body magic && machine == 243)
      (value_error (codes "distro BusyBox is not an RV64 ELF"))
  flags ← unpack 4 body 48
  require (bit_and flags 6 == 4) (value_error (codes "distro BusyBox is not lp64d"))
  ok (record { path = path; flags = flags })

-- The first of the paths that the disk has.
unfoldable pub find_busybox : (Text → Option Bytes) → List Text → Result TestedElf
find_busybox dump [] = err (value_error (codes "cannot inspect distro BusyBox ELF"))
find_busybox dump (path ∷ paths) = elim (dump path) [
  | none ↦ find_busybox dump paths
  | some body ↦ check_busybox path body
]

-- `dump` is what `debugfs` finds on the disk.
unfoldable pub audit_disk :
    Text → DistroManifest → DiskOrigin → (Text → Option Bytes) → Result TestedElf
audit_disk config m r dump = do
  audit_record config m r
  find_busybox dump (codes "/bin/busybox" ∷ codes "/usr/bin/busybox" ∷ [])
