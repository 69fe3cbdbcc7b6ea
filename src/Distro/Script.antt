-- ===== src/Distro/Script.antt =====
-- `main` of scripts/package-distro.py. The contents of the files that it reads are given, with SHA-256,
-- JSON, UTF-8 and the archive writer; the copy of the disk keeps its holes, which is no part of its contents.
pub mod Accepted
use linux_build.Base.{
  ℕ, Bool, true, false, not, ◌&&◌, ◌||◌, List, [], ◌∷◌, ◌++◌, Option, none, some, ℤ, pos, Text,
  codes, text_eq, text_in, strip, splitlines, Result, ok, err, exited, ◌>>=◌, ◌>>◌, require,
}
use linux_build.Base.Dict.{Dict}
use linux_build.Base.Bytes.{Bytes}
use linux_build.Toml.{Value, Fields, table, is_text}
use linux_build.Release.Matrix.{Preset, distros, subscript, text_of, arch_of, package_name}
use linux_build.Package.Readme.{text_of_lines}
use linux_build.Package.Checks.{int_of}
use linux_build.Package.Publish.{Folder, hashes, optional, publish}
use linux_build.Distro.Audit.{DistroManifest, DiskOrigin}

-- The preset with its contents, and the contents of the files that are read.
pub record Inputs : Type 0 where
  pub preset : Preset
  pub preset_toml : Bytes
  pub disk : Bytes
  pub disk_record : Bytes
  pub build_log : Bytes
  pub image : Bytes
  pub vmlinux : Bytes
  pub config : Bytes
  pub kernel_release : Text
  pub firmware : Bytes
  pub source_record : Option Bytes
  pub build_inputs : Dict Text

pub record Writers : Type 0 where
  pub sha : Bytes → Text
  pub encode : Text → Bytes
  pub decode : Bytes → Text
  pub read_origin : Bytes → Result DiskOrigin
  pub dumps : DistroManifest → Text
  pub tar : Text → Dict Bytes → Bytes

-- `required`
abbrev pub required_settings : List Text
required_settings =
    codes "CONFIG_FPU=y"
    ∷ codes "CONFIG_RISCV_ISA_C=y"
    ∷ codes "CONFIG_MMU=y"
    ∷ codes "CONFIG_HZ=100"
    ∷ codes "CONFIG_EXT4_FS=y"
    ∷ codes "CONFIG_VIRTIO_BLK=y"
    ∷ codes "CONFIG_VIRTIO_NET=y"
    ∷ codes "CONFIG_DEVTMPFS_MOUNT=y"
    ∷ codes "CONFIG_INITRAMFS_SOURCE=\"\""
    ∷ []

unfoldable pub all_lines : List Text → List Text → Bool
all_lines [] config = true
all_lines (line ∷ lines) config = text_in line config && all_lines lines config

-- `launch`
abbrev launch_lines : List Text
launch_lines =
    codes "#!/bin/sh"
    ∷ codes "set -eu"
    ∷ codes "cd \"$(dirname \"$0\")\""
    ∷ codes "exec qemu-system-riscv64 -M virt -cpu rv64,h=false,sstc=false,svadu=false \\"
    ∷ codes "  -m 1024M -nographic -bios fw_dynamic.bin -kernel Image \\"
    ∷ codes "  -drive file=rootfs.ext4,format=raw,if=none,id=rootfs \\"
    ∷ codes "  -device virtio-blk-device,drive=rootfs \\"
    ∷ codes "  -netdev user,id=net0,hostfwd=tcp:127.0.0.1:${SSH_PORT:-2222}-:22 \\"
    ∷ codes "  -device virtio-net-device,netdev=net0 \\"
    ∷ codes
        "  -append 'root=/dev/vda rootfstype=ext4 rw rootwait init=/sbin/raptor-init console=ttyS0 earlycon=sbi'"
    ∷ []

abbrev readme_lines : Text → Text → Text → List Text
readme_lines preset version variant =
    (codes "# " ++ (preset ++ (codes " / Linux " ++ version)))
    ∷ []
    ∷ (codes "RV64GC/lp64d "
        ++ (variant ++ codes " userspace with its upstream package repositories."))
    ∷ codes "Run `./run-qemu.sh` (1 GiB RAM), press Enter for the serial root shell."
    ∷ codes "The serial root shell is for bring-up and has no login authentication."
    ∷ codes "SSH listens through localhost:2222 with password authentication disabled."
    ∷ codes "Provision an account and authorized key over the serial console before SSH use."
    ∷ []
    ∷ codes "The raw ext4 disk is persistent: extract a fresh copy for a clean system."
    ∷ codes "Do not run two VMs on the same writable disk. Use `/bin/busybox poweroff` before"
    ∷ codes "copying it. BusyBox init handles boot/reaping; services requiring systemd or"
    ∷ codes "OpenRC need explicit integration. This is a QEMU disk release, not an embedded"
    ∷ codes "firmware payload or a validated FPGA SD-card layout."
    ∷ []
    ∷ codes "`manifest.json` hashes every supplied file; `rootfs-manifest.json` records the"
    ∷ codes "clean disk, OCI build identity and installed package set. Test results and"
    ∷ codes "archive SHA256 values are supplied alongside the release."
    ∷ []

unfoldable pub launch : Text
launch = text_of_lines launch_lines

unfoldable pub readme_text : Text → Text → Text → Text
readme_text preset version variant = text_of_lines (readme_lines preset version variant)

-- What the checks find.
pub record CheckedDisk : Type 0 where
  pub name : Text
  pub variant : Text
  pub version : Text
  pub memory : ℤ

module _ (w : Writers) where
  -- The disk and its record are as they were built.
  unfoldable pub check_origin : Inputs → DiskOrigin → Result (Unit {0})
  check_origin i r = do
    require (text_eq (w.sha i.disk) r.rootfs_sha256)
        (exited (codes "release disk was modified since construction"))
    require
        (text_eq (w.sha i.image) r.kernel_sha256
          && text_eq (w.sha i.firmware) r.firmware_sha256
          && text_eq (w.sha i.build_log) r.build_log_sha256)
        (exited
          (codes "kernel, firmware or provisioning log changed since clean disk construction"))

  -- `cfg['boot']['memory']`, where a number is needed.
  unfoldable pub memory_of_boot : Fields → Result ℤ
  memory_of_boot cfg = do
    boot ← subscript (table cfg) (codes "boot")
    memory ← subscript boot (codes "memory")
    int_of memory

  unfoldable pub check_kernel : Inputs → Result Text
  check_kernel i = do
    require (all_lines required_settings (splitlines (w.decode i.config)))
        (exited (codes "kernel lacks required distribution disk configuration"))
    kernel ← subscript (table i.preset.cfg) (codes "kernel")
    version ← subscript kernel (codes "version")
    require (is_text version (strip i.kernel_release)) (
        exited
          (codes "kernel version " ++ (strip i.kernel_release ++ codes " differs from preset")))
    ok (strip i.kernel_release)

  unfoldable pub check_release : Inputs → Result CheckedDisk
  check_release i = do
    fs ← subscript (table i.preset.cfg) (codes "rootfs")
    kind ← subscript fs (codes "type")
    arch ← arch_of i.preset.cfg
    require (text_eq arch (codes "riscv64")) (exited (codes "unsupported distribution target"))
    variant ← text_of kind
    require (text_in variant distros) (exited (codes "unsupported distribution target"))
    name ← package_name i.preset variant
    r ← w.read_origin i.disk_record
    check_origin i r
    version ← check_kernel i
    memory ← memory_of_boot i.preset.cfg
    ok (record { name = name; variant = variant; version = version; memory = memory })

  -- The files of `stage`, before the manifest is written.
  unfoldable pub staged_disk : Inputs → CheckedDisk → Dict Bytes
  staged_disk i c =
      (codes "rootfs.ext4", i.disk)
      ∷ (codes "rootfs-manifest.json", i.disk_record)
      ∷ (codes "rootfs-build.log", i.build_log)
      ∷ (codes "Image", i.image)
      ∷ (codes "vmlinux", i.vmlinux)
      ∷ (codes "kernel.config", i.config)
      ∷ (codes "fw_dynamic.bin", i.firmware)
      ∷ (codes "preset.toml", i.preset_toml)
      ∷ (optional (codes "kernel-source.json") i.source_record
          ++ ((codes "run-qemu.sh", w.encode launch)
              ∷ (codes "README.md", w.encode (readme_text i.preset.stem c.version c.variant))
              ∷ []))

  -- `m`; the times and the commits, which nothing reads, are left out.
  unfoldable pub distro_manifest_of : Inputs → CheckedDisk → DistroManifest
  distro_manifest_of i c = record {
    preset = i.preset.stem;
    variant = c.variant;
    bits = pos 64;
    kernel_version = c.version;
    kernel_hz = pos 100;
    memory_mib = c.memory;
    abi = codes "lp64d";
    opensbi_isa = codes "rv64imafdc_zicntr_zicsr_zifencei";
    build_inputs = i.build_inputs;
    files = hashes w.sha (staged_disk i c);
  }

  unfoldable pub distro_files : Inputs → CheckedDisk → Dict Bytes
  distro_files i c =
      staged_disk i c ++ ((codes "manifest.json", w.encode (w.dumps (distro_manifest_of i c))) ∷ [])

  unfoldable pub main : Inputs → ℕ → Folder → Result Folder
  main i time_ns folder = do
    c ← check_release i
    let files = distro_files i c
    ok (publish c.name time_ns files (w.tar c.name files) folder)
