-- ===== src/Package/Readme.antt =====
-- `readme` of scripts/package-artifacts.py, and the record of a package.
use linux_build.Base.{ℕ, Bool, List, [], ◌∷◌, ◌++◌, Text, codes, newline, text_eq, if◌then◌else◌, ℤ}
use linux_build.Base.Dict.{Dict}
use linux_build.Toml.{int_text}

-- `m`, without `files`, which are added at the end.
pub record Manifest : Type 0 where
  pub preset : Text
  pub variant : Text
  pub bits : ℤ
  pub kernel_version : Text
  pub kernel_hz : ℤ
  pub memory_mib : ℤ
  pub kernel_address : Text
  pub kernel_memory_end : Text
  pub kernel_memory_size : ℕ
  pub payload_kernel_offset : ℕ
  pub fdt_offset : ℤ
  pub fdt_address : Text
  pub opensbi_isa : Text
  pub abi : Text
  pub build_inputs : Dict Text
  pub source_commit : Text
  pub opensbi_commit : Text
  pub created : ℕ

-- Lines, each with its newline.
unfoldable pub text_of_lines : List Text → Text
text_of_lines [] = []
text_of_lines (line ∷ lines) = line ++ (newline ∷ text_of_lines lines)

abbrev runtime_lines : List Text
runtime_lines =
    codes "## Buildroot runtime"
    ∷ []
    ∷ codes "Normal `/init` performs the complete initialization and service startup."
    ∷ codes "For a fast shell with working `/proc/cpuinfo`, `/sys`, `/dev` and `/dev/pts`,"
    ∷ codes "use `rdinit=/sbin/raptor-shell` instead of `rdinit=/init` in the split command"
    ∷ codes "above (or in board DTB bootargs); add `ip=dhcp` for kernel DHCP in this"
    ∷ codes "service-free mode. This mounts runtime filesystems and starts"
    ∷ codes "ash without services. Direct `rdinit=/bin/sh` skips those mounts."
    ∷ []
    ∷ codes "The package enables BusyBox networking including `nc`, plus tinysh-compatible"
    ∷ codes "`fetch IPv4 PORT /PATH FILE` and `run PATH [ARGS...]` helpers. BusyBox utilities"
    ∷ codes "use their usual syntax, e.g. `mount -t TYPE SOURCE TARGET`, `ping -c 3 IPv4`"
    ∷ codes "and `nc -l -p PORT`. A bare shell can run `/sbin/raptor-mounts` to mount the"
    ∷ codes "runtime filesystems. Buildroot also provides normal shell scripting and"
    ∷ codes "process/storage tools. Full init and the initialized fast shell are validated"
    ∷ codes "separately by the release tests."
    ∷ []
    ∷ []

abbrev head_lines : Manifest → Bool → Text → List Text
head_lines m fpu isa =
    (codes "# Linux "
      ++ (m.kernel_version ++ (codes " — " ++ (m.preset ++ (codes " / " ++ m.variant)))))
    ∷ []
    ∷ codes "| Field | Value |"
    ∷ codes "| --- | --- |"
    ∷ (codes "| Config | `" ++ (m.preset ++ (codes "` |")))
    ∷ (codes "| Kernel ISA | `"
        ++ (isa ++ (codes "` baseline; optional extensions follow the supplied DTB |")))
    ∷ (codes "| OpenSBI ISA | `" ++ (m.opensbi_isa ++ (codes "` |")))
    ∷ (codes "| ABI | `" ++ (m.abi ++ (codes "` |")))
    ∷ (codes "| Variant | " ++ (m.variant ++ (codes " |")))
    ∷ (codes "| Kernel HZ | " ++ (int_text m.kernel_hz ++ (codes " |")))
    ∷ (codes "| QEMU RAM | " ++ (int_text m.memory_mib ++ (codes " MiB |")))
    ∷ (codes "| Kernel load address | `" ++ (m.kernel_address ++ (codes "` |")))
    ∷ (codes "| DTB relocation address | `" ++ (m.fdt_address ++ (codes "` |")))
    ∷ []
    ∷ codes "The complete configuration is in `kernel.config`; `manifest.json` records"
    ∷ codes "file hashes, input versions and the firmware layout. Buildroot uses hard-float"
    ∷ codes "userspace and requires both F/D hardware and a DTB that advertises them."
    ∷ codes "The tiny shell is a freestanding soft-float `/init`."
    ∷ []
    ∷ codes "## Files"
    ∷ []
    ∷ codes "- `Image`, `vmlinux`: kernel binary and ELF."
    ∷ codes "- `fw_payload.bin`, `fw_payload.elf`: OpenSBI with this exact Image embedded."
    ∷ codes "- `fw_dynamic.bin`: OpenSBI for a separate Image/initramfs handoff."
    ∷ codes "- `initramfs.cpio.gz`: this variant's root filesystem."
    ∷ codes "- `kernel.config`, `preset.toml`, `manifest.json`: build configuration and provenance."
    ∷ []
    ∷ codes "## QEMU"
    ∷ []
    ∷ codes "Complete payload (the embedded root filesystem starts `/init`):"
    ∷ []
    ∷ codes "```sh"
    ∷ (codes "qemu-system-riscv"
        ++ (int_text m.bits
            ++ (codes " -M virt -m " ++ (int_text m.memory_mib ++ (codes "M -nographic \\")))))
    ∷ (codes "  -cpu rv" ++ (int_text m.bits ++ (codes ",h=false,sstc=false,svadu=false \\")))
    ∷ codes "  -bios fw_payload.bin -netdev user,id=net0 \\"
    ∷ codes "  -device virtio-net-device,netdev=net0"
    ∷ codes "```"
    ∷ []
    ∷ codes "Separate Image and root filesystem:"
    ∷ []
    ∷ codes "```sh"
    ∷ (codes "qemu-system-riscv"
        ++ (int_text m.bits
            ++ (codes " -M virt -m " ++ (int_text m.memory_mib ++ (codes "M -nographic \\")))))
    ∷ (codes "  -cpu rv" ++ (int_text m.bits ++ (codes ",h=false,sstc=false,svadu=false \\")))
    ∷ codes "  -bios fw_dynamic.bin -kernel Image -initrd initramfs.cpio.gz \\"
    ∷ (codes "  -append 'root=/dev/ram rdinit=/init console=ttyS0 earlycon=sbi"
        ++ ((if fpu then [] else codes " ip=dhcp") ++ (codes "' \\")))
    ∷ codes "  -netdev user,id=net0 -device virtio-net-device,netdev=net0"
    ∷ codes "```"
    ∷ []
    ∷ []

abbrev fpga_lines : List Text
fpga_lines =
    codes "## Raptor FPGA integration"
    ∷ []
    ∷ codes "HZ=100 targets the current 50 MHz Raptor workload. Supply the board-generated"
    ∷ codes "LiteX DTB and stage0 with matching XLEN, ISA, RAM, MMIO and actual timebase."
    ∷ codes "`timebase-frequency` describes the hardware timer, not HZ. The payload's DTB"
    ∷ codes "relocation must remain outside the kernel's memory extent. These files do not"
    ∷ codes "contain a board-specific stage0 or an SD-card filesystem image."
    ∷ []
    ∷ codes "QEMU results are recorded by the release validation and do not establish FPGA"
    ∷ codes "or peripheral acceptance. Use the matching board bitstream; in particular,"
    ∷ codes "RV64 Buildroot requires F/D to be advertised in the board DTB as well as"
    ∷ codes "implemented in the core. Exit QEMU with Ctrl-A X."
    ∷ []

unfoldable pub readme : Manifest → Text
readme m =
    let fpu = text_eq m.variant (codes "buildroot") in
    let isa =
      if fpu
      then codes "rv" ++ (int_text m.bits ++ codes "imafdc")
      else codes "rv" ++ (int_text m.bits ++ codes "imac") in
    text_of_lines (head_lines m fpu isa ++ ((if fpu then runtime_lines else []) ++ fpga_lines))
