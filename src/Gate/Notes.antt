-- ===== src/Gate/Notes.antt =====
-- The release notes that scripts/check-release.py writes.
use linux_build.Base.{ℕ, List, [], ◌∷◌, ◌++◌, Text, codes, decimal, Result, ok, ◌>>=◌}
use linux_build.Base.Dict.{Dict}
use linux_build.Toml.{int_text}
use linux_build.Release.Matrix.{version_of}
use linux_build.Package.Readme.{text_of_lines}
use linux_build.Gate.Records.{Expected}

-- `table`, a row for each package, with a newline between them.
table_row : Expected → Result Text
table_row e = do
  version ← version_of e.preset.cfg
  ok (
      codes "| "
      ++ (e.preset.stem
          ++ (codes " | RV"
              ++ (int_text e.bits
                  ++ (codes " | " ++ (e.variant ++ (codes " | " ++ (version ++ codes " |"))))))))

unfoldable pub table_rows : Dict Expected → Result (List Text)
unfolding table_row
table_rows [] = ok []
table_rows ((name, e) ∷ expected) = do
  row ← table_row e
  rows ← table_rows expected
  ok (row ∷ rows)

abbrev head_lines : ℕ → List Text
head_lines count =
    codes "# Raptor-compatible RISC-V Linux candidate"
    ∷ []
    ∷ (decimal count
        ++ codes
            " packages validated in QEMU: tiny/Buildroot firmware packages plus RV64 Alpine and Debian persistent disk packages.")
    ∷ []
    ∷ (codes "All presets use HZ=100 and 1 GiB RAM. Tiny shell kernels use soft-float "
        ++ (codes "userspace; Buildroot kernels enable F/D for ilp32d/lp64d userspace. Alpine "
            ++ (codes
                "and Debian use RV64GC/lp64d userspace with official upstream repositories.")))
    ∷ []
    ∷ (codes "The build separates tiny and Buildroot kernel/firmware output, validates the "
        ++ (codes "embedded Image and DTB relocation at +63 MiB, and caches root filesystems by "
            ++ (codes "configuration. RV32 tiny shell uses time64 sleep/poll and waitid for child "
                ++ (codes "reaping."))))
    ∷ []
    ∷ (codes "Buildroot also provides an initialized fast shell at `/sbin/raptor-shell`, "
        ++ (codes "BusyBox nc, and tinysh-compatible fetch/run helpers. `/proc/cpuinfo`, sysfs, "
            ++ (codes "devtmpfs, devpts and command availability are tested in both full init and "
                ++ (codes
                      "fast shell modes. Direct `rdinit=/bin/sh` bypasses initialization and is not "
                    ++ (codes "a complete runtime environment.")))))
    ∷ []
    ∷ (codes "Validation includes archive hashes, kernel configuration, userspace ELF ABI, "
        ++ (codes "two boot paths per tiny package and three per Buildroot package, tiny "
            ++ (codes "filesystem/sleep, ping and downloaded ELF execution checks, and 100 child "
                ++ (codes
                      "processes plus a 90-second sleep for each Buildroot payload. Both distro "
                    ++ (codes
                          "packages are built cleanly inside full-system RV64 QEMU without host binfmt "
                        ++ (codes
                              "registrations. Their extracted test copies pass DNS/HTTPS, upstream jq "
                            ++ (codes
                                  "installation/execution, key-based SSH, actual reboot and file/package/SSH-key "
                                ++ (codes
                                      "persistence. See test-results.json and test-logs for the exact results. "
                                    ++ (codes "SHA256SUMS identifies the tested archives.")))))))))
    ∷ []
    ∷ codes "| Preset | Architecture | Variant | Linux |"
    ∷ codes "| --- | --- | --- | --- |"
    ∷ []

abbrev tail_lines : List Text
tail_lines =
    []
    ∷ (codes "These are QEMU-tested firmware/kernel/rootfs packages. FPGA acceptance has "
        ++ (codes "not been performed on this candidate. Board use requires the matching Raptor "
            ++ (codes "bitstream, stage0 and LiteX DTB with accurate XLEN, ISA (including F/D for "
                ++ (codes
                      "Buildroot and distros), RAM, peripherals and timer frequency. Distro packages "
                    ++ (codes
                          "use a standalone kernel plus raw ext4 virtio disk, not a board SD-card layout "
                        ++ (codes
                              "or embedded payload. No board stage0 is included. Their unauthenticated "
                            ++ (codes
                                  "serial root shell is for bring-up; SSH passwords are disabled. Service "
                                ++ (codes
                                    "packages requiring OpenRC/systemd need explicit integration with BusyBox init."))))))))
    ∷ []

-- `notes`, for a number of packages.
unfoldable pub notes : ℕ → List Text → Text
notes count rows = text_of_lines (head_lines count ++ (rows ++ tail_lines))
