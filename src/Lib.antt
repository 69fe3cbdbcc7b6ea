-- ===== src/Lib.antt =====
-- linux-build: configuration, packaging and release scripts for RISC-V Linux systems under QEMU.
--
-- A preset (configs/*.toml) describes a system. scripts/gen-config.py turns it into the fragments
-- that the Makefile, the kernel and Buildroot are configured with. scripts/ensure-rootfs.py
-- keeps built root filesystems, scripts/prepare-opensbi.py prepares the firmware for a kernel,
-- scripts/package-artifacts.py reads kernel configurations back and packs kernel, firmware and root
-- filesystem, and scripts/test-packages.py audits each package. scripts/build-release.py builds the
-- packages of all presets, whose names scripts/release_common.py gives, and scripts/check-release.py
-- accepts them for a release when they are complete, tested and unchanged.
-- scripts/build-distro.py provisions disks with an upstream distribution, scripts/package-distro.py
-- packs them, and scripts/distro_runtime.py audits them.
--
-- Base: results and faults, texts as lists of code points, `str.splitlines`, dictionaries as
--   association lists, byte strings with Python's slices, hexadecimal numbers, UTF-8.
-- Toml: the values that `tomllib` gives, with `str`, `repr`, truth and iteration.
-- Config: scripts/gen-config.py. Lookup is `deep_get`, with Places for a preset with another value
--   at one place; Kernel `kconfig_line`, `gen_kernel_config` and `gen_variant_kernel_config`; Make
--   `ARCH_MAP` and `gen_make_config`, with Reading for what `make` reads from that text, as long as
--   it has nothing to expand and no line to join;
--   Buildroot `pkg_symbol` and `gen_buildroot_config`; Script `print_summary` and `main`, which pass
--   the output directory on as a dictionary of texts, and keep what was written before an error.
-- Package: scripts/package-artifacts.py. Settings is `config_values`, Readme `readme`; of `main`,
--   Checks is its tests on kernel, firmware and preset, and Publish its manifest, the files of the
--   package and the folder that takes it; Script composes them.
-- Firmware: scripts/prepare-opensbi.py. Equal is Python's `==` on JSON values; Prepare is `main`.
-- Rootfs: scripts/ensure-rootfs.py. Cache is its use of a root filesystem built before; Reuse its
--   decision whether a Buildroot tree is cleaned before it is built, on the files that it compares;
--   Record its identity, and what it caches after a build.
--   MD5 and SHA-256 are given.
-- PackageTest: scripts/test-packages.py. Audit is `extract_and_audit` up to the root filesystem,
--   Hashes its comparison of hashes and the check of where the kernel is from; Cpio is `user_elf`,
--   on the decompressed archive, whose loop is a recursion on fuel that returns `none` when the fuel
--   runs out; for an archive of n members n + 1 rounds are enough. Guest is the session with a
--   virtual machine, which is a given function of what it was sent; a wait takes as many rounds as
--   the clock is given to need, and always ends. Commands is what is sent, Boot is `boot`.
-- Release: Matrix is `variants`, `package_name` and `matrix` of scripts/release_common.py; Order,
--   Status and Build are scripts/build-release.py, whose `main` is a sequence of actions on the files
--   that keep what was done when one of them fails. The commands that it runs, the clock, SHA-256 and
--   JSON are given to it (Status.Outside). Its loops follow the lists of presets and variants.
--
-- Gate: scripts/check-release.py. Records is what it reads and writes, Boots and Packages are its
--   assertions on each boot and each package, Notes the release notes; Gate itself is `main`, on the
--   files by path. Times are whole microseconds. Json is a codec for the tests.
--
-- Distro: disks with an upstream distribution. Config, Image and Build are `load_config` and
--   `provision_script`, `fetch_image` and `build` of scripts/build-distro.py, on the files by path;
--   the downloads and the virtual machine are given, and the temporary folder is left out. Proxy is
--   its `guest_proxy`, with `proxy_export` of scripts/distro_runtime.py, on the environment. Script
--   is scripts/package-distro.py, Audit is `audit` of scripts/distro_runtime.py, Chain composes build,
--   package and audit. Json is a codec for the tests.
--
-- Texts are read with the universal newlines of `read_text` already applied. A float or a date of a
-- preset is kept as the text that Python prints for it. `str.upper` is that of ASCII.
-- The packaging scripts are given SHA-256, JSON, UTF-8 and the archive writer as functions, and the
-- contents of the files that they read; an archive is read as the list of its members.
-- Writes and removals of files are taken to succeed, but where a script asks for the file; folders
-- are not seen where a script lists the files of one.
-- Not modelled: scripts/prepare-linux.py; the sessions of scripts/distro_runtime.py with a disk; how
-- scripts/test-packages.py goes through the packages; scripts/test-distro.py, which holds tests;
-- argparse, the TOML and gzip decoders, the network, subprocesses and the virtual machine; the
-- payload programs in C; make and shell code, except for what `make` reads from the assignments of
-- `.config.mk`.
pub mod Base
pub mod Config
pub mod Distro
pub mod Firmware
pub mod Gate
pub mod Package
pub mod PackageTest
pub mod Release
pub mod Rootfs
pub mod Toml
