-- ===== src/Config/Buildroot.antt =====
-- `pkg_symbol` and `gen_buildroot_config` of scripts/gen-config.py.
pub mod Order
use linux_build.Base.{
  ℕ, Bool, true, false, not, ◌&&◌, ◌||◌, List, [], ◌∷◌, ◌++◌, map, Option, none, some, Text, codes,
  text_eq, text_le, upper, replace_char, if◌then◌else◌, Result, ok, err, bad_value, ◌>>=◌, ◌>>◌,
  require,
}
use linux_build.Base.Dict.{Dict, lookup}
use linux_build.Toml.{Value, nil, null, str, arr, truthy, to_text, is_text, hashable, texts_of}
use linux_build.Config.Lookup.{deep_get}
use linux_build.Config.Kernel.{finish_lines}

-- `BUILDROOT_PKG_MAP`
abbrev pub buildroot_pkg_map : Dict Text
buildroot_pkg_map =
    (codes "openssh", codes "BR2_PACKAGE_OPENSSH")
    ∷ (codes "wget", codes "BR2_PACKAGE_WGET")
    ∷ (codes "strace", codes "BR2_PACKAGE_STRACE")
    ∷ (codes "htop", codes "BR2_PACKAGE_HTOP")
    ∷ (codes "lsof", codes "BR2_PACKAGE_LSOF")
    ∷ (codes "file", codes "BR2_PACKAGE_FILE")
    ∷ (codes "tree", codes "BR2_PACKAGE_TREE")
    ∷ (codes "python3", codes "BR2_PACKAGE_PYTHON3")
    ∷ (codes "curl", codes "BR2_PACKAGE_CURL")
    ∷ (codes "git", codes "BR2_PACKAGE_GIT")
    ∷ (codes "bash", codes "BR2_PACKAGE_BASH")
    ∷ (codes "tmux", codes "BR2_PACKAGE_TMUX")
    ∷ (codes "vim", codes "BR2_PACKAGE_VIM")
    ∷ (codes "nano", codes "BR2_PACKAGE_NANO")
    ∷ (codes "rsync", codes "BR2_PACKAGE_RSYNC")
    ∷ (codes "iproute2", codes "BR2_PACKAGE_IPROUTE2")
    ∷ []

-- `BUILDROOT_SHELL_MAP`
abbrev pub buildroot_shell_map : Dict Text
buildroot_shell_map =
    (codes "bash", codes "BR2_SYSTEM_BIN_SH_BASH")
    ∷ (codes "dash", codes "BR2_SYSTEM_BIN_SH_DASH")
    ∷ (codes "zsh", codes "BR2_SYSTEM_BIN_SH_ZSH")
    ∷ (codes "busybox", codes "BR2_SYSTEM_BIN_SH_BUSYBOX_ASH")
    ∷ []

unfoldable pub pkg_symbol : Text → Text
pkg_symbol name = elim (lookup name buildroot_pkg_map) [
  | some symbol ↦ symbol
  | none ↦ codes "BR2_PACKAGE_" ++ replace_char b'-' b'_' (upper name)
]

-- `sorted(ts)`
unfoldable pub insert_sorted : Text → List Text → List Text
insert_sorted t [] = t ∷ []
insert_sorted t (u ∷ us) = if text_le t u then t ∷ u ∷ us else u ∷ insert_sorted t us

unfoldable pub sorted : List Text → List Text
unfolding insert_sorted
sorted [] = []
sorted (t ∷ ts) = insert_sorted t (sorted ts)

abbrev pub output_heading : List Text
output_heading =
    codes "# Auto-generated Buildroot config fragment — DO NOT EDIT"
    ∷ codes "# Source: system.toml  ->  applied on top of qemu_riscv*_virt_defconfig"
    ∷ []
    ∷ codes "# All supported RV32/RV64 targets implement compressed instructions."
    ∷ codes "BR2_RISCV_ISA_RVC=y"
    ∷ []
    ∷ codes "# linux-build supplies the kernel, firmware and host emulator."
    ∷ codes "# BR2_LINUX_KERNEL is not set"
    ∷ codes "# BR2_PACKAGE_HOST_QEMU is not set"
    ∷ []
    ∷ codes "# --- Output format ---"
    ∷ codes "BR2_TARGET_ROOTFS_CPIO=y"
    ∷ []

abbrev pub ext2_lines : List Text
ext2_lines =
    codes "# Disable ext2 image (only need cpio)"
    ∷ codes "# BR2_TARGET_ROOTFS_EXT2 is not set"
    ∷ []
    ∷ []

-- The capability baseline, whose files lie under the repository `root`.
unfoldable pub baseline_lines : Text → List Text
baseline_lines root =
    codes "# --- Raptor runtime baseline ---"
    ∷ codes "BR2_PACKAGE_BUSYBOX=y"
    ∷ (codes "BR2_PACKAGE_BUSYBOX_CONFIG_FRAGMENT_FILES=\""
        ++ (root ++ codes "/rootfs/busybox.fragment\""))
    ∷ (codes "BR2_ROOTFS_OVERLAY=\"" ++ (root ++ codes "/rootfs/overlay\""))
    ∷ []
    ∷ []

shell_block : Value → Option Text → List Text
shell_block shell none = []
shell_block shell (some symbol) =
    codes "# --- Shell ---"
    ∷ (symbol ++ codes "=y")
    ∷ ((if is_text shell (codes "bash") then codes "BR2_PACKAGE_BASH=y" ∷ [] else []) ++ ([] ∷ []))

-- `shell in BUILDROOT_SHELL_MAP`, with the symbol found.
shell_symbol : Value → Option Text
shell_symbol (str s) = lookup s buildroot_shell_map
shell_symbol _ = none

unfoldable pub shell_lines : Value → Result (List Text)
unfolding shell_block shell_symbol
shell_lines shell = elim (truthy shell) [
  | false ↦ ok []
  | true ↦ do require (hashable shell) bad_value; ok (shell_block shell (shell_symbol shell))
]

unfoldable pub package_lines : Value → Result (List Text)
package_lines packages = elim (truthy packages) [
  | false ↦ ok []
  | true ↦ do
    names ← texts_of packages
    ok (
        codes "# --- Packages ---"
        ∷ (map (λ name. pkg_symbol name ++ codes "=y") (sorted names) ++ ([] ∷ [])))
]

unfoldable pub password_lines : Value → List Text
password_lines root_pw =
    if truthy root_pw
    then codes "# --- System ---"
      ∷ (codes "BR2_TARGET_GENERIC_ROOT_PASSWD=\"" ++ (to_text root_pw ++ codes "\""))
      ∷ []
      ∷ []
    else []

abbrev pub packages_key : Text → List Text
packages_key name = codes "buildroot" ∷ codes "packages" ∷ name ∷ []

module _ (root : Text) where
  unfoldable pub buildroot_lines : Value → Result (List Text)
  buildroot_lines cfg = do
    let compress = deep_get cfg (codes "rootfs" ∷ codes "compression" ∷ []) (str (codes "gzip"))
    let packages = deep_get cfg (packages_key (codes "include")) (arr nil)
    let shell = deep_get cfg (packages_key (codes "shell")) null
    let root_pw = deep_get cfg (packages_key (codes "root_password")) null
    let format =
        if is_text compress (codes "zstd")
        then codes "BR2_TARGET_ROOTFS_CPIO_ZSTD=y"
        else codes "BR2_TARGET_ROOTFS_CPIO_GZIP=y"
    shells ← shell_lines shell
    listed ← package_lines packages
    ok (
        output_heading
        ++ (format
            ∷ (ext2_lines
                ++ (baseline_lines root ++ (shells ++ (listed ++ password_lines root_pw))))))

  unfoldable pub gen_buildroot_config : Value → Result Text
  gen_buildroot_config cfg = do lines ← buildroot_lines cfg; ok (finish_lines lines)
