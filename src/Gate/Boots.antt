-- ===== src/Gate/Boots.antt =====
-- What scripts/check-release.py requires of the boots of a package.
pub mod Passed
use linux_build.Base.{
  ℕ, Bool, true, false, not, ◌&&◌, ◌||◌, List, [], ◌∷◌, ◌++◌, Option, none, some, leb, ◌==◌, length,
  Text, codes, text_eq, text_in, if◌then◌else◌, Result, ok, err, assertion, key_error, ◌>>=◌, ◌>>◌,
  require, any, map,
}
use linux_build.Base.Image.{find}
use linux_build.Package.Readme.{Manifest}
use linux_build.Release.Matrix.{distros}
use linux_build.Release.Status.{under, same_set}
use linux_build.Gate.Records.{Timed, Boot, Files, Outside, Options, read, all_set, all_given}

-- `CHECKS`
abbrev pub disk_checks : List Text
disk_checks =
    codes "memory_1g"
    ∷ codes "kernel_version"
    ∷ codes "runtime_mounts"
    ∷ codes "dns"
    ∷ codes "https"
    ∷ codes "package_install"
    ∷ codes "package_execution"
    ∷ codes "ssh_key_login"
    ∷ codes "clean_reboot"
    ∷ []

-- `PERSISTENCE`
abbrev pub persistence_checks : List Text
persistence_checks =
    codes "memory_1g"
    ∷ codes "kernel_version"
    ∷ codes "runtime_mounts"
    ∷ codes "new_boot_id"
    ∷ codes "file_persistence"
    ∷ codes "package_persistence"
    ∷ codes "ssh_key_persistence"
    ∷ codes "clean_reboot"
    ∷ []

abbrev pub required_capabilities : List Text
required_capabilities =
    codes "proc_cpuinfo"
    ∷ codes "sysfs"
    ∷ codes "devtmpfs"
    ∷ codes "devpts"
    ∷ codes "tinysh_command_baseline"
    ∷ codes "filesystem_operations"
    ∷ []

-- `modes`
unfoldable pub modes_of : Text → List Text
modes_of variant =
    if text_in variant distros
    then codes "disk" ∷ codes "persistence" ∷ []
    else if text_eq variant (codes "buildroot")
    then codes "split" ∷ codes "payload" ∷ codes "shell" ∷ []
    else codes "split" ∷ codes "payload" ∷ []

-- `required`
unfoldable pub checks_of : Text → List Text
checks_of mode = if text_eq mode (codes "disk") then disk_checks else persistence_checks

-- `part in text`
unfoldable pub contains : Text → Text → Bool
contains part text = elim (find part text) [ none ↦ false | some at_offset ↦ true ]

abbrev pub is_buildroot : Text → Bool
is_buildroot variant = text_eq variant (codes "buildroot")

abbrev pub is_tiny : Text → Bool
is_tiny variant = text_eq variant (codes "tiny_shell")

-- `b['mode'] in ('payload', 'shell')`
abbrev pub is_full : Text → Bool
is_full mode = text_eq mode (codes "payload") || text_eq mode (codes "shell")

abbrev pub is_slept : Timed → Bool
is_slept c = text_eq c.command (codes "sleep 2") && leb 1800000 c.wall

-- `b['child_processes'] == 100 and b['sleep_wall_seconds'] >= 89`
unfoldable pub endured : Boot → Result Bool
endured b = elim b.child_processes [
  | none ↦ err (key_error (codes "child_processes"))
  | some n ↦ elim (n == 100) [
    | false ↦ ok false
    | true ↦ elim b.sleep_wall [
      | none ↦ err (key_error (codes "sleep_wall_seconds"))
      | some slept ↦ ok (leb 89000000 slept)
    ]
  ]
]

unfoldable pub commands_of : Boot → Result (List Timed)
commands_of b = elim b.commands [ none ↦ err (key_error (codes "commands")) | some cs ↦ ok cs ]

-- `assert test, f'{name}: {what}'`
abbrev pub insist : Bool → Text → Text → Result (Unit {0})
insist test name what = require test (assertion (name ++ (codes ": " ++ what)))

-- The last assertions on a boot, which hold for some of the modes.
unfoldable pub check_baseline : Text → Text → Boot → Result (Unit {0})
check_baseline name variant b = elim (is_full b.mode && is_buildroot variant) [
  | false ↦ ok tt
  | true ↦ do
    insist (all_given required_capabilities b.capabilities) name (codes "missing runtime baseline")
    insist (length b.network_exec_commands == 4) name
        (codes "missing networking/execution baseline")
]

unfoldable pub check_endurance : Text → Text → Boot → Result (Unit {0})
check_endurance name variant b = elim (text_eq b.mode (codes "payload") && is_buildroot variant) [
  | false ↦ ok tt
  | true ↦ do done ← endured b; insist done name (codes "missing functional acceptance")
]

unfoldable pub check_sleep : Text → Text → Boot → Result (Unit {0})
check_sleep name variant b = elim (text_eq b.mode (codes "payload") && is_tiny variant) [
  | false ↦ ok tt
  | true ↦ do cs ← commands_of b; insist (any is_slept cs) name (codes "missing sleep check")
]

-- `name.removesuffix(suffix)`, for a suffix that is not empty
unfoldable pub remove_suffix : Text → Text → Text
remove_suffix suffix [] = []
remove_suffix suffix (c ∷ s) =
    let rest = remove_suffix suffix s in if text_eq (c ∷ s) suffix then [] else c ∷ rest

abbrev pub stem_of : Text → Text
stem_of name = remove_suffix (codes ".tar.gz") name

module _ (out : Outside) (o : Options) where
  -- `log`, for the package of the archive.
  unfoldable pub log_path : Text → Text → Text → Text
  log_path log_dir name mode =
      under o.root log_dir ++ (b'/' ∷ (stem_of name ++ (b'-' ∷ (mode ++ codes ".log"))))

  -- The log of a boot.
  unfoldable pub check_log : Files → Text → Text → Manifest → Boot → Result (Unit {0})
  check_log files log_dir name m b = do
    log ← read (log_path log_dir name b.mode) files
    insist (text_eq (out.sha log) b.uart_sha256) name (codes "boot log changed")
    insist
        (contains (codes "Linux version " ++ (m.kernel_version ++ codes " ")) (out.decode_log log))
        name (codes "booted kernel version differs from package")

  unfoldable pub check_boot : Files → Text → Text → Text → Manifest → Boot → Result (Unit {0})
  check_boot files log_dir name variant m b = do
    insist b.pass name (codes "boot failed")
    insist (not (text_in variant distros) || all_set (checks_of b.mode) b.checks) name
        (codes "incomplete distro acceptance")
    insist
        (not (text_eq b.mode (codes "split") && is_tiny variant)
          || length b.network_exec_commands == 3)
        name (codes "missing network/exec checks")
    check_log files log_dir name m b
    check_baseline name variant b
    check_endurance name variant b
    check_sleep name variant b

  unfoldable pub check_boots : Files → Text → Text → Text → Manifest → List Boot → Result (Unit {0})
  check_boots files log_dir name variant m [] = ok tt
  check_boots files log_dir name variant m (b ∷ bs) = do
    check_boot files log_dir name variant m b
    check_boots files log_dir name variant m bs
