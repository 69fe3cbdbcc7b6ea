-- ===== src/Distro/Tests.antt =====
-- Runs of the scripts that build, pack and audit the disks.
use linux_build.Base.{
  ◌>>=◌, decimal, splitlines-unlines, has_no_break, all_no_break-HasNoBreak, true, false, List, [],
  ◌∷◌, ◌++◌, none, some, pos, Text, codes, text_eq, text_in, starts_with, remove_prefix, has_char,
  strip, splitlines, is_break, lines_from, unlines, ok, ◌≡◌, refl, newline,
}
use linux_build.Base.Dict.{Dict, lookup, insert}
use linux_build.Base.Image.{find}
use linux_build.Toml.{
  Value, Fields, nil, cons, end, field, table, str, int, arr, get, is_text, to_text,
}
use linux_build.Package.Checks.{int_of}
use linux_build.Release.Matrix.{
  subscript, text_of, arch_of, version_of, package_name, is_plain, prefix_of,
}
use linux_build.Release.Order.{split_from}
use linux_build.Gate.Boots.{contains}
use linux_build.Distro.Config.{
  is_reference, is_package, all_names, are_names, is_size, reference_ok, fields_of, load_config,
}
use linux_build.Distro.Config.Words.{IsPlain, HasSize, load_config-IsPlain}
use linux_build.Distro.Image.{
  ImageReaders, Provenance, digest_parts, file_in, has_digest, check_blobs, single_layer,
  fetch_image,
}
use linux_build.Distro.Image.Intact.{IsIntact, fetch_image-IsIntact}
use linux_build.Distro.Build.{
  DiskRecord, Files, Outside, Sources, Paths, without_suffix, record_path, is_provisioned,
  without_returns, fingerprint, hash_of, check_tools, fetch_seed, publish_disk, keep_log,
  accept_disk, examine_run, provision_disk, create_from, create, decide, on_disk, build,
}
use linux_build.Distro.Build.Kept.{build-same}
use linux_build.Distro.Build.Recorded.{IsApart, IsBuilt, build-IsBuilt}
use linux_build.Distro.Build.Steps.{lookup_own, lookup_other}
use linux_build.Distro.Build.Again.{ReadsBack, build_later}
use linux_build.Distro.Proxy.{
  Url, UrlParse, auth_of, before_at, port_text, https_proxy, moved, seen_from_guest, guest_of,
  guest_proxy, export_lines, proxy_export,
}
use linux_build.Distro.Proxy.Same.{KeepsHost, IsReachable, as_command, proxy_export-guest_proxy}
use linux_build.Distro.Audit.{DiskOrigin, audit_record}
use linux_build.Distro.Script.{
  Inputs, Writers, CheckedDisk, required_settings, all_lines, check_origin, memory_of_boot,
  check_kernel, check_release, distro_manifest_of,
}
use linux_build.Distro.Script.Accepted.{check_release-audit_record}
use linux_build.Distro.Chain.{ReadsOrigin, origin_of, built-audit_record}
use linux_build.Distro.Json.{
  dumps_disk, load_prior, load_origin, load_prior-dumps_disk, load_origin-dumps_disk,
}

abbrev entry : Text → Value → Fields
entry k v = field k v end

abbrev fs : Fields
fs = field (codes "type") (str (codes "alpine")) (
    field (codes "image") (str (codes "docker.io/library/alpine:3.23")) (
      field (codes "size_mib") (int (pos 512))
        (entry (codes "packages") (arr (cons (str (codes "curl")) nil)))))

abbrev cfg : Fields
cfg = field (codes "target") (table (entry (codes "arch") (str (codes "riscv64")))) (
    field (codes "kernel") (table (entry (codes "version") (str (codes "6")))) (
      field (codes "boot") (table (entry (codes "memory") (int (pos 1024))))
        (entry (codes "rootfs") (table fs))))

loaded : load_config cfg ≡ ok fs
unfolding load_config subscript get find is_text text_in text_eq reference_ok is_reference has_char
    is_size fields_of are_names all_names is_package
loaded = refl

load_config-IsPlain_example : IsPlain fs × HasSize fs
load_config-IsPlain_example = load_config-IsPlain cfg loaded

-- A hash that is the content itself.
abbrev no_hash : Text → Text
no_hash s = s

abbrev readers : ImageReaders
readers = record {
  sha = no_hash;
  read_manifest = λ s. ok (record { config = codes "sha256:c"; layers = codes "sha256:l" ∷ [] });
  read_config = λ s. ok (record { architecture = codes "riscv64"; os = codes "linux" });
}

abbrev folder : Dict Text
folder = (codes "manifest.json", codes "m") ∷ (codes "c", codes "c") ∷ (codes "l", codes "l") ∷ []

abbrev from : Provenance
from = record {
  reference = codes "alpine";
  manifest_sha256 = codes "m";
  config_digest = codes "sha256:c";
  layer_digest = codes "sha256:l";
}

fetched : fetch_image readers (codes "alpine") folder ≡ ok (codes "l", from)
unfolding fetch_image file_in single_layer check_blobs digest_parts has_digest split_from lookup
    text_eq
fetched = refl

fetch_image-IsIntact_example :
    IsIntact readers folder (codes "l") from × (from.reference ≡ codes "alpine")
fetch_image-IsIntact_example = fetch_image-IsIntact readers (codes "alpine") folder fetched

abbrev outside : Outside
outside = record {
  sha = no_hash;
  dumps = dumps_disk;
  read_prior = load_prior;
  has_tool = λ tool. true;
  fetch = λ reference. ok (codes "l", from);
  provision = λ fs script base seed. record {
    log = some (newline ∷ (codes "RAPT_PROVISION_PASS" ++ (newline ∷ [])));
    disk = ok base;
  };
  decode_log = λ log. log;
  check_disk = λ disk. ok tt;
  inventory = λ disk. ok (codes "busybox");
}

abbrev sources : Sources
sources = record {
  preset_name = codes "q.toml";
  preset = codes "p";
  cfg = cfg;
  script = codes "s";
  runtime = (codes "b", codes "2") ∷ (codes "a", codes "1") ∷ [];
}

abbrev paths : Paths
paths = record { disk = codes "r.ext4"; kernel = codes "k"; firmware = codes "f" }

abbrev files : Files
files = (codes "k", codes "kernel") ∷ (codes "f", codes "firmware") ∷ []

abbrev built_files : Files
built_files = (build outside sources paths false files).0

built_files-run : build outside sources paths false files ≡ (built_files, ok tt)
unfolding build on_disk decide create check_tools create_from fetch_seed provision_disk examine_run
    keep_log accept_disk publish_disk hash_of load_config subscript text_of is_text reference_ok
    is_reference is_size fields_of are_names all_names is_package get has_char starts_with contains
    is_provisioned without_returns without_suffix lookup insert text_eq text_in strip find
built_files-run = refl

apart : IsApart paths
unfolding without_suffix has_char text_eq
apart = record {
  disk_manifest = refl;
  log_manifest = refl;
  log_disk = refl;
  kernel_disk = refl;
  kernel_manifest = refl;
  firmware_disk = refl;
  firmware_manifest = refl;
}

no_disk : lookup paths.disk files ≡ none
unfolding lookup text_eq
no_disk = refl

build-IsBuilt_example : IsBuilt outside sources paths false built_files
build-IsBuilt_example =
    build-IsBuilt outside sources paths false apart files no_disk built_files-run

abbrev other_disk : Files
other_disk = (codes "r.ext4", codes "x") ∷ files

is_other : lookup paths.disk other_disk ≡ some (codes "x")
unfolding lookup text_eq
is_other = refl

build-same_example : (build outside sources paths false other_disk).0 ≡ other_disk
build-same_example = build-same outside sources paths false other_disk is_other

reads-back : ReadsBack outside
reads-back = record { reads = load_prior-dumps_disk }

-- The guest has written to the disk.
abbrev used : Files
used = insert paths.disk (codes "l2") built_files

used-disk : lookup paths.disk used ≡ some (codes "l2")
used-disk = lookup_own paths.disk (codes "l2") built_files

used-record : lookup (record_path paths.disk) used ≡ lookup (record_path paths.disk) built_files
unfolding without_suffix has_char text_eq
used-record = lookup_other paths.disk (record_path paths.disk) (codes "l2") built_files refl

files-IsBuilt : IsBuilt outside sources paths false built_files
files-IsBuilt = build-IsBuilt outside sources paths false apart files no_disk built_files-run

build_later_example : build outside sources paths false used ≡ (used, ok tt)
build_later_example =
    build_later outside sources paths reads-back false false built_files used files-IsBuilt
      used-record used-disk

abbrev made : DiskRecord
made = record {
  schema = 2;
  preset = codes "q.toml";
  inputs_sha256 = fingerprint outside sources paths false;
  base_image = from;
  bootstrap_image = from;
  rootfs = fs;
  platform = codes "linux/riscv64";
  rootfs_sha256 = codes "l";
  packages = splitlines (codes "busybox");
  builder = codes "qemu-system-riscv64";
  build_log_sha256 = newline ∷ (codes "RAPT_PROVISION_PASS" ++ (newline ∷ []));
  kernel_sha256 = codes "kernel";
  firmware_sha256 = codes "firmware";
}

abbrev config_lines : List Text
config_lines = required_settings ++ (codes "CONFIG_HZ_100=y" ∷ [])

abbrev inputs : Inputs
inputs = record {
  preset = record { stem = codes "q"; cfg = cfg };
  preset_toml = codes "p";
  disk = codes "l";
  disk_record = dumps_disk made;
  build_log = newline ∷ (codes "RAPT_PROVISION_PASS" ++ (newline ∷ []));
  image = codes "kernel";
  vmlinux = codes "elf";
  config = unlines config_lines;
  kernel_release = codes "6";
  firmware = codes "firmware";
  source_record = none;
  build_inputs = [];
}

abbrev writers : Writers
writers = record {
  sha = no_hash;
  encode = λ text. text;
  decode = λ bytes. bytes;
  read_origin = load_origin;
  dumps = λ m. codes "{}";
  tar = λ name members. codes "tar";
}

abbrev checked : CheckedDisk
checked = record {
  name = codes "linux-riscv-q-v6";
  variant = codes "alpine";
  version = codes "6";
  memory = pos 1024;
}

reads-origin : ReadsOrigin outside writers
reads-origin = record { reads = load_origin-dumps_disk }

written-there : lookup (record_path paths.disk) built_files ≡ some inputs.disk_record
unfolding build on_disk decide create check_tools create_from fetch_seed provision_disk examine_run
    keep_log accept_disk publish_disk hash_of load_config subscript text_of is_text reference_ok
    is_reference is_size fields_of are_names all_names is_package get has_char starts_with contains
    is_provisioned without_returns without_suffix lookup insert text_eq text_in strip find
written-there = refl

read-written : load_origin inputs.disk_record ≡ ok (origin_of made)
read-written = load_origin-dumps_disk made

config-read : splitlines inputs.config ≡ config_lines
unfolding has_no_break
config-read = splitlines-unlines config_lines (all_no_break-HasNoBreak config_lines refl)

inputs-checked : check_release writers inputs ≡ ok checked
unfolding check_release check_origin check_kernel memory_of_boot subscript get find text_of arch_of
    text_in text_eq package_name version_of is_plain prefix_of remove_prefix to_text is_text strip
    int_of all_lines
inputs-checked = rw (read-written, config-read) refl

hz : text_in (codes "CONFIG_HZ_100=y") (splitlines inputs.config) ≡ true
unfolding text_in text_eq
hz = rw config-read refl

check_release-audit_record_example :
    audit_record inputs.config (distro_manifest_of writers inputs checked) (origin_of made) ≡ ok tt
unfolding splitlines lines_from is_break
check_release-audit_record_example =
    check_release-audit_record writers inputs inputs-checked read-written refl refl refl hz

built-audit_record_example :
    (r : DiskOrigin) × (load_origin inputs.disk_record ≡ ok r)
    × (audit_record inputs.config (distro_manifest_of writers inputs checked) r ≡ ok tt)
built-audit_record_example =
    built-audit_record outside writers reads-origin sources paths false apart files no_disk
      built_files-run inputs written-there inputs-checked refl hz

-- The only URL there is.
abbrev local_url : Url
local_url = record {
  scheme = codes "http";
  netloc = codes "localhost:8";
  path = [];
  query = [];
  fragment = [];
  hostname = some (codes "localhost");
  port = ok (some 8);
}

abbrev urls : UrlParse
urls = record {
  urlsplit = λ value. ok local_url;
  urlunsplit = λ scheme netloc path query fragment. codes "http://" ++ (netloc ++ path);
}

urls-KeepsHost : KeepsHost urls
urls-KeepsHost = record { kept = λ scheme auth rest path query fragment e. cc }

abbrev host_env : Dict Text
host_env = (codes "HTTPS_PROXY", codes "http://localhost:8") ∷ []

not_set : IsReachable urls host_env
unfolding lookup text_eq
not_set = λ v e. cc

proxy_export-guest_proxy_example :
    proxy_export urls host_env
    ≡ (guest_proxy urls host_env >>= λ v. ok (as_command (export_lines v)))
proxy_export-guest_proxy_example = proxy_export-guest_proxy urls urls-KeepsHost host_env not_set

seen_proxy : guest_proxy urls host_env ≡ ok (codes "http://10.0.2.2:8")
unfolding guest_proxy guest_of https_proxy seen_from_guest moved auth_of before_at port_text
    has_char lookup text_eq decimal
seen_proxy = refl
