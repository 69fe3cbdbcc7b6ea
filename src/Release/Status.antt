-- ===== src/Release/Status.antt =====
-- The records that scripts/build-release.py keeps, and its tests on names and files.
use linux_build.Base.{
  ℕ, Bool, true, false, not, ◌&&◌, ◌||◌, List, [], ◌∷◌, ◌++◌, Option, none, some, ltb, ◌==◌, ℤ, pos,
  negsuc, Text, codes, text_eq, text_in, starts_with, remove_prefix, if◌then◌else◌, Result, ok, err,
  has_char,
}
use linux_build.Base.Dict.{Dict, lookup}
use linux_build.Release.Matrix.{Preset, distros}

-- An entry of `status['packages']`; `none` is a key that is not there yet.
pub record Item : Type 0 where
  pub preset : Text
  pub variant : Text
  pub archive : Text
  pub started : ℕ
  pub command : Option (List Text)
  pub log : Option Text
  pub returncode : Option ℤ
  pub reused : Bool
  pub sha256 : Option Text
  pub finished : Option ℕ

pub record Status : Type 0 where
  pub started : ℕ
  pub expected_packages : ℕ
  pub build_root : Text
  pub packages : List Item
  pub pass : Bool
  pub finished : Option ℕ

pub record World : Type 0 where
  pub files : Dict Text
  pub readings : ℕ

pub record Outside : Type 0 where
  pub now : ℕ → ℕ
  pub sha : Text → Text
  pub dumps : Status → Text
  pub build_inputs : Text → Result (Dict Text)
  pub make : Text → List Text → Dict Text → Dict Text × ℤ

-- The arguments, and the repository `root`.
pub record Options : Type 0 where
  pub root : Text
  pub dist : Text
  pub build_root : Text
  pub jobs : ℤ
  pub resume : Bool

-- How a step of the loop ends: with the next one, or with `return 1`.
pub data Step : Type 0 where
  going : Status → Step
  failed : Status → Step

-- `args.jobs >= 1`
abbrev pub positive : ℤ → Bool
positive (pos n) = ltb 0 n
positive (negsuc n) = false

abbrev pub is_zero : ℤ → Bool
is_zero (pos n) = n == 0
is_zero (negsuc n) = false

-- `base / p`
unfoldable pub under : Text → Text → Text
under base p = if starts_with p (codes "/") then p else base ++ (b'/' ∷ p)

abbrev pub archive_name : Text → Text
archive_name name = name ++ codes ".tar.gz"

-- `item`, as it begins.
abbrev pub begun : Preset → Text → Text → ℕ → Item
begun preset variant name started = record {
  preset = preset.stem;
  variant = variant;
  archive = archive_name name;
  started = started;
  command = none;
  log = none;
  returncode = none;
  reused = false;
  sha256 = none;
  finished = none;
}

abbrev pub with_packages : Status → List Item → Status
with_packages s items = record {
  started = s.started;
  expected_packages = s.expected_packages;
  build_root = s.build_root;
  packages = items;
  pass = s.pass;
  finished = s.finished;
}

abbrev pub with_end : Status → Bool → ℕ → Status
with_end s pass time = record {
  started = s.started;
  expected_packages = s.expected_packages;
  build_root = s.build_root;
  packages = s.packages;
  pass = pass;
  finished = some time;
}

unfoldable pub target_of : Text → Text
target_of variant =
    if text_in variant distros
    then codes "package_distro"
    else if text_eq variant (codes "tiny_shell")
    then codes "package"
    else codes "package_buildroot"

-- `p.name for p in dist.glob('*.tar.gz')`
abbrev pub in_folder : Text → Text → Option Text
in_folder folder path =
    if starts_with path (folder ++ codes "/")
    then some (remove_prefix (folder ++ codes "/") path)
    else none

unfoldable pub ends_with : Text → Text → Bool
ends_with [] p = text_eq [] p
ends_with (c ∷ s) p = text_eq (c ∷ s) p || ends_with s p

-- `{p.name for p in dist.glob('*.tar.gz')}`; the files alone are kept, so folders of such names are not seen.
unfoldable pub archives_in : Text → Dict Text → List Text
archives_in dist [] = []
archives_in dist ((path, content) ∷ files) = elim (in_folder dist path) [
  | none ↦ archives_in dist files
  | some name ↦
      if not (has_char b'/' name) && ends_with name (codes ".tar.gz")
      then name ∷ archives_in dist files
      else archives_in dist files
]

unfoldable pub all_in : List Text → List Text → Bool
all_in [] ts = true
all_in (s ∷ ss) ts = text_in s ts && all_in ss ts

-- `a == b` for the sets of the members.
abbrev pub same_set : List Text → List Text → Bool
same_set a b = all_in a b && all_in b a

-- Whether every recorded build input is a file with the recorded hash.
unfoldable pub inputs_match : (Text → Text) → Text → Dict Text → Dict Text → Bool
inputs_match sha root [] files = true
inputs_match sha root ((p, h) ∷ inputs) files = elim (lookup (under root p) files) [
  | none ↦ false
  | some content ↦ text_eq (sha content) h && inputs_match sha root inputs files
]

-- The test on what the reader gives for the manifest.
unfoldable pub matches_record : (Text → Text) → Text → Dict Text → Result (Dict Text) → Result Bool
unfolding inputs_match
matches_record sha root files (err fault) = err fault
matches_record sha root files (ok inputs) = ok (inputs_match sha root inputs files)
