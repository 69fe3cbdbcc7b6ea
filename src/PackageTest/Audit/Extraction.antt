-- ===== src/PackageTest/Audit/Extraction.antt =====
-- Reading back the members that package-artifacts.py writes.
use mathlib.Core.List.{append_assoc, append-nil}
use linux_build.Base.{
  true, false, [], ◌∷◌, ◌++◌, ◌≡◌, refl, sym, ap, ◌∙◌, arith, Text, codes, text_eq, text_eq_refl,
  has_char, starts_with, ok, All, map,
}
use linux_build.Base.Dict.{Dict, lookup, insert}
use linux_build.Base.Bytes.{Bytes}
use linux_build.Release.Order.Parts.{split_from-end, split_from-part}
use linux_build.PackageTest.Audit.{
  TarMember, path_parts, kept_parts, output_name, is_root, is_seen, extract_member, extract,
}

-- A name of one part.
abbrev pub IsPart : Text → Type 0
IsPart n = (has_char b'/' n ≡ false) × (text_eq n [] ≡ false) × (text_eq n (codes ".") ≡ false)

-- No name stands in `seen`, and none comes twice.
abbrev pub AreNew : Dict Bytes → Dict Bytes → Type 0
AreNew seen [] = Unit
AreNew seen ((name, content) ∷ files) =
    (is_seen name seen ≡ false) × AreNew (seen ++ ((name, content) ∷ [])) files

-- What `archive.add(stage, arcname=root)` writes: the folder, then its files.
abbrev pub folder_member : Text → TarMember
folder_member root = record { name = root; is_dir = true; is_file = false; content = [] }

abbrev pub file_member : Text → Text × Bytes → TarMember
file_member root (name, content) = record {
  name = root ++ (b'/' ∷ name);
  is_dir = false;
  is_file = true;
  content = content;
}

starts_with-slash :
    (s t : Text)
    → has_char b'/' s ≡ false
    → text_eq s [] ≡ false
    → starts_with (s ++ t) (codes "/") ≡ false
unfolding has_char text_eq starts_with
starts_with-slash [] t h k = cc
starts_with-slash (x ∷ s) t h k = ground arith

path_parts-member :
    (root name : Text)
    → IsPart root
    → IsPart name
    → path_parts (root ++ (b'/' ∷ name)) ≡ root ∷ name ∷ []
unfolding path_parts kept_parts
path_parts-member root name (r, e, d) (n, f, g) =
    rw
      (
        starts_with-slash root (b'/' ∷ name) r e,
        split_from-part b'/' root name [] r,
        split_from-end b'/' name [] n,
      )
      (rw (e, d, f, g) refl)

path_parts-folder : (root : Text) → IsPart root → path_parts root ≡ root ∷ []
unfolding path_parts kept_parts
path_parts-folder root (r, e, d) =
    rw
      (
        ap (λ x. starts_with x (codes "/")) (sym (append-nil root)) ∙ starts_with-slash root [] r e,
        split_from-end b'/' root [] r,
      )
      (rw (e, d) refl)

insert-new :
    (name : Text) (content : Bytes) (d : Dict Bytes)
    → is_seen name d ≡ false
    → insert name content d ≡ d ++ ((name, content) ∷ [])
unfolding is_seen lookup insert
insert-new name content [] h = refl
insert-new name content ((k, v) ∷ d) h = ground (arith, insert-new name content d)

extract_member-file :
    (root name : Text) (content : Bytes) (seen : Dict Bytes)
    → IsPart root
    → IsPart name
    → is_seen name seen ≡ false
    → extract_member root (file_member root (name, content)) seen
      ≡ ok (seen ++ ((name, content) ∷ []))
unfolding extract_member output_name
extract_member-file root name content seen r n new =
    rw (path_parts-member root name r n, extract_member)
      (rw (text_eq_refl root) (rw new (ap ok (insert-new name content seen new))))

extract-files :
    (root : Text) (files seen : Dict Bytes)
    → IsPart root
    → All (λ file. IsPart file.0) files
    → AreNew seen files
    → extract root (map (file_member root) files) seen ≡ ok (seen ++ files)
unfolding extract
extract-files root [] seen r n new = ap ok (sym (append-nil seen))
extract-files root ((name, content) ∷ files) seen r n new =
    rw (extract_member-file root name content seen r n.0 new.0) (
      extract-files root files (seen ++ ((name, content) ∷ [])) r n.1 new.1
      ∙ ap ok (append_assoc seen ((name, content) ∷ []) files))

-- Of the archive that holds a package's folder and then its files, under names of one part none of
-- which comes twice, the reading gives exactly those files with their contents.
pub extract-folder :
    (root : Text) (files : Dict Bytes)
    → IsPart root
    → All (λ file. IsPart file.0) files
    → AreNew [] files
    → extract root (folder_member root ∷ map (file_member root) files) [] ≡ ok files
unfolding extract extract_member is_root
extract-folder root files r n new =
    rw (path_parts-folder root r, extract, extract_member)
      (rw (text_eq_refl root) (extract-files root files [] r n new))
