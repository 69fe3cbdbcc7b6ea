-- ===== src/Release/Matrix/Names.antt =====
-- The names of the packages tell their presets and kinds apart.
use linux_build.Base.{
  ok-inj, ℕ, Bool, true, false, [], ◌∷◌, ◌++◌, ◌≡◌, ◌≢◌, refl, sym, ap, ◌∙◌, arith, Text, codes,
  has_char, remove_prefix, drop, ok, ◌==◌, Bool-cases, inl, inr,
}
use mathlib.Core.List.{append_assoc}
use linux_build.Release.Matrix.{Preset, package_name, arch_of, version_of, is_plain, prefix_of}

has_char-append : (c : ℕ) (s t : Text) → has_char c (s ++ (c ∷ t)) ≡ true
unfolding has_char
has_char-append c [] t = ground arith
has_char-append c (x ∷ s) t = ground (arith, has_char-append c s t)

-- A text is determined by what stands before and after its last `c`.
last_split :
    (c : ℕ) (s t s' t' : Text)
    → has_char c t ≡ false
    → has_char c t' ≡ false
    → s ++ (c ∷ t) ≡ s' ++ (c ∷ t')
    → s ≡ s'
last_split c [] t [] t' h h' e = refl
last_split c [] t (x ∷ s') t' h h' e =
    let tails : t ≡ s' ++ (c ∷ t') = ap (drop 1) e in absurd (cc (tails, has_char-append c s' t'))
last_split c (x ∷ s) t [] t' h h' e =
    let tails : s ++ (c ∷ t) ≡ t' = ap (drop 1) e in absurd (cc (tails, has_char-append c s t))
last_split c (x ∷ s) t (y ∷ s') t' h h' e = cc (e, last_split c s t s' t' h h' (ap (drop 1) e))

has_char_cons : (c x : ℕ) (s : Text) → has_char c (x ∷ s) ≡ false → (x ≢ c) × (has_char c s ≡ false)
unfolding has_char
has_char_cons c x s h = ground arith

abbrev first : Text → ℕ
first [] = 0
first (x ∷ s) = x

-- The same for what stands after its first `c`.
first_split :
    (c : ℕ) (s t s' t' : Text)
    → has_char c s ≡ false
    → has_char c s' ≡ false
    → s ++ (c ∷ t) ≡ s' ++ (c ∷ t')
    → t ≡ t'
first_split c [] t [] t' h h' e = ap (drop 1) e
first_split c [] t (x ∷ s') t' h h' e = absurd ((has_char_cons c x s' h').0 (sym (ap first e)))
first_split c (x ∷ s) t [] t' h h' e = absurd ((has_char_cons c x s h).0 (ap first e))
first_split c (x ∷ s) t (y ∷ s') t' h h' e =
    first_split c s t s' t' (has_char_cons c x s h).1 (has_char_cons c y s' h').1 (ap (drop 1) e)

-- A preset as they are in the folder `configs`: it begins with `qemu-`, its version holds no `v`, and
-- its word size no dash.
pub record IsNamed (p : Preset) : Type 0 where
  pub rest : Text
  pub stem : p.stem ≡ codes "qemu-" ++ rest
  pub version : Text
  pub has_version : version_of p.cfg ≡ ok version
  pub version_plain : has_char b'v' version ≡ false
  pub arch : Text
  pub has_arch : arch_of p.cfg ≡ ok arch
  pub bits_plain : has_char b'-' (remove_prefix (codes "riscv") arch) ≡ false

abbrev bits_of : {p : Preset} → IsNamed p → Text
bits_of n = remove_prefix (codes "riscv") n.arch

package_name-IsNamed :
    (p : Preset) (n : IsNamed p) (variant : Text) {name : Text}
    → package_name p variant ≡ ok name
    → name ≡ (prefix_of p.stem (bits_of n) variant ++ codes "-") ++ (b'v' ∷ n.version)
unfolding package_name
package_name-IsNamed p n variant h =
    ok-inj (sym (rw (n.has_arch, n.has_version, package_name) at h))
    ∙ sym (append_assoc (prefix_of p.stem (bits_of n) variant) (codes "-") _)

-- Whether a name goes on with the `q` of a preset, or with the `r` of a word size.
abbrev begins : Text → Bool
begins s = first (drop 12 s) == b'q'

prefix_of-plain :
    (stem bits v : Text) → is_plain v ≡ true → prefix_of stem bits v ≡ codes "linux-riscv-" ++ stem
unfolding prefix_of
prefix_of-plain stem bits v h = rw h

prefix_of-buildroot :
    (stem bits v : Text)
    → is_plain v ≡ false
    → prefix_of stem bits v
      ≡ codes "linux-riscv-rv" ++ (bits ++ (b'-' ∷ (stem ++ codes "-buildroot")))
unfolding prefix_of
prefix_of-buildroot stem bits v h = rw h

prefix_of-begins :
    (p : Preset) (n : IsNamed p) (v : Text) → begins (prefix_of p.stem (bits_of n) v) ≡ is_plain v
prefix_of-begins p n v = elim (Bool-cases (is_plain v)) [
  | inl a ↦ rw (prefix_of-plain p.stem (bits_of n) v a, n.stem, a) refl
  | inr a ↦ rw (prefix_of-buildroot p.stem (bits_of n) v a, a) refl
]

prefix_of-inj :
    (p q : Preset) (m : IsNamed p) (n : IsNamed q) (v u : Text)
    → prefix_of p.stem (bits_of m) v ≡ prefix_of q.stem (bits_of n) u
    → (p.stem ≡ q.stem) × (is_plain v ≡ is_plain u)
prefix_of-inj p q m n v u h =
    let kinds : is_plain v ≡ is_plain u =
      sym (prefix_of-begins p m v) ∙ ap begins h ∙ prefix_of-begins q n u in
    elim (Bool-cases (is_plain v)) [
      | inl a ↦
          let plain =
            sym (prefix_of-plain p.stem (bits_of m) v a)
            ∙ h
            ∙ prefix_of-plain q.stem (bits_of n) u (sym kinds ∙ a) in
          (ap (drop 12) plain, kinds)
      | inr a ↦
          let buildroot =
            sym (prefix_of-buildroot p.stem (bits_of m) v a)
            ∙ h
            ∙ prefix_of-buildroot q.stem (bits_of n) u (sym kinds ∙ a) in
          let stems =
            first_split b'-' (bits_of m) (p.stem ++ codes "-buildroot") (bits_of n)
              (q.stem ++ codes "-buildroot") m.bits_plain n.bits_plain (ap (drop 14) buildroot) in
          (
            last_split b'-' p.stem (codes "buildroot") q.stem (codes "buildroot")
                (unfold has_char in refl) (unfold has_char in refl) stems,
            kinds,
          )
    ]

-- Two presets of the folder give the same name to a package only if they have the same stem and both
-- packages are Buildroot's, or neither is.
pub package_name-inj :
    (p q : Preset) (v u : Text) {name : Text}
    → IsNamed p
    → IsNamed q
    → package_name p v ≡ ok name
    → package_name q u ≡ ok name
    → (p.stem ≡ q.stem) × (is_plain v ≡ is_plain u)
package_name-inj p q v u m n h k =
    let same = sym (package_name-IsNamed p m v h) ∙ package_name-IsNamed q n u k in
    let before = last_split b'v' _ m.version _ n.version m.version_plain n.version_plain same in
    prefix_of-inj p q m n v u
      (last_split b'-' _ [] _ [] (unfold has_char in refl) (unfold has_char in refl) before)
