-- ===== src/PackageTest/Cpio/RoundTrip.antt =====
-- `user_elf` finds every member of an archive at its place.
use mathlib.Core.Path.{subst, fun_ext}
use mathlib.Core.List.{append_assoc, append-nil}
use linux_build.Base.{
  ℕ, zero, suc, ◌+◌, ◌*◌, ◌/◌, ◌≤◌, ◌<◌, List, [], ◌∷◌, ◌++◌, ◌≡◌, refl, ap, sym, ◌∙◌, inl, inr,
  true, Option, none, some, length, length-append, Text, codes, ok, All, arith, pos, text_eq, ◌||◌,
  leb, le→leb, ◌+ℤ◌, sub_ℕ,
}
use linux_build.Base.Bytes.{Bytes, slice, align4}
use linux_build.Base.Bytes.Hex.{hex8, length-hex8, int16-hex8}
use linux_build.Base.Bytes.Slices.{slice-middle}
use linux_build.PackageTest.Cpio.{
  UserElf, normal_name, entry_step, read_entry, walk, user_elf, finish,
}
use linux_build.PackageTest.Cpio.Archive.{
  Member, IsMember, zeros, padding, header, onto, archive, audit,
}

length-zeros : (n : ℕ) → length (zeros n) ≡ n
length-zeros zero = refl
length-zeros (suc n) = ap suc (length-zeros n)

-- The widths of the parts of a header.
magic-length : (m : Member) → IsMember m → length m.magic ≡ 6
magic-length m w = elim w.magic [ inl e ↦ rw e | inr e ↦ rw e ]

length-header : (m : Member) → IsMember m → length (header m) ≡ 110
unfolding header
length-header m w =
    rw (length-append, length-append, length-append, length-append, length-append)
      (omega (
        arith,
        magic-length m w,
        w.before,
        w.between,
        w.check,
        length-hex8 (length m.body),
        length-hex8 (length m.name + 1),
      ))

header_magic : (m : Member) → IsMember m → slice (pos 0) (pos 6) (header m) ≡ m.magic
unfolding header
header_magic m w =
    slice-middle [] m.magic _ (header m) 0 6 refl (omega arith) (omega (arith, magic-length m w))

header_size : (m : Member) → IsMember m → slice (pos 54) (pos 62) (header m) ≡ hex8 (length m.body)
unfolding header
header_size m w =
    slice-middle (m.magic ++ m.before) (hex8 (length m.body)) _ (header m) 54 62
      (sym (append_assoc m.magic m.before _))
      (omega (arith, length-append m.magic m.before, magic-length m w, w.before))
      (omega (
        arith,
        length-append m.magic m.before,
        magic-length m w,
        w.before,
        length-hex8 (length m.body),
      ))

header_namesize :
    (m : Member) → IsMember m → slice (pos 94) (pos 102) (header m) ≡ hex8 (length m.name + 1)
unfolding header
header_namesize m w =
    let a = m.magic ++ (m.before ++ (hex8 (length m.body) ++ m.between)) in
    let la : length a ≡ 94 =
      rw (length-append, length-append, length-append)
        (omega (arith, magic-length m w, w.before, w.between, length-hex8 (length m.body))) in
    slice-middle a (hex8 (length m.name + 1)) m.check (header m) 94 102 (simp append_assoc)
      (omega arith) (omega (arith, length-hex8 (length m.name + 1)))

magic-accepted :
    (m : Member)
    → IsMember m
    → (text_eq m.magic (codes "070701") || text_eq m.magic (codes "070702")) ≡ true
magic-accepted m w = elim w.magic [
  | inl e ↦ rw e (unfold text_eq in refl)
  | inr e ↦ rw e (unfold text_eq in refl)
]

-- The byte behind the name, and the place of the last byte of the name's field.
last_index : (a b : ℕ) → pos (a + (b + 1)) +ℤ sub_ℕ 0 1 ≡ pos (a + b)
last_index a b = ground arith

abbrev after_body : Member → Bytes → Bytes
after_body m rest = zeros (padding (length m.body)) ++ rest

abbrev after_name : Member → Bytes → Bytes
after_name m rest = (0 ∷ zeros (padding (110 + length m.name + 1))) ++ (m.body ++ after_body m rest)

-- The member `m` stands in `d` at an offset that is a multiple of 4.
record IsAt (d : Bytes) (off : ℕ) (m : Member) : Type 0 where
  pre : Bytes
  rest : Bytes
  splits : d ≡ pre ++ onto m rest
  offset : off ≡ length pre
  quarter : ℕ
  aligned : off ≡ 4 * quarter

abbrev pad1 : Member → Bytes
pad1 m = 0 ∷ zeros (padding (110 + length m.name + 1))

abbrev member_size : Member → ℕ
member_size m =
    110
    + length m.name
    + 1
    + padding (110 + length m.name + 1)
    + length m.body
    + padding (length m.body)

module _ (d : Bytes) (off : ℕ) (m : Member) (w : IsMember m) (at : IsAt d off m) where
  at_header : slice (pos off) (pos (off + 110)) d ≡ header m
  at_header =
      slice-middle at.pre (header m) (m.name ++ after_name m at.rest) d off (off + 110)
        (unfold onto in at.splits) at.offset (omega (arith, at.offset, length-header m w))

  at_name : slice (pos (off + 110)) (pos (off + 110 + length m.name)) d ≡ m.name
  at_name =
      slice-middle (at.pre ++ header m) m.name (after_name m at.rest) d (off + 110)
        (off + 110 + length m.name)
        (at.splits ∙ unfold onto in sym (append_assoc at.pre (header m) _))
        (omega (arith, at.offset, length-append at.pre (header m), length-header m w))
        (omega (arith, at.offset, length-append at.pre (header m), length-header m w))

  start_of : ℕ
  start_of = off + 110 + length m.name + 1 + padding (110 + length m.name + 1)

  at_body : slice (pos start_of) (pos (start_of + length m.body)) d ≡ m.body
  unfolding start_of
  at_body =
      let a = at.pre ++ (header m ++ (m.name ++ pad1 m)) in
      let la : length a ≡ start_of =
        rw (length-append, length-append, length-append)
          (omega (
            arith,
            at.offset,
            length-header m w,
            length-zeros (padding (110 + length m.name + 1)),
          )) in
      slice-middle a m.body (after_body m at.rest) d start_of (start_of + length m.body)
        (at.splits ∙ unfold onto in simp append_assoc) (sym la) (omega (arith, la))

  start-align4 : align4 (pos (off + 110 + (length m.name + 1) + 3)) ≡ pos start_of
  unfolding align4 start_of
  start-align4 = ap pos (omega (arith, at.aligned))

  next-align4 : align4 (pos (start_of + length m.body + 3)) ≡ pos (off + member_size m)
  unfolding align4 start_of
  next-align4 = ap pos (omega (arith, at.aligned))

  read_entry-IsAt :
      read_entry d (pos off)
      ≡ ok (record { name = normal_name m.text; body = m.body; next = pos (off + member_size m) })
  unfolding read_entry
  read_entry-IsAt = rw (
    at_header,
    header_magic m w,
    magic-accepted m w,
    header_size m w,
    header_namesize m w,
    int16-hex8 (length m.body) w.body_fits,
    int16-hex8 (length m.name + 1) w.name_fits,
    last_index (off + 110) (length m.name),
    at_name,
    w.name,
    start-align4,
    at_body,
    next-align4,
  )

member_size-onto :
    (m : Member) (rest : Bytes) → IsMember m → length (onto m rest) ≡ member_size m + length rest
unfolding onto
member_size-onto m rest w =
    rw (length-append, length-append, length-append, length-append, length-append)
      (omega (
        arith,
        length-header m w,
        length-zeros (padding (110 + length m.name + 1)),
        length-zeros (padding (length m.body)),
      ))

member_size-aligned : (m : Member) (q : ℕ) → (k : ℕ) × (4 * q + member_size m ≡ 4 * k)
member_size-aligned m q = ((4 * q + member_size m) / 4, omega arith)

-- Members that follow one another from an offset on, up to the end.
data Follow (d : Bytes) : ℕ → List Member → Type 0 where
  done : {off : ℕ} → off ≡ length d → Follow d off []
  next :
      {off : ℕ} {m : Member} {ms : List Member}
      → IsMember m
      → IsAt d off m
      → Follow d (off + member_size m) ms
      → Follow d off (m ∷ ms)

onto-append : (m : Member) (rest : Bytes) → onto m rest ≡ onto m [] ++ rest
unfolding onto
onto-append m rest = simp (append_assoc, append-nil)

Follow-archive :
    (ms : List Member) (pre : Bytes) (off q : ℕ)
    → All IsMember ms
    → off ≡ length pre
    → off ≡ 4 * q
    → Follow (pre ++ archive ms) off ms
unfolding archive
Follow-archive [] pre off q w h e =
    let at_end : off ≡ length (pre ++ []) = omega (arith, length-append pre []) in done at_end
Follow-archive (m ∷ ms) pre off q w h e =
    let (k, al) = member_size-aligned m q in
    let moved : (pre ++ onto m []) ++ archive ms ≡ pre ++ onto m (archive ms) =
      append_assoc pre (onto m []) (archive ms)
      ∙ ap (λ t. pre ++ t) (sym (onto-append m (archive ms))) in
    let there : off + member_size m ≡ length (pre ++ onto m []) =
      omega (arith, length-append pre (onto m []), member_size-onto m [] w.0) in
    next w.0
      (record { pre = pre; rest = archive ms; splits = refl; offset = h; quarter = q; aligned = e })
      (subst (λ d. Follow d (off + member_size m) ms) moved
        (Follow-archive ms (pre ++ onto m []) (off + member_size m) k w.1 there (omega arith)))

IsAt-fits : (d : Bytes) (off : ℕ) (m : Member) → IsMember m → IsAt d off m → off + 110 ≤ length d
IsAt-fits d off m w at =
    rw at.splits (rw length-append (omega (arith, at.offset, member_size-onto m at.rest w)))

module _ (variant : Text) (bits : ℕ) where
  walk-done :
      (d : Bytes) (off fuel : ℕ) (found : Option UserElf)
      → off ≡ length d
      → walk variant bits (suc fuel) d (pos off) found ≡ some (ok found)
  unfolding walk
  walk-done d off fuel found e = ground arith

  walk-member :
      (d : Bytes) (off fuel : ℕ) (m : Member) (found : Option UserElf)
      → IsMember m
      → IsAt d off m
      → walk variant bits (suc fuel) d (pos off) found
        ≡ entry_step variant bits
            (normal_name m.text)
            m.body
            found
            (walk variant bits fuel d (pos (off + member_size m)))
  unfolding walk
  walk-member d off fuel m found w at =
      let fits : leb (off + 110) (length d) ≡ true = le→leb _ _ (IsAt-fits d off m w at) in
      rw (fits, walk) (rw (read_entry-IsAt d off m w at, walk))

  walk-Follow :
      (d : Bytes) (fuel : ℕ) (found : Option UserElf) {off : ℕ} {ms : List Member}
      → Follow d off ms
      → length ms < fuel
      → walk variant bits fuel d (pos off) found ≡ audit variant bits ms found
  unfolding audit
  walk-Follow d zero found f h = elim h [ ]
  walk-Follow d (suc fuel) found (done {off = off} e) h = walk-done d off fuel found e
  walk-Follow d (suc fuel) found (next {off = off} {m = m} w at f) h =
      walk-member d off fuel m found w at
      ∙ ap (entry_step variant bits (normal_name m.text) m.body found)
          (fun_ext (λ found'. walk-Follow d fuel found' f (omega arith)))

  -- For an archive of members, `user_elf` ends on any fuel above their number, and its result is that
  -- of the checks made member by member up to the trailer: no member is missed or misread.
  pub user_elf-archive :
      (ms : List Member) (fuel : ℕ)
      → All IsMember ms
      → length ms < fuel
      → user_elf variant bits fuel (archive ms) ≡ finish variant bits (audit variant bits ms none)
  unfolding user_elf
  user_elf-archive ms fuel w h =
      rw (walk-Follow (archive ms) fuel none (Follow-archive ms [] 0 0 w refl refl) h, user_elf)
