-- ===== src/PackageTest/Cpio/Sound.antt =====
-- What `user_elf` accepts.
use Prim.Native.Nat.{bit_and}
use mathlib.Core.Path.{subst}
use linux_build.Base.{
  err≢ok, ok-inj, some-inj, ℕ, ◌<◌, true, false, ◌&&◌, List, [], ◌∷◌, ◌≡◌, refl, sym, ◌⊎◌, ◌∙◌, ap,
  Option, none, some, ◌==◌, ==_iff, if◌then◌else◌, length, Text, text_eq, text_in, starts_with,
  &&_iff, All, ◌++◌, ◌≢◌, Result, ok, err, >>=-eq-ok, >>-eq-ok, Bool-cases, Result-cases, inl, inr,
}
use linux_build.Base.Bytes.{Bytes, byte_at, unpack}
use linux_build.PackageTest.Cpio.Archive.{Member, IsMember, archive, audit}
use linux_build.PackageTest.Cpio.RoundTrip.{user_elf-archive}
use linux_build.PackageTest.Cpio.{
  UserElf, wanted, expected_float, check_elf, visit, entry_step, found_or_error, finish, user_elf,
  normal_name, elf_magic, is_module, trailer,
}

none≢some : {A : Type 0} {a : A} → none ≢ some a
none≢some h = cc

-- What makes a name and a body the variant's user ELF: a wanted name, the ELF magic number, the class
-- of the word size, the machine RISC-V (243), and the variant's float ABI in the flags.
pub record IsElf (variant : Text) (bits : ℕ) (name : Text) (body : Bytes) (elf : UserElf)
    : Type 0 where
  pub wanted_name : text_in name (wanted variant bits) ≡ true
  pub magic : starts_with body elf_magic ≡ true
  pub path : elf.path ≡ name
  pub word : elf.bits ≡ bits
  pub class : byte_at body 4 ≡ ok (if bits == 32 then 1 else 2)
  pub machine : unpack 2 body 18 ≡ ok 243
  pub flags : unpack 4 body (if bits == 32 then 36 else 48) ≡ ok elf.flags
  pub float : bit_and elf.flags 6 ≡ expected_float variant bits

module _ (variant : Text) (bits : ℕ) where
  check_elf-IsElf :
      (name : Text) (body : Bytes) {elf : UserElf}
      → text_in name (wanted variant bits) ≡ true
      → starts_with body elf_magic ≡ true
      → check_elf variant bits name body ≡ ok elf
      → IsElf variant bits name body elf
  unfolding check_elf
  check_elf-IsElf name body {elf = elf} w m h =
      let cls : ℕ = if bits == 32 then 1 else 2 in
      let (class, c, h₁) = >>=-eq-ok (byte_at body 4) _ h in
      let (machine, c₁, h₂) = >>=-eq-ok (if class == cls then unpack 2 body 18 else ok 0) _ h₁ in
      let (right, h₃) = >>-eq-ok (class == cls && machine == 243) _ _ h₂ in
      let (flags, c₂, h₄) = >>=-eq-ok (unpack 4 body (if bits == 32 then 36 else 48)) _ h₃ in
      let (float, h₅) = >>-eq-ok (bit_and flags 6 == expected_float variant bits) _ _ h₄ in
      let (is_class, is_machine) = (&&_iff _ _).0 right in
      let class_is : class ≡ cls = (==_iff class cls).0 is_class in
      let made : record { path = name; bits = bits; flags = flags } ≡ elf = ok-inj h₅ in
      subst (IsElf variant bits name body) made (record {
        wanted_name = w;
        magic = m;
        path = refl;
        word = refl;
        class = c ∙ ap ok class_is;
        machine = rw ((==_iff machine 243).0 is_machine) at rw (is_class, if◌then◌else◌) at c₁;
        flags = c₂;
        float = (==_iff _ _).0 float;
      })

  -- What an entry on the way does not have: a module's name, or the trailer's.
  abbrev pub Passes : Member → Type 0
  Passes m =
      (is_module variant bits (normal_name m.text) ≡ false)
      × (text_eq (normal_name m.text) trailer ≡ false)

  -- The user ELF of an archive: that of a member, behind members that are neither modules nor the
  -- trailer.
  pub record IsElfOf (ms : List Member) (elf : UserElf) : Type 0 where
    pub before : List Member
    pub member : Member
    pub after : List Member
    pub splits : ms ≡ before ++ (member ∷ after)
    pub passes : All Passes before
    pub passes_member : Passes member
    pub is_elf : IsElf variant bits (normal_name member.text) member.body elf

  visit_cases :
      (name : Text) (body : Bytes) (found found' : Option UserElf)
      → visit variant bits name body found ≡ ok found'
      → (found' ≡ found)
        ⊎ ((elf : UserElf) × (found' ≡ some elf) × IsElf variant bits name body elf)
  unfolding visit
  visit_cases name body found found' h =
      elim (Bool-cases (text_in name (wanted variant bits) && starts_with body elf_magic)) [
        | inr e ↦ inl (ok-inj (sym (rw (e, visit) at h)))
        | inl e ↦
            let (elf, checked, is) =
              >>=-eq-ok (check_elf variant bits name body) _ (rw (e, visit) at h) in
            let (w, m) = (&&_iff _ _).0 e in
            inr (elf, ok-inj (sym is), check_elf-IsElf name body w m checked)
      ]

  entry_step_cases :
      (name : Text) (body : Bytes) (found : Option UserElf)
      (go_on : Option UserElf → Option (Result (Option UserElf))) (r : Option UserElf)
      → entry_step variant bits name body found go_on ≡ some (ok r)
      → (r ≡ found)
        ⊎ ((is_module variant bits name ≡ false)
            × (text_eq name trailer ≡ false)
            × ((found' : Option UserElf) × (visit variant bits name body found ≡ ok found')
                × (go_on found' ≡ some (ok r))))
  unfolding entry_step
  entry_step_cases name body found go_on r h = elim (Bool-cases (is_module variant bits name)) [
    | inl e ↦ absurd (err≢ok (some-inj (rw (e, entry_step) at h)))
    | inr e ↦ elim (Bool-cases (text_eq name trailer)) [
      | inl t ↦ inl (ok-inj (some-inj (sym (rw (e, t, entry_step) at h))))
      | inr t ↦ elim (Result-cases (visit variant bits name body found)) [
        | inl (found', v) ↦ inr (e, t, (found', v, rw (e, t, v, entry_step) at h))
        | inr (fault, v) ↦ absurd (err≢ok (some-inj (rw (e, t, v, entry_step) at h)))
      ]
    ]
  ]

  audit-IsElfOf :
      (ms : List Member) (found : Option UserElf) {elf : UserElf}
      → audit variant bits ms found ≡ some (ok (some elf))
      → (found ≡ some elf) ⊎ IsElfOf ms elf
  unfolding audit
  audit-IsElfOf [] found h = inl cc
  audit-IsElfOf (m ∷ ms) found {elf = elf} h =
      elim (entry_step_cases (normal_name m.text) m.body found (audit variant bits ms) (some elf)
        h) [
          | inl e ↦ inl (sym e)
          | inr (no_module, no_trailer, (found', visited, rest)) ↦
              elim (audit-IsElfOf ms found' rest) [
                | inr i ↦ inr (record {
                  before = m ∷ i.before;
                  member = i.member;
                  after = i.after;
                  splits = ap (λ t. m ∷ t) i.splits;
                  passes = ((no_module, no_trailer), i.passes);
                  passes_member = i.passes_member;
                  is_elf = i.is_elf;
                })
                | inl e ↦ elim (visit_cases (normal_name m.text) m.body found found' visited) [
                  | inl e' ↦ inl (sym e' ∙ e)
                  | inr (elf', e', is) ↦ inr (record {
                    before = [];
                    member = m;
                    after = ms;
                    splits = refl;
                    passes = tt;
                    passes_member = (no_module, no_trailer);
                    is_elf =
                        subst (IsElf variant bits (normal_name m.text) m.body)
                          (some-inj (sym e' ∙ e)) is;
                  })
                ]
              ]
        ]

  found-or-error-ok :
      (r : Option (Result (Option UserElf))) {elf : UserElf}
      → finish variant bits r ≡ some (ok elf)
      → r ≡ some (ok (some elf))
  unfolding finish found_or_error
  found-or-error-ok none h = cc
  found-or-error-ok (some (ok (some elf))) h = ap (λ x. some (ok (some x))) (ok-inj (some-inj h))
  found-or-error-ok (some (ok none)) h = absurd (err≢ok (some-inj h))
  found-or-error-ok (some (err e)) h = absurd (err≢ok (some-inj h))

  -- Whatever ELF `user_elf` returns for an archive of members is that of one of its members: it has a
  -- wanted name, the ELF magic number, the class of the word size, the machine RISC-V, and the
  -- variant's float ABI in the flags that are returned; and no member before it, nor itself, lies
  -- under `lib/modules` or `usr/lib/modules` or is the trailer.
  pub user_elf-IsElfOf :
      (ms : List Member) (fuel : ℕ) {elf : UserElf}
      → All IsMember ms
      → length ms < fuel
      → user_elf variant bits fuel (archive ms) ≡ some (ok elf)
      → IsElfOf ms elf
  user_elf-IsElfOf ms fuel {elf = elf} w l h =
      let audited : audit variant bits ms none ≡ some (ok (some elf)) =
        found-or-error-ok _ (sym (user_elf-archive variant bits ms fuel w l) ∙ h) in
      elim (audit-IsElfOf ms none audited) [ inl e ↦ absurd (none≢some e) | inr i ↦ i ]
