-- ===== src/PackageTest/Cpio/Endless.antt =====
-- An archive on which `user_elf` does not end: the size field of a header may be negative.
use linux_build.Base.{
  ℕ, zero, suc, true, false, ◌≡◌, refl, Option, none, ℤ, pos, ◌+ℤ◌, leb_ℤ, length, Text, text_eq,
  Result, ok, ap, ◌∙◌, ◌&&◌, text_in, starts_with,
}
use linux_build.Base.Bytes.{Bytes}
use linux_build.PackageTest.Cpio.{
  UserElf, Entry, read_entry, walk, finish, user_elf, is_module, trailer, visit, entry_step, wanted,
  elf_magic,
}

module _ (variant : Text) (bits : ℕ) where
  entry_step-skip :
      (name : Text) (body : Bytes) (found : Option UserElf)
      (go_on : Option UserElf → Option (Result (Option UserElf)))
      → is_module variant bits name ≡ false
      → text_eq name trailer ≡ false
      → (text_in name (wanted variant bits) && starts_with body elf_magic) ≡ false
      → entry_step variant bits name body found go_on ≡ go_on found
  unfolding entry_step visit
  entry_step-skip name body found go_on m t v = rw (m, t, v, entry_step, visit) refl

  walk-repeats :
      (d : Bytes) (off : ℤ) (e : Entry)
      → leb_ℤ (off +ℤ pos 110) (pos (length d)) ≡ true
      → read_entry d off ≡ ok e
      → e.next ≡ off
      → is_module variant bits e.name ≡ false
      → text_eq e.name trailer ≡ false
      → (text_in e.name (wanted variant bits) && starts_with e.body elf_magic) ≡ false
      → (fuel : ℕ) (found : Option UserElf) → walk variant bits fuel d off found ≡ none
  unfolding walk
  walk-repeats d off e fits read back m t v zero found = refl
  walk-repeats d off e fits read back m t v (suc fuel) found =
      let rest = walk-repeats d off e fits read back m t v fuel found in
      rw (fits, read, walk)
        (entry_step-skip e.name e.body found (walk variant bits fuel d e.next) m t v
          ∙ ap (λ o. walk variant bits fuel d o found) back
          ∙ rest)

  -- When the first header of the data gives the place of the first header again as that of the next
  -- one, and its name is nothing that `user_elf` looks for, the loop never ends, on any fuel.
  pub user_elf_endless :
      (d : Bytes) (e : Entry)
      → leb_ℤ (pos 110) (pos (length d)) ≡ true
      → read_entry d (pos 0) ≡ ok e
      → e.next ≡ pos 0
      → is_module variant bits e.name ≡ false
      → text_eq e.name trailer ≡ false
      → (text_in e.name (wanted variant bits) && starts_with e.body elf_magic) ≡ false
      → (fuel : ℕ) → user_elf variant bits fuel d ≡ none
  unfolding user_elf finish
  user_elf_endless d e fits read back m t v fuel =
      rw (walk-repeats d (pos 0) e fits read back m t v fuel none, user_elf) refl
