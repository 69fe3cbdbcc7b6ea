-- ===== src/Distro/Build/Steps.antt =====
-- The steps of `build` of scripts/build-distro.py when they succeed.
use linux_build.Base.{
  Bool, true, false, not, os_error, Option, none, some, Text, text_eq, text_eq_refl, Result, ok,
  err, Option-cases, inl, inr, ◌≡◌, refl, ap, ◌∙◌, sym,
}
use linux_build.Base.Dict.{lookup, insert, lookup-insert}
use linux_build.Base.State.{give-eq-ok, fault-gives_nothing}
use linux_build.Distro.Build.{
  Outside, Sources, Paths, Files, demand, log_path, without_returns, hash_of, read_log,
}

pub demand-eq-ok :
    (b : Bool) (message : Text) (files : Files) {files' : Files}
    → demand b message files ≡ (files', ok tt)
    → (b ≡ true) × (files' ≡ files)
demand-eq-ok true message files h = (refl, ap (λ x. x.0) (sym h))
demand-eq-ok false message files h = absurd (fault-gives_nothing h)

pub not-true : (b : Bool) → not b ≡ true → b ≡ false
not-true false h = refl
not-true true h = cc

pub lookup_other :
    (k j : Text) (v : Text) (d : Files) → text_eq j k ≡ false → lookup j (insert k v d) ≡ lookup j d
lookup_other k j v d h = lookup-insert k j v d ∙ rw h refl

pub lookup_own : (k : Text) (v : Text) (d : Files) → lookup k (insert k v d) ≡ some v
lookup_own k v d = lookup-insert k k v d ∙ rw (text_eq_refl k) refl

-- A file with the hash that is recorded.
abbrev pub HasHash : Outside → Files → Text → Text → Type 0
HasHash out files path hash =
    (content : Text) × (lookup path files ≡ some content) × (hash ≡ out.sha content)

pub hash_of-eq-ok :
    (out : Outside) (s : Sources) (p : Paths) (pristine : Bool) (path : Text) (files : Files)
    {files' : Files} {h : Text}
    → hash_of out s p pristine path files ≡ (files', ok h)
    → (files' ≡ files) × HasHash out files path h
unfolding hash_of
hash_of-eq-ok out s p pristine path files h = elim (Option-cases (lookup path files)) [
  | inl e ↦ absurd (fault-gives_nothing (rw (e, hash_of) at h))
  | inr (content, e) ↦
      let h' = rw (e, hash_of) at h in (ap (λ x. x.0) (sym h'), (content, e, sym (give-eq-ok h')))
]

module _ (out : Outside) (s : Sources) (p : Paths) (pristine : Bool) where
  pub read_log-eq-ok :
      (files : Files) {files' : Files} {text : Text}
      → read_log out s p pristine files ≡ (files', ok text)
      → (log : Text) × (lookup (log_path p.disk) files ≡ some log)
        × (text ≡ without_returns (out.decode_log log))
        × (files' ≡ files)
  read_log-eq-ok files {files'} {text} h = go (lookup (log_path p.disk) files) refl h
    where
      step : Option Text → Files × Result Text
      step o = elim o [
        | none ↦ (files, err (os_error (log_path p.disk)))
        | some log ↦ (files, ok (without_returns (out.decode_log log)))
      ]

      go :
          (o : Option Text)
          → lookup (log_path p.disk) files ≡ o
          → step o ≡ (files', ok text)
          → (log : Text) × (lookup (log_path p.disk) files ≡ some log)
            × (text ≡ without_returns (out.decode_log log))
            × (files' ≡ files)
      go none e h = absurd (fault-gives_nothing h)
      go (some log) e h = (log, e, sym (give-eq-ok h), ap (λ x. x.0) (sym h))
