-- ===== src/Distro/Proxy/Same.antt =====
-- The proxy of a disk under test is that of its construction.
use mathlib.Core.List.{append_assoc}
use linux_build.Base.{
  List, [], ◌∷◌, ◌++◌, some, Text, codes, join, Result, ok, err, ◌>>=◌, ◌≡◌, ◌≢◌, refl, sym, ap,
  ◌∙◌, Option-cases, inl, inr, true, false, Bool, >>=-eq-ok, ok-inj,
}
use linux_build.Base.Shell.{shell_quote}
use linux_build.Base.Dict.{Dict, lookup}
use linux_build.Distro.Proxy.{
  Url, UrlParse, auth_of, port_text, is_local, https_proxy, export_lines, moved, seen_from_guest,
  guest_of, guest_proxy, export_of, export_value, proxy_export,
}

-- The lines of the script of the guest, as one command; without them, one that does nothing.
abbrev pub as_command : List Text → Text
as_command [] = codes "true"
as_command (l ∷ ls) = join (codes "; ") (l ∷ ls)

-- A URL with a host is not the empty text.
pub record KeepsHost (u : UrlParse) : Type 0 where
  pub kept :
      (scheme auth rest path query fragment : Text)
      → u.urlunsplit scheme (auth ++ (codes "10.0.2.2" ++ rest)) path query fragment ≢ []

module _ (u : UrlParse) where
  -- A proxy that is set for the guest itself is one that the guest can reach: its host is not this machine.
  abbrev pub IsReachable : Dict Text → Type 0
  IsReachable env =
      (v : Text) → lookup (codes "DISTRO_GUEST_PROXY") env ≡ some v → seen_from_guest u v ≡ ok v

  exported : Text → Result Text
  exported v = ok (as_command (export_lines v))

  export_of-as_command : (v : Text) → v ≢ [] → export_of u v ≡ as_command (export_lines v)
  unfolding export_lines join
  export_of-as_command [] h = absurd (h refl)
  export_of-as_command (c ∷ s) h = sym (
      append_assoc (codes "export http_proxy=") (shell_quote (c ∷ s))
        (codes "; export https_proxy=\"$http_proxy\""))

  moved_not_empty :
      KeepsHost u
      → (value : Text) (url : Url) (b : Bool) {v : Text} → value ≢ []
      → moved u value url b ≡ ok v
      → v ≢ []
  unfolding moved
  moved_not_empty k value url false full h e = full (ok-inj h ∙ e)
  moved_not_empty k value url true full h e =
      let (port, e₁, h₁) = >>=-eq-ok url.port _ h in
      k.kept url.scheme (auth_of url.netloc) (port_text port) url.path url.query url.fragment
        (ok-inj h₁ ∙ e)

  seen_from_guest_not_empty :
      KeepsHost u → (value : Text) {v : Text} → value ≢ [] → seen_from_guest u value ≡ ok v → v ≢ []
  unfolding seen_from_guest
  seen_from_guest_not_empty k value full h =
      let (url, e₁, h₁) = >>=-eq-ok (u.urlsplit value) _ h in
      moved_not_empty k value url (is_local url.hostname) full h₁

  -- What is done with the value that the two scripts have in common.
  with_exported :
      (r : Result Text)
      → ((v : Text) → r ≡ ok v → v ≢ [])
      → (r >>= λ v. ok (export_of u v)) ≡ (r >>= exported)
  unfolding exported
  with_exported (err x) h = refl
  with_exported (ok v) h = ap ok (export_of-as_command v (h v refl))

  export_value-guest_of :
      KeepsHost u → (value : Text) → export_value u value ≡ (guest_of u value >>= exported)
  unfolding export_value guest_of exported export_lines
  export_value-guest_of k [] = refl
  export_value-guest_of k (c ∷ s) =
      with_exported (seen_from_guest u (c ∷ s))
        (λ v e. seen_from_guest_not_empty k (c ∷ s) (λ x. cc) e)

  export_value_reachable :
      (value : Text) → seen_from_guest u value ≡ ok value → export_value u value ≡ exported value
  unfolding export_value exported export_lines
  export_value_reachable [] h = refl
  export_value_reachable (c ∷ s) h = rw h (ap ok (export_of-as_command (c ∷ s) (λ x. cc)))

  -- The shell in which a disk is tested is given the proxy by the same commands, joined in one line, as the script
  -- that provisions the disk has as lines, and fails to find one when that does; where a proxy set for the guest is
  -- one that the guest can reach.
  pub proxy_export-guest_proxy :
      KeepsHost u
      → (env : Dict Text) → IsReachable env
      → proxy_export u env ≡ (guest_proxy u env >>= λ v. ok (as_command (export_lines v)))
  unfolding proxy_export guest_proxy exported
  proxy_export-guest_proxy k env h = elim (Option-cases (lookup (codes "DISTRO_GUEST_PROXY") env)) [
    | inl e ↦ rw (e, proxy_export, guest_proxy) (export_value-guest_of k (https_proxy env))
    | inr (v, e) ↦ rw (e, proxy_export, guest_proxy) (export_value_reachable v (h v e))
  ]
