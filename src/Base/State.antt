-- ===== src/Base/State.antt =====
-- Actions on a state that may stop with a fault: what was done to the state before it stays.
use mathlib.Core.Path.{◌≡◌, refl, ap}
use linux_build.Base.Results.{Result, ok, err, Fault, ok-inj}
use native.Mathlib.Omega.{arith}

abbrev pub Action : Type 0 → Type 0 → Type 0
Action St A = St → St × Result A

infixl 5 ◌>>=◌ ◌>>◌
abbrev pub ◌>>=◌ : {St A B : Type 0} → Action St A → (A → Action St B) → Action St B
◌>>=◌ act next s = let (s', r) = act s in elim r [ err fault ↦ (s', err fault) | ok a ↦ next a s' ]

abbrev pub ◌>>◌ : {St B : Type 0} → Action St (Unit {0}) → Action St B → Action St B
first >> second = first >>= λ _. second

abbrev pub give : {St A : Type 0} → A → Action St A
give a s = (s, ok a)

abbrev pub lift : {St A : Type 0} → Result A → Action St A
lift r s = (s, r)

pub fault-gives_nothing :
    {St A : Type 0} {s s' : St} {x : Fault} {a : A}
    → ◌≡◌ {A = St × Result A} (s, err x) (s', ok a)
    → ⊥
fault-gives_nothing h = ground arith

-- When a sequence of two actions succeeds, so does each.
pub bind-eq-ok :
    {St A B : Type 0} (act : Action St A) (next : A → Action St B) (s : St) {s' : St} {b : B}
    → (act >>= next) s ≡ (s', ok b)
    → (t : St) × (a : A) × (act s ≡ (t, ok a)) × (next a t ≡ (s', ok b))
bind-eq-ok {St} {A} {B} act next s {s'} {b} h = go (act s) refl h
  where
    go :
        (p : St × Result A)
        → act s ≡ p
        → ◌>>=◌ {St = St} {A = A} {B = B} (λ t. p) next s ≡ (s', ok b)
        → (t : St) × (a : A) × (act s ≡ (t, ok a)) × (next a t ≡ (s', ok b))
    go (t, ok a) q h = (t, a, q, h)
    go (t, err x) q h = absurd (fault-gives_nothing h)

pub lift-eq-ok :
    {St A : Type 0} (r : Result A) (s : St) {s' : St} {a : A}
    → lift r s ≡ (s', ok a)
    → (r ≡ ok a) × (s ≡ s')
lift-eq-ok r s h = (ap (λ x. x.1) h, ap (λ x. x.0) h)

pub give-eq-ok :
    {St A : Type 0} {a b : A} {s s' : St} → ◌≡◌ {A = St × Result A} (s, ok a) (s', ok b) → a ≡ b
give-eq-ok h = ok-inj (ap (λ p. p.1) h)
