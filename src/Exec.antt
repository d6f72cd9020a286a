-- ===== src/Exec.antt =====
-- Calls that read and write a state and may return early with an error (`anyhow::Result` and `?`).
-- What was written before the error stays written: the agent opens no transactions.
use mathlib.Core.Path.{subst}
use session_restore.Common.{List, [], ◌∷◌, ◌≡◌, refl}

-- `constraint` is SQLite's refusal of a row (PRIMARY KEY, CHECK or FOREIGN KEY).
pub data Error : Type 0 where
  constraint live_state no_such_row private_disabled bad_entropy bad_key bad_nonce bad_crypto :
      Error
  bad_json no_executable unknown_browser no_start unknown_restore_mode newer_schema : Error

pub data Outcome {ℓ} (A : Type ℓ) : Type ℓ where
  ok : A → Outcome A
  err : Error → Outcome A

abbrev pub Exec {ℓ κ} : Type ℓ → Type κ → Type (ℓ ⊔ κ)
Exec S A = S → Outcome A × S

module _ {ℓ κ} {S : Type ℓ} {A : Type κ} where
  abbrev pub pure : A → Exec S A
  pure a s = (ok a, s)

  abbrev pub raise : Error → Exec S A
  raise e s = (err e, s)

  abbrev pub lift : Outcome A → Exec S A
  lift r s = (r, s)

  abbrev pub gets : (S → A) → Exec S A
  gets f s = (ok (f s), s)

abbrev pub modify {ℓ} : {S : Type ℓ} → (S → S) → Exec S (Unit {0})
modify f s = (ok tt, f s)

module _ {ℓ κ μ} {S : Type ℓ} {A : Type κ} {B : Type μ} where
  abbrev pub continue : Outcome A → (A → Exec S B) → Exec S B
  continue (ok a) f s = f a s
  continue (err e) f s = (err e, s)

  infixl 5 ◌>>=◌ ◌>>◌
  abbrev pub ◌>>=◌ : Exec S A → (A → Exec S B) → Exec S B
  ◌>>=◌ m f s = continue (m s).0 f (m s).1

  abbrev pub ◌>>◌ : Exec S A → Exec S B → Exec S B
  m >> n = m >>= λ _. n

-- `for x in xs { f(x)?; }`
unfoldable pub for_each {ℓ κ} :
    {S : Type ℓ} {A : Type κ} → (A → Exec S (Unit {0})) → List A → Exec S (Unit {0})
for_each f [] = pure tt
for_each f (x ∷ xs) = f x >> for_each f xs

-- A property that a call keeps, whether it returns or stops with an error.
abbrev pub Keeps {ℓ κ μ} : {S : Type ℓ} {A : Type κ} → (S → Type μ) → Exec S A → Type (ℓ ⊔ μ)
Keeps {S = S} P m = (s : S) → P s → P (m s).1

module _ {ℓ κ μ ν} {S : Type ℓ} {A : Type κ} {B : Type μ} (P : S → Type ν) where
  pub continue-Keeps :
      (r : Outcome A) (f : A → Exec S B) → ((a : A) → Keeps P (f a)) → Keeps P (continue r f)
  continue-Keeps (ok a) f kf s h = kf a s h
  continue-Keeps (err e) f kf s h = h

  pub bind-Keeps :
      (m : Exec S A) (f : A → Exec S B) → Keeps P m → ((a : A) → Keeps P (f a)) → Keeps P (m >>= f)
  bind-Keeps m f km kf s h = continue-Keeps (m s).0 f kf (m s).1 (km s h)

pub for_each-Keeps {ℓ κ ν} :
    {S : Type ℓ} {A : Type κ} (P : S → Type ν) (f : A → Exec S (Unit {0}))
    → ((a : A) → Keeps P (f a))
    → (xs : List A) → Keeps P (for_each f xs)
unfolding for_each
for_each-Keeps P f kf [] s h = h
for_each-Keeps P f kf (x ∷ xs) s h =
    bind-Keeps P (f x) (λ _. for_each f xs) (kf x) (λ _. for_each-Keeps P f kf xs) s h

-- A property of whatever a call returns.
abbrev pub Yields {ℓ κ μ} : {S : Type ℓ} {A : Type κ} → (A → Type μ) → Exec S A → Type (ℓ ⊔ κ ⊔ μ)
Yields {S = S} {A = A} P m = (s : S) (a : A) → (m s).0 ≡ ok a → P a

pub ok_inj {ℓ} : {A : Type ℓ} (a b : A) → ok a ≡ ok b → a ≡ b
ok_inj a b h = cc

module _ {ℓ κ μ ν} {S : Type ℓ} {A : Type κ} {B : Type μ} (P : B → Type ν) where
  pub continue-Yields :
      (r : Outcome A) (f : A → Exec S B) (s : S) (b : B)
      → ((a : A) → r ≡ ok a → Yields P (f a))
      → (continue r f s).0 ≡ ok b
      → P b
  continue-Yields (ok a) f s b h e = h a refl s b e
  continue-Yields (err x) f s b h e = cc

module _ {ℓ κ ν} {S : Type ℓ} {B : Type κ} (P : B → Type ν) where
  pub pure-Yields : (b : B) → P b → Yields {S = S} P (pure b)
  pure-Yields b h s c e = subst P (ok_inj b c e) h

-- A property of what a call returns and of the state that it leaves.
module _ {ℓ κ μ ν} {S : Type ℓ} {A : Type κ} {B : Type μ} (Q : B → S → Type ν) where
  pub continue-leads :
      (r : Outcome A) (f : A → Exec S B) (s : S) (b : B)
      → ((a : A) → r ≡ ok a → (f a s).0 ≡ ok b → Q b (f a s).1)
      → (continue r f s).0 ≡ ok b
      → Q b (continue r f s).1
  continue-leads (ok a) f s b h e = h a refl e
  continue-leads (err x) f s b h e = cc
