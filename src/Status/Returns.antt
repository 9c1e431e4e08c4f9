-- ===== src/Status/Returns.antt =====
-- Outcomes of actions: `Returns Q E r` says that `r` is a success that meets `Q` or a failure that
-- leaves a state that meets `E`. With `E` empty the action succeeds.
use sqlite_on_gcs_rapid.Status.{Code, Result, ok, err, Exec, continue, ◌>>=◌}

pub data Returns {ℓ κ μ} {S : Type ℓ} {A : Type κ} (Q : A → S → Type μ) (E : S → Type μ)
    : Result A × S → Type (ℓ ⊔ κ ⊔ μ) where
  done : {a : A} {s : S} → Q a s → Returns Q E (ok a, s)
  failed : {c : Code} {s : S} → E s → Returns Q E (err c, s)

module _ {ℓ κ μ} {S : Type ℓ} {A : Type κ} {Q : A → S → Type μ} {E : S → Type μ} where
  pub Returns-weaken :
      {Q' : A → S → Type μ} {E' : S → Type μ} {r : Result A × S}
      → Returns Q E r
      → ((a : A) (s : S) → Q a s → Q' a s)
      → ((s : S) → E s → E' s)
      → Returns Q' E' r
  Returns-weaken (done q) f g = done (f _ _ q)
  Returns-weaken (failed e) f g = failed (g _ e)

module _ {ℓ κ κ' μ} {S : Type ℓ} {A : Type κ} {B : Type κ'} {Q : A → S → Type μ} {E : S → Type μ}
    {Q' : B → S → Type μ} {E' : S → Type μ} where
  bind_outcome :
      (r : Result A × S) (f : A → Exec S B)
      → Returns Q E r
      → ((a : A) (s : S) → Q a s → Returns Q' E' (f a s))
      → ((s : S) → E s → E' s)
      → Returns Q' E' (continue r.0 f r.1)
  bind_outcome r f (done q) k g = k _ _ q
  bind_outcome r f (failed e) k g = failed (g _ e)

  -- The rule for a sequence of two actions.
  pub Returns-bind :
      (m : Exec S A) (f : A → Exec S B) (s : S)
      → Returns Q E (m s)
      → ((a : A) (s' : S) → Q a s' → Returns Q' E' (f a s'))
      → ((s' : S) → E s' → E' s')
      → Returns Q' E' ((m >>= f) s)
  Returns-bind m f s h k g = bind_outcome (m s) f h k g
