-- ===== src/Base/Outcome.antt =====
-- How a function of the kernel ends.
-- It ends with a result, in an access that C leaves undefined, or, once its fuel is used up, still in
-- a loop.
pub data Outcome {ℓ} (A : Type ℓ) : Type ℓ where
  done : (a : A) → Outcome A
  undefined : Outcome A
  waits : Outcome A

infixl 5 ◌>>=◌
abbrev pub ◌>>=◌ {ℓ κ} : {A : Type ℓ} {B : Type κ} → Outcome A → (A → Outcome B) → Outcome B
Outcome.done a >>= f = f a
Outcome.undefined >>= f = Outcome.undefined
Outcome.waits >>= f = Outcome.waits

-- Where the code returns, what it returns has the property.
abbrev pub Ends {ℓ} : {A : Type ℓ} → (A → Type 0) → Outcome A → Type 0
Ends P (Outcome.done a) = P a
Ends P Outcome.undefined = Unit
Ends P Outcome.waits = Unit

pub bind-Ends {ℓ κ} :
    {A : Type ℓ} {B : Type κ} (P : A → Type 0) (Q : B → Type 0) (o : Outcome A) (f : A → Outcome B)
    → Ends P o
    → ((a : A) → P a → Ends Q (f a))
    → Ends Q (o >>= f)
bind-Ends P Q (Outcome.done a) f h step = step a h
bind-Ends P Q Outcome.undefined f h step = tt
bind-Ends P Q Outcome.waits f h step = tt
