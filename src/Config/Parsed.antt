-- ===== src/Config/Parsed.antt =====
-- Results of the code that reads the configuration's lines, srcs/ServerConfigIdx: an `int` that is 1
-- or -1, and what the language leaves undefined.
use ok.Base.{◌≡◌, ◌≢◌, refl}

pub data Parsed {ℓ} (A : Type ℓ) : Type ℓ where
  good : A → Parsed A
  -- the result -1
  refused : Parsed A
  -- a read behind the end of a vector, or of a value that was never set
  undefined : Parsed A
  -- a loop of the model that ran out of rounds
  stuck : Parsed A

infixl 5 ◌>>=◌
abbrev pub ◌>>=◌ {ℓ κ} : {A : Type ℓ} {B : Type κ} → Parsed A → (A → Parsed B) → Parsed B
good a >>= f = f a
refused >>= f = refused
undefined >>= f = undefined
stuck >>= f = stuck

-- What a chain of results tells of its parts.
pub bind-good {ℓ κ} :
    {A : Type ℓ} {B : Type κ} (m : Parsed A) (f : A → Parsed B) (b : B)
    → (m >>= f) ≡ good b
    → (a : A) × (m ≡ good a) × (f a ≡ good b)
bind-good (good a) f b h = (a, refl, h)
bind-good refused f b h = absurd (cc h)
bind-good undefined f b h = absurd (cc h)
bind-good stuck f b h = absurd (cc h)

pub bind-ne-stuck {ℓ κ} :
    {A : Type ℓ} {B : Type κ} (m : Parsed A) (f : A → Parsed B)
    → m ≢ stuck
    → ((a : A) → f a ≢ stuck)
    → (m >>= f) ≢ stuck
bind-ne-stuck (good a) f h k = k a
bind-ne-stuck refused f h k = λ e. cc e
bind-ne-stuck undefined f h k = λ e. cc e
bind-ne-stuck stuck f h k = absurd (h refl)
