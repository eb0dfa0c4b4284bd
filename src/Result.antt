-- ===== src/Result.antt =====
-- Results of code that throws: an `int` that is an HTTP status code, or a std::exception. A method
-- of the program gives the object as it is left and such a result.
use ok.Base.{ℕ, Option, none, some}

pub data Fault : Type 0 where
  out_of_range end_of_file io_error null_pointer : Fault
  -- a loop of the model that ran out of rounds
  stuck : Fault

pub data Result {ℓ} (A : Type ℓ) : Type ℓ where
  done : A → Result A
  thrown : ℕ → Result A
  failed : Fault → Result A

abbrev pub Act : Type 0 → Type 0 → Type 0
Act S A = S → S × Result A

abbrev pub and_then : {S A B : Type 0} → S × Result A → (A → Act S B) → S × Result B
and_then (s, done a) f = f a s
and_then (s, thrown n) f = (s, thrown n)
and_then (s, failed e) f = (s, failed e)

infixl 5 ◌>>=◌ ◌>>◌
abbrev pub ◌>>=◌ : {S A B : Type 0} → Act S A → (A → Act S B) → Act S B
◌>>=◌ m f s = and_then (m s) f

abbrev pub ◌>>◌ : {S A B : Type 0} → Act S A → Act S B → Act S B
◌>>◌ m k s = and_then (m s) (λ _. k)

abbrev pub pure : {S A : Type 0} → A → Act S A
pure a s = (s, done a)

abbrev pub get : {S : Type 0} → Act S S
get s = (s, done s)

abbrev pub modify : {S : Type 0} → (S → S) → Act S (Unit {0})
modify f s = (f s, done tt)

-- `throw n`.
abbrev pub throw : {S A : Type 0} → ℕ → Act S A
throw n s = (s, thrown n)

abbrev pub lift : {S A : Type 0} → Result A → Act S A
lift r s = (s, r)

abbrev pub or_throw : {S A : Type 0} → Option A → ℕ → Act S A
or_throw none n s = (s, thrown n)
or_throw (some a) n s = (s, done a)
