-- ===== src/Result.antt =====
-- What a step that may raise an exception of message_status.py returns.
use mathlib.Core.Path.{subst}
use py_aleph.Prelude.{◌≡◌, refl, Bool, if◌then◌else◌, List, [], ◌∷◌}
use py_aleph.Status.{Error}

pub data Result {ℓ} (A : Type ℓ) : Type ℓ where
  raise : Error → Result A
  ok : A → Result A

-- `if b: raise e`.
abbrev pub raise_if : Bool → Error → Result (Unit {0})
raise_if b e = if b then raise e else ok tt

-- An exception skips the statements that follow.
infixl 5 ◌>>=◌
abbrev pub ◌>>=◌ {ℓ κ} : {A : Type ℓ} {B : Type κ} → Result A → (A → Result B) → Result B
raise e >>= next = raise e
ok a >>= next = next a

infixl 5 ◌>>◌
abbrev pub ◌>>◌ {ℓ} : {B : Type ℓ} → Result (Unit {0}) → Result B → Result B
step >> next = step >>= λ done. next

-- A `for` loop whose body changes a state and may raise.
unfoldable pub for_each {ℓ κ} :
    {A : Type ℓ} {S : Type κ} → (A → S → Result S) → List A → S → Result S
for_each f [] s = ok s
for_each f (x ∷ xs) s = f x s >>= λ s'. for_each f xs s'

-- A `for` loop that only checks.
unfoldable pub check_each {ℓ} : {A : Type ℓ} → (A → Result (Unit {0})) → List A → Result (Unit {0})
check_each f [] = ok tt
check_each f (x ∷ xs) = f x >>= λ _. check_each f xs

pub ok_inj {ℓ} : {A : Type ℓ} {a b : A} → ok a ≡ ok b → a ≡ b
ok_inj e = cc (e)

-- A sequence that succeeded, to go on with the value of its first step and what the rest made of it.
pub invert {ℓ κ ι} :
    {A : Type ℓ} {B : Type κ} {C : Type ι} (m : Result A) (next : A → Result B) {b : B}
    → (m >>= next) ≡ ok b
    → ((a : A) → m ≡ ok a → next a ≡ ok b → C)
    → C
invert (raise e) next h k = absurd (cc)
invert (ok a) next h k = k a refl h

-- What every round of a loop keeps, the loop keeps.
pub for_each-keeps {ℓ κ ι} :
    {A : Type ℓ} {S : Type κ} (P : S → Type ι) (f : A → S → Result S)
    → ((a : A) (s t : S) → f a s ≡ ok t → P s → P t)
    → (xs : List A) (s t : S) → for_each f xs s ≡ ok t
    → P s
    → P t
unfolding for_each
for_each-keeps P f k [] s t e h = subst P (cc) h
for_each-keeps P f k (x ∷ xs) s t e h =
    invert (f x s) _ e λ u eu et. for_each-keeps P f k xs u t et (k x s u eu h)
