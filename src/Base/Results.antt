-- ===== src/Base/Results.antt =====
-- How a piece of C ends: with a value, in undefined behaviour, waiting for a thread that the
-- schedule does not run again, or by `exit`.
use mathlib.Core.Path.{◌≡◌, refl, subst}
use mathlib.Core.Bool.{Bool, true, false}
use mathlib.Core.Option.{Option, none, some}
use p2pxineplugin.Base.Tests.{if◌then◌else◌}

-- The undefined behaviours that the code can reach.
pub data Fault : Type 0 where
  null_deref out_of_bounds negative_length uninitialised division_by_zero : Fault
  dangling invalid_free double_free bad_argument : Fault

pub data Outcome {ℓ} (A : Type ℓ) : Type ℓ where
  ok : A → Outcome A
  fault : Fault → Outcome A
  blocked : Outcome A
  exited : Outcome A

infixl 5 ◌>>=◌ ◌>>◌
abbrev pub ◌>>=◌ {ℓ κ} : {S : Type ℓ} {T : Type κ} → Outcome S → (S → Outcome T) → Outcome T
blocked >>= _ = blocked
exited >>= _ = exited
fault why >>= _ = fault why
ok s >>= next = next s

-- Goes on only if the test holds.
abbrev pub check : Bool → Fault → Outcome (Unit {0})
check false why = fault why
check true _ = ok tt

-- Runs the second after the first, which has no result to pass on.
abbrev pub ◌>>◌ {ℓ} : {T : Type ℓ} → Outcome (Unit {0}) → Outcome T → Outcome T
first >> second = first >>= λ _. second

-- A read that may miss.
abbrev pub or_fault {ℓ} : {A : Type ℓ} → Option A → Fault → Outcome A
or_fault none e = fault e
or_fault (some a) e = ok a

-- What a bind that succeeds has gone through.
pub >>=-eq-ok {ℓ κ} :
    {S : Type ℓ} {T : Type κ} (run : Outcome S) (next : S → Outcome T) {t : T}
    → (run >>= next) ≡ ok t
    → (s : S) × (run ≡ ok s) × (next s ≡ ok t)
>>=-eq-ok blocked next e = cc
>>=-eq-ok exited next e = cc
>>=-eq-ok (fault why) next e = cc
>>=-eq-ok (ok s) next e = (s, refl, e)

-- It ends with a value, and the value satisfies `P`.
abbrev pub Returns {ℓ} : {A : Type ℓ} → (A → Type 0) → Outcome A → Type 0
Returns P (ok a) = P a
Returns P (fault e) = ⊥
Returns P blocked = ⊥
Returns P exited = ⊥

-- A bind of a computation that returns.
pub Returns-bind :
    {A B : Type 0} (P : A → Type 0) (Q : B → Type 0) (m : Outcome A) (f : A → Outcome B)
    → Returns P m
    → ((a : A) → P a → Returns Q (f a))
    → Returns Q (m >>= f)
Returns-bind P Q (ok a) f h k = k a h
Returns-bind P Q (fault e) f h k = h
Returns-bind P Q blocked f h k = h
Returns-bind P Q exited f h k = h

pub Returns-mono :
    {A : Type 0} (P Q : A → Type 0) (m : Outcome A)
    → Returns P m
    → ((a : A) → P a → Q a)
    → Returns Q m
Returns-mono P Q (ok a) h k = k a h
Returns-mono P Q (fault e) h k = h
Returns-mono P Q blocked h k = h
Returns-mono P Q exited h k = h

-- The value with which a computation ends.
pub Returns-value :
    {A : Type 0} (P : A → Type 0) (m : Outcome A) → Returns P m → (a : A) × (m ≡ ok a) × P a
Returns-value P (ok a) h = (a, refl, h)
Returns-value P (fault e) h = absurd h
Returns-value P blocked h = absurd h
Returns-value P exited h = absurd h

-- If it ends with a value, the value satisfies `P`.
abbrev pub Ensures {ℓ} : {A : Type ℓ} → (A → Type 0) → Outcome A → Type 0
Ensures P (ok a) = P a
Ensures P _ = Unit

pub Ensures-bind :
    {A B : Type 0} (Q : B → Type 0) (m : Outcome A) (f : A → Outcome B)
    → ((a : A) → m ≡ ok a → Ensures Q (f a))
    → Ensures Q (m >>= f)
Ensures-bind Q (ok a) f k = k a refl
Ensures-bind Q (fault e) f k = tt
Ensures-bind Q blocked f k = tt
Ensures-bind Q exited f k = tt

pub Ensures-value :
    {A : Type 0} (P : A → Type 0) (m : Outcome A) {a : A} → Ensures P m → m ≡ ok a → P a
Ensures-value P m h e = subst (Ensures P) e h

pub Ensures-mono :
    {A : Type 0} (P Q : A → Type 0) (m : Outcome A)
    → Ensures P m
    → ((a : A) → P a → Q a)
    → Ensures Q m
Ensures-mono P Q (ok a) h k = k a h
Ensures-mono P Q (fault e) h k = tt
Ensures-mono P Q blocked h k = tt
Ensures-mono P Q exited h k = tt

-- The laws of the bind.
pub bind_assoc :
    {A B C : Type 0} (m : Outcome A) (f : A → Outcome B) (g : B → Outcome C)
    → (m >>= f >>= g) ≡ (m >>= λ a. f a >>= g)
bind_assoc (ok a) f g = refl
bind_assoc (fault e) f g = refl
bind_assoc blocked f g = refl
bind_assoc exited f g = refl

pub bind_ext :
    {A B : Type 0} (m : Outcome A) (f g : A → Outcome B)
    → ((a : A) → f a ≡ g a)
    → (m >>= f) ≡ (m >>= g)
bind_ext (ok a) f g h = h a
bind_ext (fault e) f g h = refl
bind_ext blocked f g h = refl
bind_ext exited f g h = refl

-- It ends with a value that satisfies `P`, or it waits past the end of the schedule.
abbrev pub Safely {ℓ} : {A : Type ℓ} → (A → Type 0) → Outcome A → Type 0
Safely P (ok a) = P a
Safely P (fault e) = ⊥
Safely P blocked = Unit
Safely P exited = ⊥

pub Safely-bind :
    {A B : Type 0} (P : A → Type 0) (Q : B → Type 0) (m : Outcome A) (f : A → Outcome B)
    → Safely P m
    → ((a : A) → P a → Safely Q (f a))
    → Safely Q (m >>= f)
Safely-bind P Q (ok a) f h k = k a h
Safely-bind P Q (fault e) f h k = h
Safely-bind P Q blocked f h k = tt
Safely-bind P Q exited f h k = h

pub Safely-mono :
    {A : Type 0} (P Q : A → Type 0) (m : Outcome A)
    → Safely P m
    → ((a : A) → P a → Q a)
    → Safely Q m
Safely-mono P Q (ok a) h k = k a h
Safely-mono P Q (fault e) h k = h
Safely-mono P Q blocked h k = tt
Safely-mono P Q exited h k = h

pub Safely-if :
    {A : Type 0} (P : A → Type 0) (b : Bool) (t u : Outcome A)
    → (b ≡ true → Safely P t)
    → (b ≡ false → Safely P u)
    → Safely P (if b then t else u)
Safely-if P true t u f g = f refl
Safely-if P false t u f g = g refl

pub bind_ok : {A : Type 0} (m : Outcome A) → (m >>= ok) ≡ m
bind_ok (ok a) = refl
bind_ok (fault e) = refl
bind_ok blocked = refl
bind_ok exited = refl
