-- ===== src/Base/Outcome.antt =====
-- What a piece of Go code may do: return, panic (a nil pointer or an index out of range), or block for
-- ever on a channel that nobody drains. `out_of_fuel` is that of a loop on fuel, and is proved not to
-- occur.
use mathlib.Core.Path.{◌≡◌, refl}
use mathlib.Core.Logic.{◌≢◌}
use mathlib.Core.Bool.{Bool, true, false}
use mathlib.Core.Option.{Option, none, some}

pub data Outcome (A : Type 0) : Type 0 where
  ok : A → Outcome A
  panic blocked out_of_fuel : Outcome A

infixl 5 ◌>>=◌
abbrev pub ◌>>=◌ : {A B : Type 0} → Outcome A → (A → Outcome B) → Outcome B
ok a >>= f = f a
panic >>= f = panic
blocked >>= f = blocked
out_of_fuel >>= f = out_of_fuel

-- A value that must be there: a pointer that is dereferenced, an element at an index.
abbrev pub deref : {A : Type 0} → Option A → Outcome A
deref none = panic
deref (some a) = ok a

-- A send on a channel.
abbrev pub sent : {A : Type 0} → Option A → Outcome A
sent none = blocked
sent (some a) = ok a

abbrev pub returns : {A : Type 0} → Outcome A → Bool
returns (ok a) = true
returns _ = false

pub returns-ok : {A : Type 0} (m : Outcome A) → returns m ≡ true → (a : A) × (m ≡ ok a)
returns-ok (ok a) h = (a, refl)
returns-ok panic h = cc
returns-ok blocked h = cc
returns-ok out_of_fuel h = cc

-- A sequence that returns has returned from its first piece.
pub bind-returns :
    {A B : Type 0} {b : B} (m : Outcome A) (rest : A → Outcome B)
    → (m >>= rest) ≡ ok b
    → (a : A) × (rest a ≡ ok b) × (m ≡ ok a)
bind-returns panic rest h = cc
bind-returns blocked rest h = cc
bind-returns out_of_fuel rest h = cc
bind-returns (ok a) rest h = (a, h, refl)

-- A sequence of two pieces has fuel enough if both have.
pub >>=-ends :
    {A B : Type 0} (m : Outcome A) (f : A → Outcome B)
    → m ≢ out_of_fuel
    → ((a : A) → m ≡ ok a → f a ≢ out_of_fuel)
    → (m >>= f) ≢ out_of_fuel
>>=-ends (ok a) f hm hf h = hf a refl h
>>=-ends panic f hm hf h = cc
>>=-ends blocked f hm hf h = cc
>>=-ends out_of_fuel f hm hf h = hm refl

-- The result of a sequence from those of its pieces.
pub bind-ok :
    {A B : Type 0} {r : Outcome B} (m : Outcome A) (a : A) (f : A → Outcome B)
    → m ≡ ok a
    → f a ≡ r
    → (m >>= f) ≡ r
bind-ok m a f h e = rw h e

-- Sequences that go on alike are alike.
pub bind-same :
    {A B C : Type 0} (m : Outcome A) (f : A → Outcome B) (g : A → Outcome C) (h : C → Outcome B)
    → ((a : A) → f a ≡ (g a >>= h))
    → (m >>= f) ≡ ((m >>= g) >>= h)
bind-same (ok a) f g h same = same a
bind-same panic f g h same = refl
bind-same blocked f g h same = refl
bind-same out_of_fuel f g h same = refl
