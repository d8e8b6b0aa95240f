-- ===== src/Base/Reach.antt =====
-- What holds of the result of a piece of Go code, where it returns one, step by step of the code.
use mathlib.Core.Path.{◌≡◌, refl, subst}
use mathlib.Core.Bool.{Bool, true, false}
use mathlib.Core.List.{[], ◌∷◌, ◌++◌}
use mathlib.Core.Option.{Option, none, some}
use pa_bft.Base.Tests.{ltb, if◌then◌else◌}
use pa_bft.Base.Lists.{length}
use pa_bft.Base.Chan.{Chan, send}
use pa_bft.Base.Outcome.{Outcome, ok, panic, blocked, out_of_fuel, ◌>>=◌, sent, deref}

abbrev OfResult : {A : Type 0} → Outcome A → (A → Type 0) → Type 0
OfResult (ok a) q = q a
OfResult _ q = Unit {0}

-- The piece does not return, or returns what has the property.
pub record Holds {A : Type 0} (m : Outcome A) (q : A → Type 0) : Type 0 where
  pub of_result : OfResult m q

pub Holds-ok : {A : Type 0} {a : A} {q : A → Type 0} → q a → Holds (ok a) q
Holds-ok h = record { of_result = h }

-- A value that is read off a piece that returned.
pub Holds-returned :
    {A : Type 0} {a : A} {m : Outcome A} {q : A → Type 0} → Holds m q → m ≡ ok a → q a
Holds-returned {A} {a} {m} {q} h e =
    (let r : Holds (ok a) q = subst (λ n. Holds n q) e h in r).of_result

pub Holds-bind :
    {A B : Type 0} {m : Outcome A} {f : A → Outcome B} {q : A → Type 0} {r : B → Type 0}
    → Holds m q
    → ((a : A) → m ≡ ok a → q a → Holds (f a) r)
    → Holds (m >>= f) r
Holds-bind {m = m} h next = go m h next
  where
    go :
        {A B : Type 0} {f : A → Outcome B} {q : A → Type 0} {r : B → Type 0} (m : Outcome A)
        → Holds m q
        → ((a : A) → m ≡ ok a → q a → Holds (f a) r)
        → Holds (m >>= f) r
    go (ok a) h next = next a refl h.of_result
    go panic h next = record { of_result = tt }
    go blocked h next = record { of_result = tt }
    go out_of_fuel h next = record { of_result = tt }

pub Holds-map :
    {A : Type 0} {m : Outcome A} {q r : A → Type 0} → Holds m q → ((a : A) → q a → r a) → Holds m r
Holds-map {m = m} h f = go m h f
  where
    go :
        {A : Type 0} {q r : A → Type 0} (m : Outcome A)
        → Holds m q
        → ((a : A) → q a → r a)
        → Holds m r
    go (ok a) h f = Holds-ok (f a h.of_result)
    go panic h f = record { of_result = tt }
    go blocked h f = record { of_result = tt }
    go out_of_fuel h f = record { of_result = tt }

pub Holds-panic : {A : Type 0} {q : A → Type 0} → Holds panic q
Holds-panic = record { of_result = tt }

pub Holds-fuel : {A : Type 0} {q : A → Type 0} → Holds out_of_fuel q
Holds-fuel = record { of_result = tt }

pub Holds-any : {A : Type 0} (m : Outcome A) → Holds m (λ a. Unit {0})
Holds-any (ok a) = record { of_result = tt }
Holds-any panic = record { of_result = tt }
Holds-any blocked = record { of_result = tt }
Holds-any out_of_fuel = record { of_result = tt }

-- A pointer that is dereferenced, and an element that is read.
pub Holds-deref : {A : Type 0} (v : Option A) → Holds (deref v) (λ a. v ≡ some a)
Holds-deref none = record { of_result = tt }
Holds-deref (some a) = record { of_result = refl }

-- A send and what follows: where there was room, what was sent stands at the end.
pub Holds-send :
    {A B : Type 0} {r : B → Type 0} (ch : Chan A) (a : A) (f : Chan A → Outcome B)
    → (ltb (length ch.queue) ch.cap ≡ true → Holds (f (record ch { queue = ch.queue ++ a ∷ [] })) r)
    → Holds (sent (send ch a) >>= f) r
Holds-send ch a f next =
    go (ltb (length ch.queue) ch.cap) (record ch { queue = ch.queue ++ a ∷ [] }) f next
  where
    go :
        {A B : Type 0} {r : B → Type 0} (room : Bool) (ch : Chan A) (f : Chan A → Outcome B)
        → (room ≡ true → Holds (f ch) r)
        → Holds (sent (if room then some ch else none) >>= f) r
    go true ch f next = next refl
    go false ch f next = record { of_result = tt }

pub Holds-if :
    {A : Type 0} {m n : Outcome A} {q : A → Type 0} (test : Bool)
    → (test ≡ true → Holds m q)
    → (test ≡ false → Holds n q)
    → Holds (if test then m else n) q
Holds-if true h k = h refl
Holds-if false h k = k refl

pub Holds-elim :
    {A B : Type 0} {m : Outcome B} {n : A → Outcome B} {q : B → Type 0} (v : Option A)
    → (v ≡ none → Holds m q)
    → ((a : A) → v ≡ some a → Holds (n a) q)
    → Holds (elim v [ none ↦ m | some a ↦ n a ]) q
Holds-elim none h k = h refl
Holds-elim (some a) h k = k a refl

-- A test that is taken apart by its cases.
pub Holds-test :
    {A : Type 0} {m n : Outcome A} {q : A → Type 0} (test : Bool)
    → (test ≡ true → Holds m q)
    → (test ≡ false → Holds n q)
    → Holds (elim test [ false ↦ n | true ↦ m ]) q
Holds-test true h k = h refl
Holds-test false h k = k refl

-- A property that follows from what the piece returns.
pub Holds-from :
    {A : Type 0} {q : A → Type 0} (m : Outcome A) → ((a : A) → m ≡ ok a → q a) → Holds m q
Holds-from (ok a) h = Holds-ok (h a refl)
Holds-from panic h = record { of_result = tt }
Holds-from blocked h = record { of_result = tt }
Holds-from out_of_fuel h = record { of_result = tt }
