-- ===== src/Base/Chan.antt =====
-- A buffered Go channel: what was sent and not yet received, oldest first, and the capacity.
use Prim.Native.Nat.{ℕ}
use mathlib.Core.List.{List, [], ◌∷◌, ◌++◌}
use mathlib.Core.Option.{Option, none, some}
use pa_bft.Base.Tests.{ltb, if◌then◌else◌}
use pa_bft.Base.Lists.{length}

pub record Chan (A : Type 0) : Type 0 where
  pub cap : ℕ
  pub queue : List A

-- make(chan A, cap)
abbrev pub make_chan : {A : Type 0} → ℕ → Chan A
make_chan cap = record { cap = cap; queue = [] }

-- ch <- a; `none` means that the sender blocks.
abbrev pub send : {A : Type 0} → Chan A → A → Option (Chan A)
send ch a =
    if ltb (length ch.queue) ch.cap then some (record ch { queue = ch.queue ++ a ∷ [] }) else none

-- <-ch; `none` where the receiver waits.
abbrev pub take : {A : Type 0} → Chan A → Option (A × Chan A)
take ch = elim ch.queue [ [] ↦ none | a ∷ rest ↦ some (a, record ch { queue = rest }) ]
