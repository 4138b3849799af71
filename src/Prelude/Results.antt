-- ===== src/Prelude/Results.antt =====
-- What a call ends in: a value, a stop by an assertion or a trap of the code (`assertTrue`,
-- `assertNotNull`, `trapIllegalValueIf`), or a memory access outside the object that it is meant for.
-- `stuck` is a loop that does not end, or a loop of the model whose fuel ran out.
use mathlib.Core.Path.{◌≡◌, sym, ap, ◌∙◌}
use mathlib.Core.Bool.{Bool, true, false}
use mathlib.Core.Option.{Option, none, some}

pub data Result {κ} (X : Type κ) : Type κ where
  fault : Result X
  trap : Result X
  stuck : Result X
  ok : X → Result X

infixl 5 ◌>>=◌
abbrev pub ◌>>=◌ {κ ι} : {X : Type κ} {Y : Type ι} → Result X → (X → Result Y) → Result Y
fault >>= next = fault
trap >>= next = trap
stuck >>= next = stuck
ok x >>= next = next x

infixl 5 ◌>>◌
abbrev pub ◌>>◌ {κ} : {Y : Type κ} → Result (Unit {0}) → Result Y → Result Y
first >> second = first >>= (λ u. second)

-- `assertTrue(b, ...)`
abbrev pub assert : Bool → Result (Unit {0})
assert false = trap
assert true = ok tt

-- A counter that overflows: an int has no value then; a loop over an unsigned one does not end.
abbrev pub fault_unless : Bool → Result (Unit {0})
fault_unless false = fault
fault_unless true = ok tt

abbrev pub stuck_unless : Bool → Result (Unit {0})
stuck_unless false = stuck
stuck_unless true = ok tt

-- A read of an array element that is not there is a fault.
abbrev pub or_fault {κ} : {X : Type κ} → Option X → Result X
or_fault (some x) = ok x
or_fault none = fault

pub ok-injective {κ} : {X : Type κ} {x y : X} → ok x ≡ ok y → x ≡ y
ok-injective h = cc

-- The parts of a result that is a pair.
pub ok_pair {κ ι} :
    {X : Type κ} {Y : Type ι} {a c : X} {b d : Y} (m : Result (X × Y))
    → m ≡ ok (a, b)
    → m ≡ ok (c, d)
    → (a ≡ c) × (b ≡ d)
ok_pair m p q = let e = ok-injective (sym p ∙ q) in (ap (λ x. x.0) e, ap (λ x. x.1) e)
