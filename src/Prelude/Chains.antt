-- ===== src/Prelude/Chains.antt =====
-- Chains of fallible steps, Python's dictionaries built from a list, and numbers in decimals.
use Prim.Native.Nat.{ℕ, zero, suc, ◌/◌, ◌%◌}
use Prim.Native.String.{String, slice, ◌++◌ as str_append}
use mathlib.Core.Path.{◌≡◌, refl}
use mathlib.Core.List.{List, [], ◌∷◌}
use mathlib.Core.Option.{Option, none, some}
use native.Mathlib.Omega.{arith}
use text.Mathlib.Text.{◌==◌ as str_eq}
use text.Mathlib.TextEquality.{eq_iff}
use rule_kiln.Prelude.Tests.{ltb, if◌then◌else◌}

infixl 5 ◌>>=◌
unfoldable pub ◌>>=◌ {ℓ κ} : {A : Type ℓ} {B : Type κ} → Option A → (A → Option B) → Option B
none >>= f = none
some a >>= f = f a

-- A list that must not be empty.
abbrev pub nonempty {ℓ} : {A : Type ℓ} → List A → Option (List A)
nonempty [] = none
nonempty (x ∷ xs) = some (x ∷ xs)

abbrev pub or_else {ℓ} : {A : Type ℓ} → Option A → Option A → Option A
or_else none d = d
or_else (some a) d = some a

-- `{key(x): x for x in xs}.get(k)`: of two entries with one key the later stays.
unfoldable pub last_with {ℓ} : {A : Type ℓ} → (A → String) → String → List A → Option A
last_with key k [] = none
last_with key k (x ∷ xs) = or_else (last_with key k xs) (if str_eq (key x) k then some x else none)

abbrev digit : ℕ → String
digit n = slice "0123456789" n (suc n)

-- The fuel counts the digits; a number has no more digits than one more than itself.
digits : ℕ → ℕ → String
digits zero n = ""
digits (suc fuel) n =
    let rest = digits fuel (n / 10) in
    if ltb n 10 then digit n else str_append rest (digit (n % 10))

-- `str(n)`
unfoldable pub decimal : ℕ → String
unfolding digits
decimal n = digits (suc n) n

-- What the dictionary returns under a key stands in the list, under that key.
pub last_with-Mem {ℓ} :
    {A : Type ℓ} (key : A → String) (k : String) (xs : List A) (a : A)
    → last_with key k xs ≡ some a
    → key a ≡ k
unfolding last_with
last_with-Mem key k [] a e = ground arith
last_with-Mem key k (x ∷ xs) a e = ground (arith, last_with-Mem key k xs a, eq_iff (key x) k)

decimal_run : decimal 1407 ≡ "1407"
unfolding decimal
decimal_run = refl
