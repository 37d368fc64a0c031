-- ===== src/Prelude/Monad.antt =====
-- Effects of the source. A read outside a vector is undefined behaviour, so a computation ends in
-- `out_of_bounds` instead of a value; a method that changes an object returns the new object.
use mathlib.Core.Path.{◌≡◌, refl, sym, subst}
use mathlib.Core.Logic.{◌⊎◌, inl, inr}
use mathlib.Core.Option.{Option, none, some}
use joyson_glove_sdk.Prelude.{
  ℕ, ◌<◌, ap, List, length, get_elem?, get_elem?-lt, Bool, true, false, if◌then◌else◌,
}

pub data Checked {ℓ} (A : Type ℓ) : Type ℓ where
  ok : A → Checked A
  out_of_bounds : Checked A

-- The element that `v[i]` or an iterator names.
abbrev pub in_bounds {ℓ} : {A : Type ℓ} → Option A → Checked A
in_bounds none = out_of_bounds
in_bounds (some a) = ok a

infixl 5 ◌>>=◌ ◌>>◌
abbrev pub ◌>>=◌ {ℓ κ} : {A : Type ℓ} {B : Type κ} → Checked A → (A → Checked B) → Checked B
ok a >>= f = f a
out_of_bounds >>= f = out_of_bounds

abbrev pub ◌>>◌ {ℓ} : {B : Type ℓ} → Checked (Unit {0}) → Checked B → Checked B
m >> k = m >>= λ _. k

pub Checked-cases {ℓ} : {A : Type ℓ} (r : Checked A) → (r ≡ out_of_bounds) ⊎ ((a : A) × (r ≡ ok a))
Checked-cases (ok a) = inr (a, refl)
Checked-cases out_of_bounds = inl refl

pub >>=-congr {ℓ κ} :
    {A : Type ℓ} {B : Type κ} (r : Checked A) (f g : A → Checked B)
    → ((a : A) → f a ≡ g a)
    → (r >>= f) ≡ (r >>= g)
>>=-congr (ok a) f g h = h a
>>=-congr out_of_bounds f g h = refl

-- A computation that returns.
abbrev pub Total {ℓ} : {A : Type ℓ} → Checked A → Type ℓ
Total {A} r = (a : A) × (r ≡ ok a)

pub >>=-Total {ℓ κ} :
    {A : Type ℓ} {B : Type κ} (r : Checked A) (f : A → Checked B)
    → Total r
    → ((a : A) → Total (f a))
    → Total (r >>= f)
>>=-Total r f (a, e) h = subst (λ r. Total (r >>= f)) (sym e) (h a)

pub >>=-out_of_bounds {ℓ κ} :
    {A : Type ℓ} {B : Type κ} (r : Checked A) (f : A → Checked B)
    → ((a : A) → f a ≡ out_of_bounds)
    → (r >>= f) ≡ out_of_bounds
>>=-out_of_bounds (ok a) f h = h a
>>=-out_of_bounds out_of_bounds f h = refl

pub out_of_bounds->>= {ℓ κ} :
    {A : Type ℓ} {B : Type κ} (r : Checked A) (f : A → Checked B)
    → r ≡ out_of_bounds
    → (r >>= f) ≡ out_of_bounds
out_of_bounds->>= r f e = subst (λ r. (r >>= f) ≡ out_of_bounds) (sym e) refl

pub if-Total {ℓ} :
    {A : Type ℓ} (b : Bool) (x y : Checked A)
    → (b ≡ true → Total x)
    → (b ≡ false → Total y)
    → Total (if b then x else y)
if-Total true x y h k = h refl
if-Total false x y h k = k refl

-- A computation that returns, with a result that satisfies `P`.
abbrev pub Yields {ℓ} : {A : Type ℓ} → Checked A → (A → Type 0) → Type 0
Yields (ok a) P = P a
Yields out_of_bounds P = ⊥

pub Total-Yields : {A : Type 0} (r : Checked A) → Total r → Yields r (λ a. r ≡ ok a)
Total-Yields (ok a) t = refl
Total-Yields out_of_bounds (a, e) = absurd (out_of_bounds_ne e)
  where
    out_of_bounds_ne : ¬ (out_of_bounds ≡ ok a)
    out_of_bounds_ne e = cc

pub Yields-mono {ℓ} :
    {A : Type ℓ} (r : Checked A) (P Q : A → Type 0)
    → Yields r P
    → ((a : A) → P a → Q a)
    → Yields r Q
Yields-mono (ok a) P Q h k = k a h
Yields-mono out_of_bounds P Q h k = absurd h

pub Yields->>= {ℓ κ} :
    {A : Type ℓ} {B : Type κ} (r : Checked A) (f : A → Checked B) (P : A → Type 0) (Q : B → Type 0)
    → Yields r P
    → ((a : A) → P a → Yields (f a) Q)
    → Yields (r >>= f) Q
Yields->>= (ok a) f P Q h k = k a h
Yields->>= out_of_bounds f P Q h k = absurd h

-- `v[i]` inside `v`.
pub in_bounds-get_elem? :
    {A : Type 0} (v : List A) (i : ℕ) → i < length v → Total (in_bounds (get_elem? v i))
in_bounds-get_elem? v i h = let (a, e) = get_elem?-lt v i h in (a, ap in_bounds e)

pub Yields-if {ℓ} :
    {A : Type ℓ} (b : Bool) (x y : Checked A) (P : A → Type 0)
    → (b ≡ true → Yields x P)
    → (b ≡ false → Yields y P)
    → Yields (if b then x else y) P
Yields-if true x y P h k = h refl
Yields-if false x y P h k = k refl

pub Yields-eq :
    {A : Type 0} (r : Checked A) (P : A → Type 0) → Yields r P → Yields r (λ a. (r ≡ ok a) × P a)
Yields-eq (ok a) P h = (refl, h)
Yields-eq out_of_bounds P h = absurd h
