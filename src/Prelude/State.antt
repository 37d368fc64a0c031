-- ===== src/Prelude/State.antt =====
-- Methods: state in, a result and the new state out, unless a read goes out of bounds.
use joyson_glove_sdk.Prelude.{
  ◌≡◌, refl, sym, Bool, true, false, not, List, [], ◌∷◌, Option, none, some, if◌then◌else◌,
}
use joyson_glove_sdk.Prelude.Monad.{Checked, ok, out_of_bounds, Yields}

abbrev pub State : Type 0 → Type 0 → Type 0
State S A = S → Checked (A × S)

module _ {S : Type 0} where
  abbrev pub pure : {A : Type 0} → A → State S A
  pure a s = ok (a, s)

  infixl 5 ◌>>=◌ ◌>>◌
  abbrev pub ◌>>=◌ : {A B : Type 0} → State S A → (A → State S B) → State S B
  ◌>>=◌ m f s = elim (m s) [ ok (a, s') ↦ f a s' | out_of_bounds ↦ out_of_bounds ]

  abbrev pub ◌>>◌ : {A B : Type 0} → State S A → State S B → State S B
  m >> k = m >>= λ _. k

  abbrev pub get : State S S
  get s = ok (s, s)

  abbrev pub gets : {A : Type 0} → (S → A) → State S A
  gets f s = ok (f s, s)

  abbrev pub modify : (S → S) → State S (Unit {0})
  modify f s = ok (tt, f s)

  -- A computation that touches no state.
  abbrev pub lift : {A : Type 0} → Checked A → State S A
  lift (ok a) s = ok (a, s)
  lift out_of_bounds s = out_of_bounds

  -- `if (o) …` on an optional value.
  abbrev pub on_option : {A B : Type 0} → State S B → (A → State S B) → Option A → State S B
  on_option m f none = m
  on_option m f (some a) = f a

-- A computation that returns, with a result and a state that satisfy `P`.
abbrev pub Returns : {S A : Type 0} → Checked (A × S) → (A → S → Type 0) → Type 0
Returns (ok (a, s)) P = P a s
Returns out_of_bounds P = ⊥

module _ {S : Type 0} where
  pub Returns->>= :
      {A B : Type 0} (m : State S A) (f : A → State S B) (P : A → S → Type 0) (Q : B → S → Type 0)
      (s : S)
      → Returns (m s) P
      → ((a : A) (t : S) → P a t → Returns (f a t) Q)
      → Returns ((m >>= f) s) Q
  Returns->>= m f P Q s h k = by_result (m s) h
    where
      by_result :
          (r : Checked (_ × S))
          → Returns r P
          → Returns (elim r [ ok (a, t) ↦ f a t | out_of_bounds ↦ out_of_bounds ]) Q
      by_result (ok (a, t)) h = k a t h
      by_result out_of_bounds h = absurd h

  pub Returns-if :
      {A : Type 0} (b : Bool) (m n : State S A) (Q : A → S → Type 0) (s : S)
      → (b ≡ true → Returns (m s) Q)
      → (b ≡ false → Returns (n s) Q)
      → Returns ((if b then m else n) s) Q
  Returns-if true m n Q s h k = h refl
  Returns-if false m n Q s h k = k refl

  pub Returns-mono :
      {A : Type 0} (r : Checked (A × S)) (P Q : A → S → Type 0)
      → Returns r P
      → ((a : A) (t : S) → P a t → Q a t)
      → Returns r Q
  Returns-mono (ok (a, t)) P Q h k = k a t h
  Returns-mono out_of_bounds P Q h k = absurd h

  pub Returns-then :
      {A B : Type 0} (m : State S A) (f : A → State S B) (Q : B → S → Type 0) (s : S)
      → Returns (m s) (λ a t. Returns (f a t) Q)
      → Returns ((m >>= f) s) Q
  Returns-then m f Q s h = Returns->>= m f (λ a t. Returns (f a t) Q) Q s h (λ a t r. r)

  -- A step that succeeds, with what is done where it fails.
  pub Returns-on_true :
      {B : Type 0} (m : State S Bool) (bad rest : State S B) (P : S → Type 0) (Q : B → S → Type 0)
      (s : S)
      → Returns (m s) (λ done t. (done ≡ true) × P t)
      → ((t : S) → P t → Returns (rest t) Q)
      → Returns ((m >>= λ done. if not done then bad else rest) s) Q
  Returns-on_true m bad rest P Q s h k =
      Returns->>= m _ (λ done t. (done ≡ true) × P t) Q s h
        (λ done t p.
          Returns-if (not done) bad rest Q t (λ e. absurd (different (sym (p.0)) e))
            (λ _. k t (p.1)))
    where
      different : {done : Bool} → true ≡ done → ¬ (not done ≡ true)
      different e f = cc

  -- The result and the state, from a proof that they are there.
  pub Returns-eq_ok :
      {A : Type 0} (r : Checked (A × S)) (P : A → S → Type 0)
      → Returns r P
      → (a : A) × (t : S) × (r ≡ ok (a, t)) × P a t
  Returns-eq_ok (ok (a, t)) P h = (a, t, refl, h)
  Returns-eq_ok out_of_bounds P h = absurd h

  -- A property of the result and the state, with the equation that names them.
  pub Returns-self :
      {A : Type 0} (r : Checked (A × S)) (P : A → S → Type 0)
      → Returns r P
      → Returns r (λ a t. P a t × (r ≡ ok (a, t)))
  Returns-self (ok (a, t)) P h = (h, refl)
  Returns-self out_of_bounds P h = absurd h

  -- Two properties of one computation.
  pub Returns-and :
      {A : Type 0} (r : Checked (A × S)) (P Q : A → S → Type 0)
      → Returns r P
      → Returns r Q
      → Returns r (λ a t. P a t × Q a t)
  Returns-and (ok (a, t)) P Q h k = (h, k)
  Returns-and out_of_bounds P Q h k = absurd h

  pub Returns-lift :
      {A : Type 0} (r : Checked A) (P : A → Type 0) (Q : A → S → Type 0) (s : S)
      → Yields r P
      → ((a : A) → P a → Q a s)
      → Returns (lift r s) Q
  Returns-lift (ok a) P Q s h k = k a h
  Returns-lift out_of_bounds P Q s h k = absurd h

  pub Returns-on_option :
      {A B : Type 0} (m : State S B) (f : A → State S B) (o : Option A) (P : Option A → Type 0)
      (Q : B → S → Type 0) (s : S)
      → P o
      → (P none → Returns (m s) Q)
      → ((a : A) → P (some a) → Returns (f a s) Q)
      → Returns (on_option m f o s) Q
  Returns-on_option m f none P Q s h none_case some_case = none_case h
  Returns-on_option m f (some a) P Q s h none_case some_case = some_case a h

module _ {S : Type 0} where
  pub >>=-congr :
      {A B : Type 0} (m : State S A) (f g : A → State S B) (s : S)
      → ((a : A) (t : S) → f a t ≡ g a t)
      → (m >>= f) s ≡ (m >>= g) s
  >>=-congr {A} m f g s h = by_result (m s)
    where
      by_result :
          (r : Checked (A × S))
          → elim r [ ok (a, t) ↦ f a t | out_of_bounds ↦ out_of_bounds ]
            ≡ elim r [ ok (a, t) ↦ g a t | out_of_bounds ↦ out_of_bounds ]
      by_result (ok (a, t)) = h a t
      by_result out_of_bounds = refl

  pub >>=-assoc :
      {A B C : Type 0} (m : State S A) (f : A → State S B) (g : B → State S C) (s : S)
      → ((m >>= f) >>= g) s ≡ (m >>= λ a. f a >>= g) s
  >>=-assoc {A} {B} m f g s = by_result (m s)
    where
      by_result :
          (r : Checked (A × S))
          → elim (elim r as (λ _. Checked (B × S)) [
            | ok (a, t) ↦ f a t
            | out_of_bounds ↦ out_of_bounds
          ]) [ ok (b, u) ↦ g b u | out_of_bounds ↦ out_of_bounds ]
            ≡ elim r [ ok (a, t) ↦ (f a >>= g) t | out_of_bounds ↦ out_of_bounds ]
      by_result (ok (a, t)) = refl
      by_result out_of_bounds = refl

  -- Every computation, one behind the other, with their results.
  abbrev pub collect : {A : Type 0} → List (State S A) → State S (List A)
  collect [] = pure []
  collect (m ∷ ms) = do a ← m; rest ← collect ms; pure (a ∷ rest)
