-- ===== src/Protocol/Packet/RoundTrip.antt =====
-- `Packet::serialize` and `Packet::deserialize` of src/protocol.cpp are inverse to one another.
use mathlib.Core.List.{append_assoc}
use joyson_glove_sdk.Prelude.{
  ℕ, ◌≡◌, refl, ap, ◌∙◌, sym, ◌↔◌, Bool, true, false, if◌then◌else◌, Option, none, some, List, [],
  ◌∷◌, ◌++◌,
}
use joyson_glove_sdk.Prelude.Monad.{ok}
use joyson_glove_sdk.Protocol.Packet.{Packet, serialize, deserialize}
use joyson_glove_sdk.Protocol.Packet.Frame.{
  front, last, front-append-last, accepts, deserialize-serialize,
}

-- The packet whose frame a long enough vector is.
framed : (a b c d e f g : ℕ) (rest : List ℕ) → Packet
framed a b c d e f g rest = record {
  header = a;
  length_field = b;
  module_id = c;
  target = d;
  command = e;
  body = front f (front g rest);
  checksum = last f (front g rest);
  tail = last g rest;
}

serialize-framed :
    (a b c d e f g : ℕ) (rest : List ℕ)
    → a ∷ b ∷ c ∷ d ∷ e ∷ f ∷ g ∷ rest ≡ serialize (framed a b c d e f g rest)
unfolding serialize framed
serialize-framed a b c d e f g rest = ap (λ l. a ∷ b ∷ c ∷ d ∷ e ∷ l) ends
  where
    ends : f ∷ g ∷ rest ≡ front f (front g rest) ++ (last f (front g rest) ∷ last g rest ∷ [])
    ends =
        ap (◌∷◌ f) (front-append-last g rest)
        ∙ ap (λ l. l ++ last g rest ∷ []) (front-append-last f (front g rest))
        ∙ append_assoc (front f (front g rest)) (last f (front g rest) ∷ []) (last g rest ∷ [])

data Shape (v : List ℕ) : Type 0 where
  short : deserialize v ≡ ok none → Shape v
  frame : (p : Packet) → v ≡ serialize p → Shape v

shape : (v : List ℕ) → Shape v
unfolding deserialize
shape (a ∷ b ∷ c ∷ d ∷ e ∷ f ∷ g ∷ rest) =
    frame (framed a b c d e f g rest) (serialize-framed a b c d e f g rest)
shape [] = short refl
shape (a ∷ []) = short refl
shape (a ∷ b ∷ []) = short refl
shape (a ∷ b ∷ c ∷ []) = short refl
shape (a ∷ b ∷ c ∷ d ∷ []) = short refl
shape (a ∷ b ∷ c ∷ d ∷ e ∷ []) = short refl
shape (a ∷ b ∷ c ∷ d ∷ e ∷ f ∷ []) = short refl

-- `deserialize` reads no byte outside of the vector, whatever the vector holds.
pub deserialize-Total : (v : List ℕ) → (r : Option Packet) × (deserialize v ≡ ok r)
deserialize-Total v = elim (shape v) [
  | short e ↦ (none, e)
  | frame p e ↦ (_, ap deserialize e ∙ deserialize-serialize p)
]

verdict :
    (b : Bool) (q p : Packet) → ok (if b then some q else none) ≡ ok (some p) → (b ≡ true) × (q ≡ p)
verdict true q p h = (refl, cc)
verdict false q p h = cc

accepted :
    (v : List ℕ) (p : Packet) → deserialize v ≡ ok (some p) → (v ≡ serialize p) × (accepts p ≡ true)
accepted v p h = elim (shape v) [
  | short e ↦ absurd (cc)
  | frame q e ↦
      let (yes_q, same) =
        verdict (accepts q) q p (sym (ap deserialize e ∙ deserialize-serialize q) ∙ h) in
      (e ∙ ap serialize same, sym (ap accepts same) ∙ yes_q)
]

-- A packet comes out of a vector exactly when the vector is its frame and its fields pass every
-- check: header, tail, length, outer checksum and inner checksum, with the two exemptions for the
-- marked responses of the firmware.
pub deserialize-eq-some_iff :
    (v : List ℕ) (p : Packet)
    → (deserialize v ≡ ok (some p)) ↔ ((v ≡ serialize p) × (accepts p ≡ true))
deserialize-eq-some_iff v p =
    (accepted v p, λ h. ap deserialize h.0 ∙ deserialize-serialize p ∙ rw (h.1))
