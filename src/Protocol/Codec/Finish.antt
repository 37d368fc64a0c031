-- ===== src/Protocol/Codec/Finish.antt =====
-- What the end of an encoder adds: the length and the two checksums, as `deserialize` wants them.
use joyson_glove_sdk.Prelude.{
  ℕ, ◌+◌, ◌%◌, ◌<◌, ◌≡◌, refl, ap, ◌∙◌, arith, true, some, List, [], ◌∷◌, ◌++◌, length,
  length-append, set,
}
use joyson_glove_sdk.Prelude.Monad.{ok}
use joyson_glove_sdk.Protocol.Constants.{board_id, target_motor}
use joyson_glove_sdk.Protocol.Packet.{Packet, default_packet, serialize, deserialize}
use joyson_glove_sdk.Protocol.Packet.Sums.{sum, calculate_motor_checksum-sum}
use joyson_glove_sdk.Protocol.Packet.Frame.{
  outer_sum, last, front, inner_valid, deserialize-serialize_accepted, accepts_of_fields,
  calculate_checksum-serialize,
}
use joyson_glove_sdk.Protocol.Codec.{finish, finish_motor, set_back}

-- The packet that leaves `finish`.
abbrev pub finished : Packet → Packet
finished p =
    let sized = record p { length_field = length p.body + 2 } in
    record sized { checksum = outer_sum sized }

pub finish-finished : (p : Packet) → length p.body + 2 < 256 → finish p ≡ ok (finished p)
unfolding finish
finish-finished p h = rw (calculate_checksum-serialize, fits) refl
  where
    fits : (2 + length p.body % 256) % 256 ≡ length p.body + 2
    fits = omega arith

set-append_end : (xs : List ℕ) (k v : ℕ) → set (xs ++ k ∷ []) (length xs) v ≡ xs ++ v ∷ []
set-append_end [] k v = refl
set-append_end (x ∷ xs) k v = ap (◌∷◌ x) (set-append_end xs k v)

set_back-append : (xs : List ℕ) (k v : ℕ) → set_back (xs ++ k ∷ []) v ≡ xs ++ v ∷ []
unfolding set_back
set_back-append xs k v =
    ap (λ i. set (xs ++ k ∷ []) i v) (omega (arith, length-append xs (k ∷ [])))
    ∙ set-append_end xs k v

last-append : (x : ℕ) (xs : List ℕ) (k : ℕ) → last x (xs ++ k ∷ []) ≡ k
last-append x [] k = refl
last-append x (y ∷ ys) k = last-append y ys k

front-append : (x : ℕ) (xs : List ℕ) (k : ℕ) → front x (xs ++ k ∷ []) ≡ x ∷ xs
front-append x [] k = refl
front-append x (y ∷ ys) k = ap (◌∷◌ x) (front-append y ys k)

-- A body that ends in the sum of what lies behind its first two bytes passes the inner check.
pub inner_valid-sealed :
    (a b : ℕ) (xs : List ℕ) → inner_valid (a ∷ b ∷ (xs ++ sum xs % 256 ∷ [])) ≡ true
inner_valid-sealed a b [] = refl
inner_valid-sealed a b (c ∷ []) = ground arith
inner_valid-sealed a b (c ∷ d ∷ xs) =
    let k = sum (c ∷ d ∷ xs) % 256 in rw (front-append d xs k, last-append d xs k) (ground arith)

-- The packet that leaves `finish_motor`, for what lies between the header and the placeholder.
abbrev pub motor_unfinished : ℕ → List ℕ → Packet
motor_unfinished command xs = record default_packet {
  module_id = board_id;
  target = target_motor;
  command = command;
  body = 0x55 ∷ 0xaa ∷ (xs ++ sum xs % 256 ∷ []);
}

abbrev pub motor_packet : ℕ → List ℕ → Packet
motor_packet command xs = finished (motor_unfinished command xs)

pub finish_motor-motor_packet :
    (command : ℕ) (xs : List ℕ)
    → length xs < 251
    → finish_motor command (0x55 ∷ 0xaa ∷ (xs ++ 0 ∷ [])) ≡ ok (motor_packet command xs)
unfolding finish_motor
finish_motor-motor_packet command xs h =
    rw
      (
        calculate_motor_checksum-sum 0x55 0xaa 0 xs,
        set_back-append (0x55 ∷ 0xaa ∷ xs) 0 (sum xs % 256),
      )
      (finish-finished _ (omega (arith, length-append xs (sum xs % 256 ∷ []))))

-- What leaves `finish` passes every check of `deserialize`, if the body does.
pub deserialize-finished :
    (p : Packet)
    → p.header ≡ 0xee
    → p.tail ≡ 0x7e
    → inner_valid p.body ≡ true
    → deserialize (serialize (finished p)) ≡ ok (some (finished p))
deserialize-finished p h t i =
    deserialize-serialize_accepted (finished p) (accepts_of_fields (finished p) h refl t refl i)
