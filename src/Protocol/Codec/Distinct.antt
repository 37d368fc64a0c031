-- ===== src/Protocol/Codec/Distinct.antt =====
-- No two calls of the encoders in src/protocol.cpp send the same packet.
use mathlib.Core.Path.{ap₂}
use mathlib.Core.Option.{some-injective}
use joyson_glove_sdk.Prelude.{
  ℕ, suc, ◌+◌, ◌*◌, ◌≡◌, refl, sym, ap, ◌∙◌, arith, Option, none, some, List, [], ◌∷◌, zero, ◌==◌,
  if◌then◌else◌,
}
use joyson_glove_sdk.Prelude.Monad.{ok}
use joyson_glove_sdk.Protocol.Packet.{serialize}
use joyson_glove_sdk.Protocol.Codec.Requests.{
  Request, read_motor_id, read_motor_status, set_motor_mode, set_motor_position, set_motor_force,
  set_motor_speed, read_all_encoders, read_imu, encode, IsTyped, wire, encode-Sends,
}

abbrev byte_at : List ℕ → ℕ → ℕ
byte_at [] i = 0
byte_at (b ∷ v) zero = b
byte_at (b ∷ v) (suc i) = byte_at v i

abbrev word_at : List ℕ → ℕ → ℕ
word_at v i = byte_at v i + 256 * byte_at v (suc i)

-- The request that a frame states.
requested : List ℕ → Option Request
requested v =
    let command = byte_at v 4 in
    let id = byte_at v 8 in
    if byte_at v 3 == 2
    then some read_all_encoders
    else if byte_at v 3 == 3
    then some read_imu
    else if command == 0x10
    then some (read_motor_id id)
    else if command == 0x20
    then some (read_motor_status id)
    else if command == 0x30
    then some (set_motor_mode id (word_at v 12))
    else if command == 0x31
    then some (set_motor_position id (word_at v 12))
    else if command == 0x32
    then some (set_motor_speed id (word_at v 12) (word_at v 14))
    else if command == 0x33
    then some (set_motor_force id (word_at v 12))
    else none

requested-wire : (r : Request) → requested (wire r) ≡ some r
unfolding requested wire
requested-wire (read_motor_id id) = refl
requested-wire (read_motor_status id) = refl
requested-wire (set_motor_mode id w) = ap (λ (w : ℕ). some (set_motor_mode id w)) (omega arith)
requested-wire (set_motor_position id w) =
    ap (λ (w : ℕ). some (set_motor_position id w)) (omega arith)
requested-wire (set_motor_force id w) = ap (λ (w : ℕ). some (set_motor_force id w)) (omega arith)
requested-wire (set_motor_speed id s w) =
    ap₂ (λ (s w : ℕ). some (set_motor_speed id s w)) (omega arith) (omega arith)
requested-wire read_all_encoders = refl
requested-wire read_imu = refl

ok-injective {ℓ} : {A : Type ℓ} {a b : A} → ok a ≡ ok b → a ≡ b
ok-injective e = cc

-- If two calls with arguments in the range of their types return the same packet, they are the same
-- encoder with the same arguments.
pub encode-injective : (r s : Request) → IsTyped r → IsTyped s → encode r ≡ encode s → r ≡ s
encode-injective r s hr hs e =
    let (p, ep, wp, _) = encode-Sends r hr in
    let (q, eq, wq, _) = encode-Sends s hs in
    let same : p ≡ q = ok-injective (sym ep ∙ e ∙ eq) in
    some-injective _ _
      (sym (requested-wire r) ∙ ap requested (sym wp ∙ ap serialize same ∙ wq) ∙ requested-wire s)
