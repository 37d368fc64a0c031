-- ===== src/Protocol/Packet/Frame.antt =====
-- What `deserialize` of src/protocol.cpp accepts, described on the packet's fields: every vector of
-- at least seven bytes is the frame of exactly one packet.
use joyson_glove_sdk.Prelude.{
  ℕ, ◌+◌, ◌-◌, ◌%◌, ◌≡◌, refl, ap, ◌∙◌, arith, Bool, true, ◌&&◌, ◌||◌, none, some, List, [], ◌∷◌,
  ◌++◌, length, length-append, get_elem?, get_elem?-append, take-append, ◌==◌, ==_iff,
  if◌then◌else◌,
}
use joyson_glove_sdk.Prelude.Monad.{ok, in_bounds}
use joyson_glove_sdk.Protocol.Constants.{packet_header, packet_tail}
use joyson_glove_sdk.Protocol.Packet.{
  Packet, serialize, deserialize, size_sub, at, back, copy_range, read_rest, validate_checksum,
  validate_motor_checksum, calculate_checksum, calculate_motor_checksum, check_motor_body,
}
use joyson_glove_sdk.Protocol.Packet.Sums.{
  sum, calculate_checksum-sum, calculate_motor_checksum-sum,
}

-- The sum of the bytes in front of the checksum.
abbrev pub outer_sum : Packet → ℕ
outer_sum p = (p.header + p.length_field + p.module_id + p.target + p.command + sum p.body) % 256

abbrev pub last : ℕ → List ℕ → ℕ
last x [] = x
last x (y ∷ ys) = last y ys

abbrev pub front : ℕ → List ℕ → List ℕ
front x [] = []
front x (y ∷ ys) = x ∷ front y ys

-- The two bytes that open a request to a motor or a response of one.
abbrev pub is_motor_header : ℕ → ℕ → Bool
is_motor_header a b = (a == 0x55 && b == 0xaa) || (a == 0xaa && b == 0x55)

-- A body of four bytes or more that opens like a motor's ends in the sum of what lies between.
abbrev pub inner_valid : List ℕ → Bool
inner_valid (a ∷ b ∷ c ∷ d ∷ rest) =
    if is_motor_header a b then sum (c ∷ front d rest) % 256 == last d rest else true
inner_valid _ = true

-- A response of the IMU or of the encoders, as the firmware marks it.
abbrev pub is_marked : ℕ → Packet → Bool
is_marked len p =
    p.header == packet_header && p.length_field == len && p.module_id == 1 && p.target == 2

abbrev pub accepts : Packet → Bool
accepts p =
    p.header == packet_header
    && (is_marked 0x11 p || is_marked 0x25 p || p.length_field == length p.body + 2)
    && p.tail == packet_tail
    && (is_marked 0x11 p || outer_sum p == p.checksum)
    && inner_valid p.body

pub front-append-last : (x : ℕ) (xs : List ℕ) → x ∷ xs ≡ front x xs ++ last x xs ∷ []
front-append-last x [] = refl
front-append-last x (y ∷ ys) = ap (◌∷◌ x) (front-append-last y ys)

pub calculate_checksum-serialize :
    (p : Packet) → calculate_checksum (serialize p) ≡ ok (outer_sum p)
unfolding serialize
calculate_checksum-serialize p =
    calculate_checksum-sum bytes p.checksum p.tail ∙ ap ok (omega arith)
  where
    bytes : List ℕ
    bytes = p.header ∷ p.length_field ∷ p.module_id ∷ p.target ∷ p.command ∷ p.body

pub validate_checksum-sum : (p : Packet) → validate_checksum p ≡ ok (outer_sum p == p.checksum)
unfolding validate_checksum
validate_checksum-sum p = rw (calculate_checksum-serialize p)

back-append : (xs : List ℕ) (k : ℕ) → back (xs ++ k ∷ []) ≡ ok k
back-append xs k =
    rw (length-append xs (k ∷ []), end) (ap in_bounds (get_elem?-append xs (k ∷ []) 0))
  where
    end : length xs + 1 - 1 ≡ length xs + 0
    end = omega arith

-- The checks behind a motor's header.
check_motor_body-last :
    (a b c d : ℕ) (rest : List ℕ)
    → let xs = c ∷ front d rest in
      let k = last d rest in
      (calculate_motor_checksum (a ∷ b ∷ c ∷ d ∷ rest) ≡ ok (sum xs % 256))
      × (back (a ∷ b ∷ c ∷ d ∷ rest) ≡ ok k)
check_motor_body-last a b c d rest = (
  ap (λ l. calculate_motor_checksum (a ∷ b ∷ c ∷ l)) (front-append-last d rest)
      ∙ calculate_motor_checksum-sum a b (last d rest) (c ∷ front d rest),
  ap (λ l. back (a ∷ b ∷ c ∷ l)) (front-append-last d rest)
      ∙ back-append (a ∷ b ∷ c ∷ front d rest) (last d rest),
)

check_motor_body-inner_valid : (body : List ℕ) → check_motor_body body ≡ ok (inner_valid body)
unfolding check_motor_body
check_motor_body-inner_valid [] = refl
check_motor_body-inner_valid (a ∷ []) = refl
check_motor_body-inner_valid (a ∷ b ∷ []) = refl
check_motor_body-inner_valid (a ∷ b ∷ c ∷ []) = refl
check_motor_body-inner_valid (a ∷ b ∷ c ∷ d ∷ rest) =
    let (computed, stored) = check_motor_body-last a b c d rest in
    rw (computed, stored) (ground arith)

pub validate_motor_checksum-sum : (p : Packet) → validate_motor_checksum p ≡ ok (inner_valid p.body)
unfolding validate_motor_checksum
validate_motor_checksum-sum p = check_motor_body-inner_valid p.body

-- The reads of `deserialize` on a frame.
pub length-serialize : (p : Packet) → length (serialize p) ≡ 7 + length p.body
unfolding serialize
length-serialize p = omega (arith, length-append p.body (p.checksum ∷ p.tail ∷ []))

size_sub-serialize : (p : Packet) → size_sub (7 + length p.body) 7 ≡ length p.body
size_sub-serialize p = ground arith

copy_range-serialize : (p : Packet) → copy_range (serialize p) 5 (length p.body) ≡ ok p.body
unfolding serialize copy_range
copy_range-serialize p =
    let end : List ℕ = p.checksum ∷ p.tail ∷ [] in
    rw (take-append p.body end) (ground (arith, length-append p.body end))

-- Behind the body.
pub get_elem?-serialize :
    (p : Packet) (i : ℕ)
    → get_elem? (serialize p) (5 + length p.body + i) ≡ get_elem? (p.checksum ∷ p.tail ∷ []) i
unfolding serialize
get_elem?-serialize p i = rw index (get_elem?-append start (p.checksum ∷ p.tail ∷ []) i)
  where
    start : List ℕ
    start = p.header ∷ p.length_field ∷ p.module_id ∷ p.target ∷ p.command ∷ p.body

    index : 5 + length p.body + i ≡ length start + i
    index = omega arith

at-serialize_checksum : (p : Packet) → at (serialize p) (5 + length p.body) ≡ ok p.checksum
at-serialize_checksum p =
    ap (at (serialize p)) (omega arith) ∙ ap in_bounds (get_elem?-serialize p 0)

at-serialize_tail : (p : Packet) → at (serialize p) (5 + length p.body + 1) ≡ ok p.tail
at-serialize_tail p = ap in_bounds (get_elem?-serialize p 1)

read_rest-serialize :
    (p : Packet) (is_imu_response : Bool)
    → read_rest (serialize p) p.header p.length_field is_imu_response
      ≡ ok (
          if p.tail == packet_tail
            && (is_imu_response || outer_sum p == p.checksum)
            && inner_valid p.body
          then some p
          else none)
unfolding read_rest
read_rest-serialize p is_imu_response =
    rw
      (
        length-serialize p,
        size_sub-serialize p,
        copy_range-serialize p,
        at-serialize_checksum p,
        at-serialize_tail p,
      )
      (unfold serialize in
        rw (validate_checksum-sum p, validate_motor_checksum-sum p) (ground arith))

-- The verdict on a frame is the one that the packet's fields give.
pub deserialize-serialize :
    (p : Packet) → deserialize (serialize p) ≡ ok (if accepts p then some p else none)
unfolding deserialize
deserialize-serialize p =
    rw (length-serialize p) (unfold serialize in grind (arith, read_rest-serialize))

pub deserialize-serialize_accepted :
    (p : Packet) → accepts p ≡ true → deserialize (serialize p) ≡ ok (some p)
deserialize-serialize_accepted p h =
    deserialize-serialize p ∙ ap (λ b. ok (if b then some p else none)) h

all_checks :
    (head imu enc len tail outer inner : Bool)
    → head ≡ true
    → len ≡ true
    → tail ≡ true
    → outer ≡ true
    → inner ≡ true
    → (head && (imu || enc || len) && tail && (imu || outer) && inner) ≡ true
all_checks head imu enc len tail outer inner h l t o i = ground arith

-- Enough for a frame to be accepted, marked or not.
pub accepts_of_fields :
    (p : Packet)
    → p.header ≡ 0xee
    → p.length_field ≡ length p.body + 2
    → p.tail ≡ 0x7e
    → outer_sum p ≡ p.checksum
    → inner_valid p.body ≡ true
    → accepts p ≡ true
accepts_of_fields p h l t o i =
    all_checks (p.header == 0xee) (is_marked 0x11 p) (is_marked 0x25 p)
      (p.length_field == length p.body + 2) (p.tail == 0x7e) (outer_sum p == p.checksum)
      (inner_valid p.body) ((==_iff _ _).1 h) ((==_iff _ _).1 l) ((==_iff _ _).1 t)
      ((==_iff _ _).1 o) i
