-- ===== src/Protocol/Packet/Corruption.antt =====
-- The outer checksum of `deserialize` in src/protocol.cpp finds every error in one byte.
use joyson_glove_sdk.Prelude.{
  ℕ, zero, suc, ◌+◌, ◌-◌, ◌%◌, ◌≤◌, ◌<◌, ◌≡◌, ap, ◌∙◌, sym, ◌≢◌, arith, Bool, ◌==◌, ◌&&◌, ◌||◌,
  true, false, Option, none, some, List, [], ◌∷◌, ◌++◌, length, length-set, get_elem?,
  get_elem?-set_self, get_elem?-set_ne, set, ==_iff,
}
use native.Mathlib.Decide.{ℕ_discrete}
use joyson_glove_sdk.Prelude.Monad.{ok}
use joyson_glove_sdk.Protocol.Constants.{packet_tail}
use joyson_glove_sdk.Protocol.Packet.{Packet, serialize, deserialize}
use joyson_glove_sdk.Protocol.Packet.Sums.{sum}
use joyson_glove_sdk.Protocol.Packet.Frame.{
  accepts, is_marked, outer_sum, length-serialize, get_elem?-serialize,
}
use joyson_glove_sdk.Protocol.Packet.RoundTrip.{deserialize-Total, deserialize-eq-some_iff}

sum-append : (xs ys : List ℕ) → sum (xs ++ ys) ≡ sum xs + sum ys
sum-append [] ys = omega arith
sum-append (x ∷ xs) ys = omega (arith, sum-append xs ys)

sum-set : (v : List ℕ) (i a b : ℕ) → get_elem? v i ≡ some a → sum (set v i b) + a ≡ sum v + b
sum-set [] i a b e = absurd (cc)
sum-set (x ∷ v) zero a b e = ground arith
sum-set (x ∷ v) (suc i) a b e = omega (arith, sum-set v i a b e)

sum-serialize :
    (p : Packet)
    → sum (serialize p)
      ≡ p.header
        + p.length_field
        + p.module_id
        + p.target
        + p.command
        + sum p.body
        + p.checksum
        + p.tail
unfolding serialize
sum-serialize p = omega (arith, sum-append p.body (p.checksum ∷ p.tail ∷ []))

checks :
    (head imu enc len tail outer inner : Bool)
    → (head && (imu || enc || len) && tail && (imu || outer) && inner) ≡ true
    → imu ≡ false
    → (tail ≡ true) × (outer ≡ true)
checks head imu enc len tail outer inner h m = ground arith

-- The sum of a frame that is checked, in terms of its checksum.
sum_of_accepted :
    (p : Packet)
    → accepts p ≡ true
    → is_marked 0x11 p ≡ false
    → (p.checksum ≡ (sum (serialize p) - p.checksum - 0x7e) % 256)
      × (p.checksum + 0x7e ≤ sum (serialize p))
sum_of_accepted p h m =
    let (t, o) =
      checks _ (is_marked 0x11 p) _ _ (p.tail == packet_tail) (outer_sum p == p.checksum) _ h m in
    omega (
      arith,
      sum-serialize p,
      (==_iff p.tail packet_tail).0 t,
      (==_iff (outer_sum p) p.checksum).0 o,
    )

-- The first four bytes decide whether a frame is marked.
is_marked_congr :
    (p q : Packet) (len : ℕ)
    → ((j : ℕ) → j < 4 → get_elem? (serialize q) j ≡ get_elem? (serialize p) j)
    → is_marked len q ≡ is_marked len p
unfolding serialize
is_marked_congr p q len same = ground (arith, same 0, same 1, same 2, same 3)

module _ (p q : Packet) (i a b : ℕ) (changed : serialize q ≡ set (serialize p) i b)
    (old : get_elem? (serialize p) i ≡ some a) (lo : 4 ≤ i) where
  same_length : length q.body ≡ length p.body
  same_length = omega (
    arith,
    length-serialize p,
    length-serialize q,
    ap length changed,
    length-set (serialize p) i b,
  )

  stored_checksum : get_elem? (set (serialize p) i b) (5 + length p.body + 0) ≡ some q.checksum
  stored_checksum = rw (← changed, ← same_length) (get_elem?-serialize q 0)

  checksum_unchanged : i ≢ 5 + length p.body → q.checksum ≡ p.checksum
  checksum_unchanged ne = cc (
    stored_checksum,
    get_elem?-serialize p 0,
    get_elem?-set_ne (serialize p) {i = i} {j = 5 + length p.body + 0} b (λ e. ne (omega arith)),
  )

  checksum_changed : i ≡ 5 + length p.body → (p.checksum ≡ a) × (q.checksum ≡ b)
  checksum_changed e =
      let at_end : i ≡ 5 + length p.body + 0 = omega arith in
      let inside : i < length (serialize p) = omega (arith, length-serialize p) in
      (
        cc (get_elem?-serialize p 0),
        cc (stored_checksum, get_elem?-set_self (serialize p) i b inside),
      )

  sum_changed : sum (serialize q) + a ≡ sum (serialize p) + b
  sum_changed = rw changed (sum-set (serialize p) i a b old)

  -- Two frames that are checked do not differ in one byte.
  not_both :
      accepts p ≡ true → accepts q ≡ true → is_marked 0x11 p ≡ false → a ≢ b → a < 256 → b < 256 → ⊥
  not_both hp hq m ne ha hb =
      let mq : is_marked 0x11 q ≡ false =
        is_marked_congr p q 0x11
          (λ j hj. rw changed (get_elem?-set_ne (serialize p) b (λ e. absurd (omega arith))))
        ∙ m in
      elim (ℕ_discrete i (5 + length p.body)) [
        | yes e ↦ omega (
          arith,
          sum_of_accepted p hp m,
          sum_of_accepted q hq mq,
          sum_changed,
          checksum_changed e,
        )
        | no e ↦ omega (
          arith,
          sum_of_accepted p hp m,
          sum_of_accepted q hq mq,
          sum_changed,
          checksum_unchanged e,
        )
      ]

no_packet :
    (w : List ℕ) → ((q : Packet) → ¬ (deserialize w ≡ ok (some q))) → deserialize w ≡ ok none
no_packet w h = from (deserialize-Total w)
  where
    from : (r : Option Packet) × (deserialize w ≡ ok r) → deserialize w ≡ ok none
    from (none, e) = e
    from (some q, e) = absurd (h q e)

-- Once a vector was accepted, and is not marked as a response of the IMU, a different byte in one
-- place from the command on makes it a vector that is dropped.
pub deserialize-set :
    (v : List ℕ) (p : Packet) (i a b : ℕ)
    → deserialize v ≡ ok (some p)
    → is_marked 0x11 p ≡ false
    → 4 ≤ i
    → get_elem? v i ≡ some a
    → a ≢ b
    → a < 256
    → b < 256
    → deserialize (set v i b) ≡ ok none
deserialize-set v p i a b h m lo old ne ha hb = no_packet (set v i b) λ q hq.
    let (frame_p, fine_p) = (deserialize-eq-some_iff v p).0 h in
    let (frame_q, fine_q) = (deserialize-eq-some_iff (set v i b) q).0 hq in
    not_both p q i a b (sym frame_q ∙ ap (λ w. set w i b) frame_p)
      (ap (λ w. get_elem? w i) (sym frame_p) ∙ old) lo fine_p fine_q m ne ha hb
