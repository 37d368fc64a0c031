-- ===== src/Device/Keeps.antt =====
-- What the requests and the update thread of a `Device` keep: an invariant `P` of the link, one `Q` of
-- the object, and a thread that is joinable while it runs.
use joyson_glove_sdk.Prelude.{
  ℕ, ◌≡◌, refl, sym, ◌∙◌, Bool, true, false, not, Each, Option, none, some,
}
use joyson_glove_sdk.Prelude.Monad.{Checked, ok, out_of_bounds, Yields}
use joyson_glove_sdk.Prelude.State.{
  State, pure, lift, ◌>>◌, Returns, Returns->>=, Returns-if, Returns-lift, Returns-on_option,
}
use joyson_glove_sdk.Protocol.Packet.{Packet}
use joyson_glove_sdk.Udp.Os.{Os}
use joyson_glove_sdk.Udp.Client.{Link, send_and_receive}
use joyson_glove_sdk.Device.{
  Device, Outcome, returned, threw, start_result, on_link, stamped, ask, tick, order, fetch,
  start_thread, stop_thread, finish_initialize,
}

-- An exchange returns and keeps `P`, what it delivers is in `R`, and the clock, a sleep and the
-- creation of a thread keep `P`.
pub record IsStable {os : Os} (P : Link os → Type 0) (R : Packet → Type 0) : Type 0 where
  pub exchange :
      (p : Packet) (l : Link os) → P l → Returns (send_and_receive p l) (λ r t. P t × Each R r)
  pub tick : (l : Link os) → P l → P (record l { world = (os.steady_now l.world).1 })
  pub start : (l : Link os) → P l → P (record l { world = (os.start_thread l.world).1 })
  pub sleep :
      (nanoseconds : ℕ) (l : Link os)
      → P l
      → P (record l { world = os.sleep_for nanoseconds l.world })

-- The clock and a sleep keep `P`.
pub record IsTimed {os : Os} (P : Link os → Type 0) : Type 0 where
  pub tick : (l : Link os) → P l → P (record l { world = (os.steady_now l.world).1 })
  pub sleep :
      (nanoseconds : ℕ) (l : Link os)
      → P l
      → P (record l { world = os.sleep_for nanoseconds l.world })

pub IsStable-IsTimed :
    {os : Os} {P : Link os → Type 0} {R : Packet → Type 0} → IsStable P R → IsTimed P
IsStable-IsTimed stable = record { tick = stable.tick; sleep = stable.sleep }

pub record IsSound {os : Os} {C : Type 0} (P : Link os → Type 0) (Q : C → Type 0) (d : Device os C)
    : Type 0 where
  pub link : P d.link
  pub object : Q d.object
  pub thread : d.thread.joinable ≡ d.thread.running

-- The result of `initialize` behind its requests, by the configuration.
abbrev pub Starts : {os : Os} {C : Type 0} → Bool → Outcome Bool → Device os C → Type 0
Starts {os} auto (returned done) t = (done ≡ true) × (auto ≡ true → t.thread.running ≡ true)
Starts {os} auto threw t =
    (auto ≡ true)
    × (t.thread.running ≡ false)
    × (w : os.World) × ((os.start_thread w).0 ≡ false)
    × (t.link.world ≡ (os.start_thread w).1)

module _ {os : Os} {C : Type 0} {P : Link os → Type 0} {R : Packet → Type 0} (Q : C → Type 0)
    (stable : IsStable P R) where
  on_link-IsSound :
      {A : Type 0} (m : State (Link os) A) (T : A → Type 0) (d : Device os C)
      → ((l : Link os) → P l → Returns (m l) (λ a t. P t × T a))
      → IsSound P Q d
      → Returns (on_link m d) (λ a t. IsSound P Q t × T a)
  on_link-IsSound m T d k h = by_result (m d.link) (k d.link h.link)
    where
      by_result :
          (r : Checked (_ × Link os))
          → Returns r (λ a t. P t × T a)
          → Returns
              (elim r [ ok (a, l) ↦ ok (a, record d { link = l }) | out_of_bounds ↦ out_of_bounds ])
              (λ a t. IsSound P Q t × T a)
      by_result (ok (a, l)) (p, t) = (record { link = p; object = h.object; thread = h.thread }, t)
      by_result out_of_bounds k = absurd k

  ask-IsSound :
      (request : Checked Packet) (d : Device os C)
      → Yields request (λ _. Unit {0})
      → IsSound P Q d
      → Returns (ask request d) (λ r t. IsSound P Q t × Each R r)
  unfolding ask
  ask-IsSound request d total h =
      Returns->>= (lift request) (λ p. on_link (send_and_receive p)) (λ _ t. IsSound P Q t) _ d
        (Returns-lift request (λ _. Unit) (λ _ t. IsSound P Q t) d total (λ _ _. h))
        (λ p t k. on_link-IsSound (send_and_receive p) (Each R) t (stable.exchange p) k)

  pub order-IsSound :
      (request : Checked Packet) (d : Device os C)
      → Yields request (λ _. Unit {0})
      → IsSound P Q d
      → Returns (order request d) (λ _ t. IsSound P Q t)
  unfolding order
  order-IsSound request d total h =
      Returns->>= (ask request) _ (λ r t. IsSound P Q t × Each R r) _ d
        (ask-IsSound request d total h) (λ _ t k. k.0)

  module _ {A : Type 0} (T : A → Type 0) where
    stamped-IsSound :
        (parse : ℕ → Checked (Option A))
        → ((now : ℕ) → Yields (parse now) (Each T))
        → (l : Link os) → P l
        → Returns (stamped parse l) (λ value t. P t × Each T value)
    unfolding stamped
    stamped-IsSound parse parses l p =
        Returns->>= (lift (parse ((os.steady_now l.world).0))) _ (λ value t. P t × Each T value) _ l
          (Returns-lift (parse ((os.steady_now l.world).0)) (Each T) (λ value t. P t × Each T value)
            l (parses _) (λ value e. (p, e)))
          (λ value t k.
            Returns-on_option (pure none) (λ a. tick >> pure (some a)) value (Each T) _ t (k.1)
              (λ _. (k.0, tt)) (λ a e. (stable.tick t (k.0), e)))

    pub fetch-IsSound :
        (request : Checked Packet) (parse : ℕ → Packet → Checked (Option A)) (d : Device os C)
        → Yields request (λ _. Unit {0})
        → ((now : ℕ) (p : Packet) → R p → Yields (parse now p) (Each T))
        → IsSound P Q d
        → Returns (fetch request parse d) (λ value t. IsSound P Q t × Each T value)
    unfolding fetch
    fetch-IsSound request parse d total parses h =
        Returns->>= (ask request) _ (λ r t. IsSound P Q t × Each R r) _ d
          (ask-IsSound request d total h)
          (λ r t k.
            Returns-on_option (pure none) (λ p. on_link (stamped (λ now. parse now p))) r (Each R)
              (λ value u. IsSound P Q u × Each T value) t (k.1) (λ _. (k.0, tt))
              (λ p a.
                on_link-IsSound (stamped (λ now. parse now p)) (Each T) t
                  (stamped-IsSound (λ now. parse now p) (λ now. parses now p a)) (k.0)))

  -- After an exception the thread does not run, since the system made none.
  abbrev IsStarted : Outcome (Unit {0}) → Device os C → Type 0
  IsStarted (returned _) t = t.thread.running ≡ true
  IsStarted threw t =
      (t.thread.running ≡ false)
      × (w : os.World) × ((os.start_thread w).0 ≡ false)
      × (t.link.world ≡ (os.start_thread w).1)

  start_thread-IsSound :
      (d : Device os C)
      → IsSound P Q d
      → Returns (start_thread d) (λ r t. IsSound P Q t × IsStarted r t)
  unfolding start_thread
  start_thread-IsSound d h =
      Returns-if d.thread.running _ _ _ d (λ e. (h, e))
        (λ e.
          Returns-if (not ((os.start_thread d.link.world).0)) _ _ _ _
            (λ f. (
              record {
                link = stable.start d.link h.link;
                object = h.object;
                thread = h.thread ∙ e;
              },
              (refl, d.link.world, by_not _ f, refl),
            ))
            (λ _.
              Returns-if d.thread.joinable _ _ _ _ (λ j. absurd (cannot_be_joinable j e))
                (λ _. (
                  record { link = stable.start d.link h.link; object = h.object; thread = refl },
                  refl,
                ))))
    where
      by_not : (b : Bool) → not b ≡ true → b ≡ false
      by_not true e = sym e
      by_not false e = refl

      cannot_be_joinable : d.thread.joinable ≡ true → ¬ (d.thread.running ≡ false)
      cannot_be_joinable j e = cc

  pub stop_thread-IsSound :
      (d : Device os C)
      → IsSound P Q d
      → Returns (stop_thread d) (λ _ t. IsSound P Q t × (t.thread.running ≡ false))
  unfolding stop_thread
  stop_thread-IsSound d h =
      Returns-if (not d.thread.running) _ _ _ d (λ e. (h, by_not d.thread.running e))
        (λ _. (record { link = h.link; object = h.object; thread = refl }, refl))
    where
      by_not : (b : Bool) → not b ≡ true → b ≡ false
      by_not true e = sym e
      by_not false e = refl

  pub finish_initialize-IsSound :
      (auto : Bool) (d : Device os C)
      → IsSound P Q d
      → Returns (finish_initialize auto d) (λ r t. IsSound P Q t × Starts auto r t)
  unfolding finish_initialize
  finish_initialize-IsSound auto d h =
      Returns-if (not auto) _ _ _ d (λ e. (h, (refl, λ f. cc)))
        (λ e.
          Returns->>= start_thread _ _ _ d (start_thread-IsSound d h)
            (λ r t k. by_start r t (k.0) (k.1) (by_not auto e)))
    where
      by_not : (b : Bool) → not b ≡ false → b ≡ true
      by_not true e = refl
      by_not false e = sym e

      by_start :
          (r : Outcome (Unit {0})) (t : Device os C)
          → IsSound P Q t
          → IsStarted r t
          → auto ≡ true
          → Returns (pure (start_result r) t) (λ r u. IsSound P Q u × Starts auto r u)
      by_start (returned _) t k f a = (k, (refl, λ _. f))
      by_start threw t k f a = (k, (a, f.0, f.1, f.2, f.3))
