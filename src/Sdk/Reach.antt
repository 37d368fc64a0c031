-- ===== src/Sdk/Reach.antt =====
-- How a method of `class GloveSDK`, src/glove_sdk.cpp, reaches the client and the parts: where they are
-- there and sound, a method that keeps them sound returns and leaves them so.
use joyson_glove_sdk.Prelude.{◌≡◌, Option, none, some}
use joyson_glove_sdk.Prelude.Monad.{Checked, ok, out_of_bounds, in_bounds, ◌>>=◌}
use joyson_glove_sdk.Prelude.State.{State, Returns}
use joyson_glove_sdk.Udp.Os.{Os}
use joyson_glove_sdk.Udp.Client.{UdpClient, Link}
use joyson_glove_sdk.Device.{Device}
use joyson_glove_sdk.Device.Keeps.{IsSound}
use joyson_glove_sdk.Sdk.Parts.{Part, GloveSdk, System, on_client, on_part}

-- A value that is there, and that satisfies `P`.
abbrev pub Has : {A : Type 0} → (A → Type 0) → Option A → Type 0
Has P none = ⊥
Has P (some a) = P a

in_bounds-Returns :
    {X A S : Type 0} (o : Option X) (f : X → Checked (A × S)) (H : X → Type 0) (T : A → S → Type 0)
    → Has H o
    → ((x : X) → H x → Returns (f x) T)
    → Returns (in_bounds o >>= f) T
in_bounds-Returns none f H T h k = absurd h
in_bounds-Returns (some x) f H T h k = k x h

bind-Returns :
    {A B S U : Type 0} (r : Checked (A × S)) (f : A × S → Checked (B × U)) (X : A → S → Type 0)
    (T : B → U → Type 0)
    → Returns r X
    → ((a : A) (s : S) → X a s → Returns (f (a, s)) T)
    → Returns (r >>= f) T
bind-Returns (ok (a, s)) f X T h k = k a s h
bind-Returns out_of_bounds f X T h k = absurd h

-- A part, without the link.
pub record IsSoundPart {C : Type 0} (Q : C → Type 0) (p : Part C) : Type 0 where
  pub object : Q p.object
  pub thread : p.thread.joinable ≡ p.thread.running

module _ {os : Os} {F : Type 0} (P : Link os → Type 0) where
  -- The client is there, and `P` holds of it in the world.
  abbrev pub HasClient : System os F → Type 0
  HasClient s = Has (λ (c : UdpClient). P (record { client = c; world = s.world })) s.sdk.udp_client

  -- `s` with another client in another world.
  abbrev pub with_link : System os F → Link os → System os F
  with_link s l = record { sdk = record s.sdk { udp_client = some l.client }; world = l.world }

  pub on_client-Returns :
      {A : Type 0} (m : State (Link os) A) (X : A → Link os → Type 0) (T : A → System os F → Type 0)
      (s : System os F)
      → HasClient s
      → ((l : Link os) → P l → Returns (m l) X)
      → ((a : A) (l : Link os) → X a l → T a (with_link s l))
      → Returns (on_client m s) T
  unfolding on_client
  on_client-Returns m X T s h k t = in_bounds-Returns s.sdk.udp_client _ _ T h (λ c p.
      bind-Returns (m (record { client = c; world = s.world })) _ X T (k _ p) (λ a l x. t a l x))

  pub on_part-Returns :
      {C A : Type 0} (part : GloveSdk F → Option (Part C)) (put : Part C → GloveSdk F → GloveSdk F)
      (m : State (Device os C) A) (Q : C → Type 0) (X : A → Device os C → Type 0)
      (T : A → System os F → Type 0) (s : System os F)
      → Has (IsSoundPart Q) (part s.sdk)
      → HasClient s
      → ((d : Device os C) → IsSound P Q d → Returns (m d) (λ a t. IsSound P Q t × X a t))
      → ((a : A) (d : Device os C)
          → IsSound P Q d
          → X a d
          → T a (record {
            sdk =
                put
                  (record { object = d.object; thread = d.thread })
                  (record s.sdk { udp_client = some d.link.client });
            world = d.link.world;
          }))
      → Returns (on_part part put m s) T
  unfolding on_part
  on_part-Returns part put m Q X T s h c k t = in_bounds-Returns (part s.sdk) _ _ T h (λ p sound.
      in_bounds-Returns s.sdk.udp_client _ _ T c (λ c holds.
        bind-Returns
          (m (record {
            object = p.object;
            thread = p.thread;
            link = record { client = c; world = s.world };
          }))
          _ (λ a d. IsSound P Q d × X a d) T
          (k _ (record { link = holds; object = sound.object; thread = sound.thread }))
          (λ a d x. t a d (x.0) (x.1))))
