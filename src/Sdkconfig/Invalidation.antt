-- ===== src/Sdkconfig/Invalidation.antt =====
-- backend/internal/sdkconfig/invalidation.go: the hub that wakes event streams. A channel is an
-- address in a store, since the hub, the reader and the function `cancel` share it; the store also
-- holds what the closure `cancel` captures. The mutex makes each operation one step. A panic of the
-- language is an error value.
pub mod Safe
pub mod Signals
use flagstack.Common.{
  ℕ, String, Bool, List, Option, Result, [], ◌∷◌, ◌==◌, ◌||◌, ◌%◌, ◌^◌, ok, err, some, none, true,
  false, if◌then◌else◌, ◌>>=◌, suc, eqb, ltb, not, is_empty, ◌≡◌, ◌≢◌, arith,
}
use flagstack.Sdkconfig.Types.{Credential}

pub record Invalidation : Type 0 where
  pub project_id : String
  pub environment_id : String
  pub credential_id : String

pub data Panic : Type 0 where
  send_on_closed close_of_closed : Panic

-- `make(chan Invalidation, 1)`
pub record Channel : Type 0 where
  pub pending : Option Invalidation
  pub closed : Bool

pub record Subscriber : Type 0 where
  pub credential : Credential
  pub channel : ℕ

-- The function that `Subscribe` returns: the id that it captures and whether its `once` is done.
pub record Cancel : Type 0 where
  pub id : ℕ
  pub done : Bool

pub record Hub : Type 0 where
  pub next_id : ℕ
  pub subscribers : List (ℕ × Subscriber)
  pub allocated : ℕ
  pub channels : ℕ → Channel
  pub cancels : ℕ → Cancel

abbrev pub update {ℓ} : {A : Type ℓ} → (ℕ → A) → ℕ → A → ℕ → A
update f a x b = if eqb a b then x else f b

pub update-same {ℓ} : {A : Type ℓ} (f : ℕ → A) (a : ℕ) (x : A) → update f a x a ≡ x
update-same f a x = ground arith

pub update-other {ℓ} :
    {A : Type ℓ} (f : ℕ → A) (a : ℕ) (x : A) (b : ℕ) → a ≢ b → update f a x b ≡ f b
update-other f a x b h = ground arith

-- delete(m, id)
unfoldable pub remove : ℕ → List (ℕ × Subscriber) → List (ℕ × Subscriber)
remove id [] = []
remove id ((i, s) ∷ m) = if eqb i id then remove id m else (i, s) ∷ remove id m

-- m[id] = s
unfoldable pub assign : ℕ → Subscriber → List (ℕ × Subscriber) → List (ℕ × Subscriber)
assign id s m = (id, s) ∷ remove id m

abbrev pub new_hub : Hub
new_hub = record {
  next_id = 0;
  subscribers = [];
  allocated = 0;
  channels = λ a. record { pending = none; closed = false };
  cancels = λ a. record { id = 0; done = false };
}

abbrev pub max_uint64 : ℕ
max_uint64 = 2 ^ 64

unfoldable pub subscribe : Credential → Hub → Hub
subscribe credential h =
    let id = suc h.next_id % max_uint64 in
    let channel = h.allocated in
    record h {
      next_id = id;
      subscribers = assign id (record { credential = credential; channel = channel }) h.subscribers;
      allocated = suc h.allocated;
      channels = update h.channels channel (record { pending = none; closed = false });
      cancels = update h.cancels channel (record { id = id; done = false });
    }

abbrev pub close_channel : Channel → Result Panic Channel
close_channel c = if c.closed then err close_of_closed else ok (record c { closed = true })

-- The returned `cancel`, of the channel at an address.
unfoldable pub cancel : ℕ → Hub → Result Panic Hub
cancel a h =
    if (h.cancels a).done
    then ok h
    else (close_channel (h.channels a) >>= λ c. ok (record h {
      subscribers = remove (h.cancels a).id h.subscribers;
      channels = update h.channels a c;
      cancels = update h.cancels a (record (h.cancels a) { done = true });
    }))

unfoldable pub invalidation_matches : Credential → Invalidation → Bool
invalidation_matches credential invalidation =
    if not (is_empty invalidation.credential_id)
    then credential.id == invalidation.credential_id
    else if not (credential.project_id == invalidation.project_id)
    then false
    else is_empty invalidation.environment_id
      || credential.environment_id == invalidation.environment_id

abbrev pub buffered : Invalidation → Option Invalidation → Option Invalidation
buffered new none = some new
buffered new (some old) = some old

-- The `select` with a `default`: a send to a full channel is dropped.
abbrev pub try_send : Invalidation → Channel → Result Panic Channel
try_send invalidation c =
    if c.closed
    then err send_on_closed
    else ok (record c { pending = buffered invalidation c.pending })

-- The loop of `Publish`.
unfoldable pub publish_to :
    Invalidation → List (ℕ × Subscriber) → (ℕ → Channel) → Result Panic (ℕ → Channel)
publish_to invalidation [] channels = ok channels
publish_to invalidation ((i, s) ∷ rest) channels =
    if not (invalidation_matches s.credential invalidation)
    then publish_to invalidation rest channels
    else (try_send invalidation (channels s.channel) >>= λ c.
        publish_to invalidation rest (update channels s.channel c))

unfoldable pub publish : Invalidation → Hub → Result Panic Hub
publish invalidation h = publish_to invalidation h.subscribers h.channels >>= λ channels.
    ok (record h { channels = channels })

-- `<-channel`, where a signal is pending.
unfoldable pub receive : ℕ → Hub → Hub
receive a h = record h { channels = update h.channels a (record (h.channels a) { pending = none }) }

-- What the users of a hub do, in the order in which the mutex lets them in.
pub data Action : Type 0 where
  subscribing : Credential → Action
  cancelling receiving : ℕ → Action
  publishing : Invalidation → Action

-- Only an allocated channel has a holder that can cancel it or receive from it.
abbrev pub act : Action → Hub → Result Panic Hub
act (subscribing credential) h = ok (subscribe credential h)
act (cancelling a) h = if ltb a h.allocated then cancel a h else ok h
act (receiving a) h = ok (if ltb a h.allocated then receive a h else h)
act (publishing invalidation) h = publish invalidation h

unfoldable pub run : List Action → Hub → Result Panic Hub
run [] h = ok h
run (a ∷ rest) h = act a h >>= run rest
