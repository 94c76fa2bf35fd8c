-- ===== src/Network/Outside.antt =====
-- What src/network.cpp works on and does not contain: the Linux kernel behind Netlink and /proc, the
-- `ip` and `nft` commands, the steady clock and the store. All of it is one record of operations on
-- an abstract state, a parameter of the model. The rest of the file is the monad of the controller:
-- a method runs on the controller's fields and that state, returns or throws, and logs each change
-- that it asks of the outside world, in order, whether or not the change succeeds.
use wirelab_experiments.Common.{
  ℕ, Bool, true, false, List, [], ◌∷◌, ◌++◌, Option, Text, Outcome, returned, thrown,
}
use wirelab_experiments.Config.{NetworkConfig}

pub data Exception : Type 0 where
  invalid_argument : Text → Exception
  runtime_error : Text → Exception

abbrev pub what : Exception → Text
what (invalid_argument text) = text
what (runtime_error text) = text

pub data Status : Type 0 where
  inactive applying awaiting_confirmation confirmed rolling_back rollback_failed : Status

-- One element of `state_["baseline"]`.
pub record Baseline : Type 0 where
  pub ifname : Text
  pub address : Text
  pub flags : List Text
  pub disable_ipv6 : Text
  pub rp_filter : Text

-- The members of `state_`; an absent configuration or error is `none`, an absent string empty.
pub record NetState : Type 0 where
  pub status : Status
  pub config : Option NetworkConfig
  pub baseline : List Baseline
  pub ip_forward : Text
  pub rp_filter_all : Text
  pub error : Option Text

-- The Netlink requests of the file, with the attributes that it fills in.
pub data Message : Type 0 where
  set_link : ℕ → Bool → Option (List ℕ) → Message
  new_vlan : ℕ → Text → ℕ → Message
  delete_link : ℕ → Message
  change_address : Bool → ℕ → ℕ → ℕ → Message
  change_gateway_route : Bool → ℕ → ℕ → Message
  change_link_route : Bool → ℕ → ℕ → ℕ → Message
  change_rule : Bool → ℕ → Text → Message
  delete_connections : Message

-- The acknowledgement: accepted, refused with an error number, or none.
pub data Reply : Type 0 where
  accepted : Reply
  refused : ℕ → Text → Reply
  unanswered : Text → Reply

pub data Event : Type 0 where
  sends : Message → Event
  writes : Text → Text → Event
  runs : List Text → Text → Event
  puts : NetState → Event

-- What `ip -j address show dev` says of a link.
pub record LinkInfo : Type 0 where
  pub ifname : Text
  pub address : Text
  pub flags : List Text
  pub has_master : Bool
  pub has_addresses : Bool

pub record Kernel : Type 1 where
  pub World : Type 0
  -- Changes.
  pub send : Message → World → Reply × World
  pub write_file : Text → Text → World → Outcome Exception (Unit {0}) × World
  pub command : List Text → Text → World → Outcome Exception (Unit {0}) × World
  pub put : NetState → World → Outcome Exception (Unit {0}) × World
  -- Queries.
  pub link_index : World → Text → ℕ
  pub read_file : World → Text → Outcome Exception Text
  pub table_exists : World → Text → Outcome Exception Bool
  pub route_tables : World → Outcome Exception (List (Option ℕ))
  pub rule_priorities : World → Outcome Exception (List ℕ)
  pub link_info : World → Text → Outcome Exception LinkInfo
  pub check_ruleset : World → Text → Outcome Exception (Unit {0})
  pub clock : World → ℕ

-- The fields of `NetworkController`, with the outside world.
pub record Controller (W : Type 0) : Type 0 where
  pub enabled : Bool
  pub state : NetState
  pub deadline : ℕ
  pub world : W

pub record Run (W : Type 0) (A : Type 0) : Type 0 where
  pub outcome : Outcome Exception A
  pub controller : Controller W
  pub log : List Event

abbrev pub M : Type 0 → Type 0 → Type 0
M W A = Controller W → Run W A

module _ {W : Type 0} where
  abbrev pub pure : {A : Type 0} → A → M W A
  pure a n = record { outcome = returned a; controller = n; log = [] }

  abbrev pub throw : {A : Type 0} → Exception → M W A
  throw e n = record { outcome = thrown e; controller = n; log = [] }

  -- What comes after a call: the rest of the method, or the way out.
  abbrev pub after :
      {A B : Type 0} → (A → M W B) → Controller W → List Event → Outcome Exception A → Run W B
  after f n log (returned a) =
      let r = f a n in record { outcome = r.outcome; controller = r.controller; log = log ++ r.log }
  after f n log (thrown e) = record { outcome = thrown e; controller = n; log = log }

  infixl 5 ◌>>=◌ ◌>>◌
  abbrev pub ◌>>=◌ : {A B : Type 0} → M W A → (A → M W B) → M W B
  ◌>>=◌ m f n = let r = m n in after f r.controller r.log r.outcome

  abbrev pub ◌>>◌ : {B : Type 0} → M W (Unit {0}) → M W B → M W B
  ◌>>◌ m k = ◌>>=◌ m (λ _. k)

  abbrev pub throw_if : Bool → Exception → M W (Unit {0})
  throw_if true e = throw e
  throw_if false e = pure tt

  -- `try { m } catch (const std::exception& e) { handler(e) }`
  abbrev pub handle :
      {A : Type 0} → (Exception → M W A) → Controller W → List Event → Outcome Exception A → Run W A
  handle handler n log (returned a) = record { outcome = returned a; controller = n; log = log }
  handle handler n log (thrown e) =
      let r = handler e n in
      record { outcome = r.outcome; controller = r.controller; log = log ++ r.log }

  abbrev pub try_catch : {A : Type 0} → M W A → (Exception → M W A) → M W A
  try_catch m handler n = let r = m n in handle handler r.controller r.log r.outcome

  abbrev pub get_state : M W NetState
  get_state n = record { outcome = returned n.state; controller = n; log = [] }

  abbrev pub set_state : NetState → M W (Unit {0})
  set_state s n = record { outcome = returned tt; controller = record n { state = s }; log = [] }

  abbrev pub query : {A : Type 0} → (W → Outcome Exception A) → M W A
  query q n = record { outcome = q n.world; controller = n; log = [] }

  abbrev pub ask : {A : Type 0} → (W → A) → M W A
  ask q n = record { outcome = returned (q n.world); controller = n; log = [] }

  -- A change, which is logged.
  abbrev pub change : {A : Type 0} → Event → (W → Outcome Exception A × W) → M W A
  change e act n =
      let r = act n.world in
      record { outcome = r.0; controller = record n { world = r.1 }; log = e ∷ [] }

  abbrev pub get_enabled : M W Bool
  get_enabled n = record { outcome = returned n.enabled; controller = n; log = [] }

  abbrev pub get_deadline : M W ℕ
  get_deadline n = record { outcome = returned n.deadline; controller = n; log = [] }

  abbrev pub set_deadline : ℕ → M W (Unit {0})
  set_deadline d n = record {
    outcome = returned tt;
    controller = record n { deadline = d };
    log = [];
  }
