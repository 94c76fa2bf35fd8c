-- ===== src/Network/Quiet.antt =====
-- Methods of the network controller that keep its state and store nothing: the rules for such methods,
-- and the helpers of src/network.cpp that change only the kernel.
pub mod Parts
use wirelab_experiments.Common.{
  ℕ, Bool, true, false, not, ◌&&◌, List, [], ◌∷◌, ◌++◌, Option, none, some, Text, Outcome, returned,
  thrown, ◌≡◌, ◌∙◌, refl, arith, codes, ◌==◌, if◌then◌else◌, Bool-cases, inl, inr,
}
use wirelab_experiments.Inet.{Inet}
use wirelab_experiments.Config.{NetworkConfig}
use wirelab_experiments.Network.Outside.{
  Exception, Message, Baseline, NetState, Kernel, Controller, Event, sends, writes, runs, puts, M,
  pure, after, ask, ◌>>=◌, ◌>>◌,
}
use wirelab_experiments.Network.Netlink.{
  N, netlink, index_of, write_file, command, link_state, add_vlan, remove_vlan, outer_link,
  clear_connections, ipv4, address, route, rule,
}
use wirelab_experiments.Network.Restore.{
  attempt, replace_by_guard, delete_if_present, restore_port, restore_ports, restore_outer, undo,
  release_guard, is_empty,
}

unfoldable pub is_put : Event → Bool
is_put (puts state) = true
is_put (sends message) = false
is_put (writes path value) = false
is_put (runs argv input) = false

unfoldable pub stores_nothing : List Event → Bool
stores_nothing [] = true
stores_nothing (e ∷ es) = not (is_put e) && stores_nothing es

stores_nothing-append :
    (xs ys : List Event)
    → stores_nothing xs ≡ true
    → stores_nothing ys ≡ true
    → stores_nothing (xs ++ ys) ≡ true
unfolding stores_nothing
stores_nothing-append [] ys p q = q
stores_nothing-append (x ∷ xs) ys p q = ground (arith, stores_nothing-append xs ys)

module _ {W : Type 0} where
  -- A method that leaves the state alone and stores nothing, with its end.
  abbrev Keeps : {A : Type 0} → Controller W → M W A → Type 0
  Keeps n m = ((m n).controller.state ≡ n.state) × (stores_nothing (m n).log ≡ true)

  pub record IsQuiet {A : Type 0} (m : M W A) : Type 0 where
    pub keeps : (n : Controller W) → Keeps n m

  pub pure-IsQuiet : {A : Type 0} {a : A} → IsQuiet {A = A} (pure a)
  unfolding stores_nothing
  pure-IsQuiet {a} = record { keeps = λ n. (refl, refl) }

  after-keeps :
      {A B : Type 0} (f : A → M W B) (n : Controller W) (log : List Event) (o : Outcome Exception A)
      → stores_nothing log ≡ true
      → ((a : A) → IsQuiet (f a))
      → ((after f n log o).controller.state ≡ n.state)
        × (stores_nothing (after f n log o).log ≡ true)
  after-keeps f n log (returned a) h k =
      let q = (k a).keeps n in (q.0, stores_nothing-append log (f a n).log h q.1)
  after-keeps f n log (thrown e) h k = (refl, h)

  pub bind-IsQuiet :
      {A B : Type 0} {m : M W A} {f : A → M W B}
      → IsQuiet m
      → ((a : A) → IsQuiet (f a))
      → IsQuiet (m >>= f)
  bind-IsQuiet {f} h k = record {
    keeps = λ n. let q = h.keeps n in let r = after-keeps f _ _ _ q.1 k in (r.0 ∙ q.0, r.1);
  }

  pub then-IsQuiet :
      {B : Type 0} {m : M W (Unit {0})} {k : M W B} → IsQuiet m → IsQuiet k → IsQuiet (m >> k)
  then-IsQuiet h k = bind-IsQuiet h (λ _. k)

module _ (kernel : Kernel) (inet : Inet) where
  pub write_file-IsQuiet : (path value : Text) → IsQuiet (write_file kernel path value)
  unfolding write_file stores_nothing is_put
  write_file-IsQuiet path value = record { keeps = λ n. (refl, refl) }

  pub command-IsQuiet : (argv : List Text) (input : Text) → IsQuiet (command kernel argv input)
  unfolding command stores_nothing is_put
  command-IsQuiet argv input = record { keeps = λ n. (refl, refl) }

  pub netlink-IsQuiet :
      (message : Message) (missing_ok : Bool) → IsQuiet (netlink kernel message missing_ok)
  unfolding netlink stores_nothing is_put
  netlink-IsQuiet message missing_ok = record { keeps = λ n. (refl, refl) }

  pub link_state-IsQuiet :
      (name : Text) (up : Bool) (mac : Text) → IsQuiet (link_state kernel name up mac)
  unfolding link_state index_of netlink stores_nothing is_put
  link_state-IsQuiet name up mac = record { keeps = λ n. ground arith }

  pub add_vlan-IsQuiet : (c : NetworkConfig) (id : ℕ) → IsQuiet (add_vlan kernel c id)
  unfolding add_vlan index_of netlink stores_nothing is_put
  add_vlan-IsQuiet c id = record { keeps = λ n. ground arith }

  pub remove_vlan-IsQuiet : IsQuiet (remove_vlan kernel)
  unfolding remove_vlan index_of netlink stores_nothing is_put
  remove_vlan-IsQuiet = record { keeps = λ n. ground arith }

  pub address-IsQuiet :
      (iface ip : Text) (prefix : ℕ) (add : Bool)
      → IsQuiet (address kernel inet iface ip prefix add)
  unfolding address index_of ipv4 netlink stores_nothing is_put
  address-IsQuiet iface ip prefix add = record { keeps = λ n. ground arith }

  pub route-IsQuiet :
      (c : NetworkConfig) (gateway add : Bool) → IsQuiet (route kernel inet c gateway add)
  unfolding route index_of ipv4 netlink stores_nothing is_put
  route-IsQuiet c gateway add = record { keeps = λ n. ground arith }

  pub rule-IsQuiet : (c : NetworkConfig) (add : Bool) → IsQuiet (rule kernel inet c add)
  unfolding rule ipv4 netlink stores_nothing is_put
  rule-IsQuiet c add = record { keeps = λ n. ground arith }

  pub replace_by_guard-IsQuiet : (c : NetworkConfig) → IsQuiet (replace_by_guard kernel inet c)
  unfolding replace_by_guard command clear_connections netlink stores_nothing is_put
  replace_by_guard-IsQuiet c = record { keeps = λ n. ground arith }

  pub delete_if_present-IsQuiet : (family : Text) → IsQuiet (delete_if_present kernel inet family)
  unfolding delete_if_present command stores_nothing is_put
  delete_if_present-IsQuiet family = record { keeps = λ n. ground arith }

  pub attempt-IsQuiet :
      {action : N kernel (Unit {0})} (errors : Text)
      → IsQuiet action
      → IsQuiet (attempt kernel inet action errors)
  unfolding attempt stores_nothing
  attempt-IsQuiet {action} errors h = record {
    keeps = λ n. ground (arith, h.keeps n, stores_nothing-append (action n).log []);
  }
