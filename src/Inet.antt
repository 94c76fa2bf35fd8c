-- ===== src/Inet.antt =====
-- The address conversion that the sources take from <arpa/inet.h>: a parameter of the model.
-- `inet_pton` stands for `inet_pton(AF_INET, …)` followed by `ntohl`: the address of a text in host
-- byte order, or nothing for a text that is no dotted quad. `inet_ntop` and `inet6_ntop` print the
-- bytes of an address.
use wirelab_experiments.Common.{ℕ, ◌<◌, ◌^◌, ◌≡◌, List, Option, some, Text}

pub record Inet : Type 0 where
  pub inet_pton : Text → Option ℕ
  pub inet_pton-lt : (text : Text) (a : ℕ) → inet_pton text ≡ some a → a < 2 ^ 32
  pub inet_ntop : List ℕ → Text
  pub inet6_ntop : List ℕ → Text
