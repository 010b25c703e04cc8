-- ===== src/Examples/Instances.antt =====
-- Concrete functions in place of the libraries that are not in the repository.
use kineircd.Prelude.{
  ℕ, ◌+◌, ◌-◌, ◌≡◌, ◌≢◌, ◌≤◌, ◌<◌, true, false, [], ◌∷◌, ◌++◌, arith, All, length, refl, is_empty,
  not, ◌==◌, if◌then◌else◌, some,
}
use kineircd.Prelude.Text.{Text, codes}
use kineircd.Prelude.Int.{pos}
use kineircd.Irc2.Tokens.{Tokens, AreTokens}
use kineircd.Membership.{Counter}
use kineircd.Membership.Counts.{IsCounter}
use kineircd.Network.{Lists}
use kineircd.Registrar.State.{Environment}

-- A stream of tokens is the text that is left, and a token ends at the first delimiter.
unfoldable pub split : ℕ → Text → Text × Text
split d [] = ([], [])
split d (c ∷ s) = let (w, s') = split d s in if c == d then ([], s) else (c ∷ w, s')

abbrev pub split_tokens : Tokens
split_tokens = record {
  Stream = Text;
  tokens = λ s. s;
  has_more = λ s. not (is_empty s);
  next = split;
  rest = λ s. s;
  to_upper = λ s. s;
}

length-split : (d : ℕ) (s : Text) → length (split d s).1 ≤ length s
unfolding split
length-split d [] = omega arith
length-split d (c ∷ s) = ground (arith, length-split d s)

length-split_more : (d : ℕ) (s : Text) → not (is_empty s) ≡ true → length (split d s).1 < length s
unfolding split
length-split_more d [] h = cc
length-split_more d (c ∷ s) h = ground (arith, length-split d s)

split-word : (d : ℕ) (w s : Text) → All (λ c. c ≢ d) w → split d (w ++ d ∷ s) ≡ (w, s)
unfolding split
split-word d [] s h = ground arith
split-word d (c ∷ w) s h = ground (arith, split-word d w s h.1)

split-last : (d : ℕ) (w : Text) → All (λ c. c ≢ d) w → split d w ≡ (w, [])
unfolding split
split-last d [] h = refl
split-last d (c ∷ w) h = ground (arith, split-last d w h.1)

pub split-AreTokens : AreTokens split_tokens
split-AreTokens = record {
  left = length;
  left-tokens = λ s. omega arith;
  left-next = length-split;
  left-next_more = length-split_more;
  next_word = λ d w s h. split-word d w s h.1;
  next_last = λ d w h. split-last d w h.1;
  has_more_nil = refl;
  has_more_cons = λ c s h. refl;
  rest-tokens = λ s. refl;
}

abbrev pub counter : Counter
counter = record { Count = ℕ; value = λ n. n; increase = λ n. n + 1; decrease = λ n. n - 1 }

pub counter-IsCounter : IsCounter counter
counter-IsCounter = record { value-increase = λ n h. refl; value-decrease = λ n h. omega arith }

abbrev pub lists : Lists
lists = record {
  users = (codes "fred", 17) ∷ [];
  services = [];
  servers = [];
  networks = [];
  channels = [];
}

-- A listener that allows users and servers, on a host with one protocol of every kind.
abbrev pub environment : Environment
environment = record {
  localise = λ t. t;
  delocalise = λ t. t;
  language = λ tag ps. codes "text";
  to_upper = λ t. t;
  to_int = λ t. pos (length t);
  to_long = λ t. pos (length t);
  random_text = λ n. codes "probe";
  server_name = codes "irc.example";
  lists = lists;
  find_protocol = λ kind name. some 3;
  create_protocol = λ info registrant input output. some 5;
  allow_networks = false;
  allow_servers = true;
  allow_services = false;
  allow_users = true;
  max_nickname_length = 9;
  max_description_length = 50;
  debug = false;
  max_real_name_length = 50;
}
