-- ===== src/Irc2/Replies/Stats.antt =====
-- STATS: Protocol::doSTATS, home/kineircd/src/lib_irc2/common.cpp, and the requests of
-- home/kineircd/src/lib_irc2/stats.cpp.
use kineircd.Prelude.{
  ap, ◌<◌, ◌==◌, Bool-cases, inl, inr, ◌∙◌, ℕ, zero, suc, ◌≡◌, ◌≢◌, refl, Bool, true, false, ◌&&◌,
  List, [], ◌∷◌, Option, none, some, if◌then◌else◌, ltb, leb, length, All, arith,
}
use kineircd.Prelude.Text.{Text, codes, strncmp_eq, text_eq}

-- The handlers of the requests.
pub data Handler : Type 0 where
  languages list_connections operators resources uptime : Handler

-- A request, the characters that are needed, and the handler.
pub record Command : Type 0 where
  pub request : Text
  pub min_chars : ℕ
  pub handler : Handler

unfoldable pub stats_commands : List Command
stats_commands =
    record { request = codes "languages"; min_chars = 2; handler = languages }
    ∷ record { request = codes "listconnections"; min_chars = 1; handler = list_connections }
    ∷ record { request = codes "operators"; min_chars = 1; handler = operators }
    ∷ record { request = codes "resources"; min_chars = 1; handler = resources }
    ∷ record { request = codes "uptime"; min_chars = 1; handler = uptime }
    ∷ []

-- std::max
abbrev pub max : ℕ → ℕ → ℕ
max a b = if ltb a b then b else a

unfoldable pub is_request : Text → Command → Bool
unfolding strncmp_eq
is_request req c = strncmp_eq (max (length req) c.min_chars) req c.request

-- The handler that is called, if any; the footer follows in any case.
unfoldable pub find_request : Text → List Command → Option Handler
unfolding is_request
find_request req [] = none
find_request req (c ∷ cs) =
    let rest = find_request req cs in if is_request req c then some c.handler else rest

pub data Reply : Type 0 where
  stats : Handler → Reply
  end_of_stats : Text → Reply

unfoldable pub do_stats : (Text → Text) → Text → List Reply
unfolding find_request stats_commands
do_stats to_lower request = elim (find_request (to_lower request) stats_commands) [
  | none ↦ end_of_stats request ∷ []
  | some handler ↦ stats handler ∷ end_of_stats request ∷ []
]

abbrev pub is_prefix : Text → Text → Bool
is_prefix [] t = true
is_prefix (c ∷ s) [] = false
is_prefix (c ∷ s) (d ∷ t) = (c == d) && is_prefix s t

strncmp_eq-prefix : (s t : Text) → All (λ c. c ≢ 0) s → strncmp_eq (length s) s t ≡ is_prefix s t
unfolding strncmp_eq
strncmp_eq-prefix [] t h = refl
strncmp_eq-prefix (c ∷ s) [] h = ground arith
strncmp_eq-prefix (c ∷ s) (d ∷ t) h = ground (arith, strncmp_eq-prefix s t h.1)

strncmp_eq-whole :
    (s t : Text) (n : ℕ)
    → All (λ c. c ≢ 0) s
    → All (λ c. c ≢ 0) t
    → length s < n
    → strncmp_eq n s t ≡ text_eq s t
unfolding strncmp_eq text_eq
strncmp_eq-whole s t zero h k e = elim e [ ]
strncmp_eq-whole [] [] (suc n) h k e = refl
strncmp_eq-whole [] (d ∷ t) (suc n) h k e = ground arith
strncmp_eq-whole (c ∷ s) [] (suc n) h k e = ground arith
strncmp_eq-whole (c ∷ s) (d ∷ t) (suc n) h k e =
    ground (arith, strncmp_eq-whole s t n h.1 k.1 (omega arith))

-- A request and a name without NUL: a request of at least as many characters as are needed is
-- taken where the name begins with it, a shorter one only where it is the whole name.
pub is_request-prefix :
    (req : Text) (c : Command)
    → All (λ x. x ≢ 0) req
    → All (λ x. x ≢ 0) c.request
    → is_request req c
      ≡ (if leb c.min_chars (length req) then is_prefix req c.request else text_eq req c.request)
unfolding is_request
is_request-prefix req c h k = elim (Bool-cases (leb c.min_chars (length req))) [
  | inl e ↦
      let m : max (length req) c.min_chars ≡ length req = ground arith in
      ap (λ n. strncmp_eq n req c.request) m ∙ strncmp_eq-prefix req c.request h ∙ simp e
  | inr e ↦
      let m : max (length req) c.min_chars ≡ c.min_chars = ground arith in
      let short : length req < c.min_chars = ground arith in
      ap (λ n. strncmp_eq n req c.request) m
      ∙ strncmp_eq-whole req c.request c.min_chars h k short
      ∙ simp e
]
