-- ===== src/Listener/Retries.antt =====
-- What the handler of listeners does with a service where sockets fail.
use kineircd.Prelude.{
  ℕ, suc, ◌+◌, ◌%◌, ◌^◌, ◌<◌, ◌≡◌, refl, ap, ◌∙◌, true, false, List, [], ◌∷◌, ◌++◌, Option, none,
  some, length, All, arith, Bool-cases, Option-cases, inl, inr,
}
use kineircd.Prelude.Text.{Text}
use kineircd.Prelude.Int.{ℤ, pos, is_positive}
use kineircd.Listener.{Listener}
use kineircd.Listener.Config.{
  ListenerConfig, Complaint, Sockets, next_port, setup_socket, Service, is_service, to_port,
  open_named,
}
use kineircd.Listener.Named.{positive, skip, failed}

positive_of_lt : (n : ℕ) → 0 < n → is_positive (pos n) ≡ true
positive_of_lt n h = positive n (ground arith)

stays_positive :
    (name : Text) (port : ℤ) (e : Service)
    → is_positive port ≡ true
    → 0 < e.port
    → is_positive (next_port name port e) ≡ true
unfolding next_port
stays_positive name port e h a = elim (Bool-cases (is_service name e)) [
  | inl f ↦ rw f (positive_of_lt e.port a)
  | inr f ↦ rw f h
]

-- An error for each entry, counted in an unsigned int.
count_from : ℕ → List Service → ℕ
count_from n [] = n
count_from n (e ∷ es) = count_from ((n + 1) % 2 ^ 32) es

count_from-length :
    (es : List Service) (n : ℕ) → n < 2 ^ 32 → count_from n es ≡ (n + length es) % 2 ^ 32
unfolding count_from
count_from-length [] n h = omega arith
count_from-length (e ∷ es) n h =
    omega (arith, count_from-length es ((n + 1) % 2 ^ 32) (omega arith))

counted :
    {A : Type 0} {ls : A} (es : List Service)
    → ◌≡◌ {A = ℕ × A} (count_from (1 % 2 ^ 32) es, ls) (suc (length es) % 2 ^ 32, ls)
counted {ls = ls} es =
    ap (λ n. (n, ls)) (omega (arith, count_from-length es (1 % 2 ^ 32) (omega arith)))

module _ (s : Sockets) (c : ListenerConfig) where
  module _ (refuses : (ls : List Listener) (port : ℕ) → (setup_socket s c ls port ≡ none) → ⊥) where
    refusal :
        (ls : List Listener) (port : ℕ)
        → (complaint : Complaint) × (setup_socket s c ls port ≡ some complaint)
    refusal ls port = elim (Option-cases (setup_socket s c ls port)) [
      | inl e ↦ absurd (refuses ls port e)
      | inr found ↦ found
    ]

    -- Every entry is tried from a positive port on.
    tried :
        (es : List Service) (port : ℤ) (error : Option Complaint) (errors : ℕ) (ls : List Listener)
        → is_positive port ≡ true
        → All (λ f. 0 < f.port) es
        → (open_named s c es port error errors ls).1 ≡ (count_from errors es, ls)
    unfolding count_from
    tried [] port error errors ls h a = unfold open_named in refl
    tried (e ∷ es) port error errors ls h (a, as') =
        let positive_port : is_positive (next_port c.port port e) ≡ true =
          stays_positive c.port port e h a in
        let (complaint, k) = refusal ls (to_port (next_port c.port port e)) in
        rw (failed s c e es port error errors ls complaint positive_port k) (
          tried es (next_port c.port port e) (some complaint) ((errors + 1) % 2 ^ 32) ls
            positive_port as')

    -- Where no socket can be set up, the first entry of the name and every entry behind it, whatever
    -- its name, are tried and counted as errors, and no listener is added.
    pub open_named-retries :
        (before : List Service) (e : Service) (after : List Service) (port : ℤ)
        (error : Option Complaint) (ls : List Listener)
        → is_positive port ≡ false
        → All (λ f. is_service c.port f ≡ false) before
        → is_service c.port e ≡ true
        → All (λ f. 0 < f.port) (e ∷ after)
        → (open_named s c (before ++ e ∷ after) port error 0 ls).1
          ≡ (suc (length after) % 2 ^ 32, ls)
    open_named-retries [] e after port error ls h b f (a, as') =
        let here : next_port c.port port e ≡ pos e.port = unfold next_port in rw f in
        let positive_port = ap is_positive here ∙ positive_of_lt e.port a in
        let (complaint, k) = refusal ls (to_port (next_port c.port port e)) in
        rw (failed s c e after port error 0 ls complaint positive_port k) (
          tried after (next_port c.port port e) (some complaint) (1 % 2 ^ 32) ls positive_port as'
          ∙ counted after)
    open_named-retries (d ∷ before) e after port error ls h (b, bs) f a =
        let same : next_port c.port port d ≡ port = unfold next_port in rw b in
        rw (skip s c d (before ++ e ∷ after) port error 0 ls (ap is_positive same ∙ h), same)
          (open_named-retries before e after port error ls h bs f a)
