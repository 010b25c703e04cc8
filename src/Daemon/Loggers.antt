-- ===== src/Daemon/Loggers.antt =====
-- The loggers that get a line.
use kineircd.Prelude.{
  ℕ, suc, ◌≡◌, refl, ap, ◌∙◌, Bool, true, false, List, [], ◌∷◌, if◌then◌else◌, ◌==◌, ==_iff, arith,
  ltb, Bool-cases, inl, inr,
}
use kineircd.Prelude.Text.{Text}
use kineircd.Daemon.{Daemon, member, insert, erase, register_logger, deregister_logger, log, log_to}

pub data Op : Type 0 where
  register deregister : ℕ → Op

abbrev pub perform : Op → Daemon → Daemon
perform (register l) d = (register_logger l d).1
perform (deregister l) d = (deregister_logger l d).1

abbrev pub perform_all : List Op → Daemon → Daemon
perform_all [] d = d
perform_all (op ∷ ops) d = perform_all ops (perform op d)

-- How many times the number is in the list.
abbrev pub times : ℕ → List ℕ → ℕ
times l [] = 0
times l (x ∷ xs) = let n = times l xs in if x == l then suc n else n

-- Whether the logger's last operation registered it, where the Boolean tells of the state before.
abbrev pub is_registered : ℕ → List Op → Bool → Bool
is_registered l [] b = b
is_registered l (register m ∷ ops) b = is_registered l ops (if m == l then true else b)
is_registered l (deregister m ∷ ops) b = is_registered l ops (if m == l then false else b)

abbrev pub once : Bool → ℕ
once b = if b then 1 else 0

member-times : (l : ℕ) (s : List ℕ) → member l s ≡ ltb 0 (times l s)
unfolding member
member-times l [] = refl
member-times l (x ∷ s) = ground (arith, member-times l s)

times-erase : (l m : ℕ) (s : List ℕ) → times l (erase m s) ≡ (if m == l then 0 else times l s)
unfolding erase
times-erase l m [] = ground arith
times-erase l m (x ∷ s) = ground (arith, times-erase l m s)

-- The set with the logger m added.
abbrev added : ℕ → List ℕ → List ℕ
added m s = if member m s then s else m ∷ s

times-there : (l : ℕ) (s : List ℕ) (b : Bool) → times l s ≡ once b → member l s ≡ b
times-there l s true h = rw (member-times l s, h)
times-there l s false h = rw (member-times l s, h)

times-same : (l : ℕ) (s : List ℕ) (b : Bool) → times l s ≡ once b → times l (added l s) ≡ 1
times-same l s true h = rw (times-there l s true h) h
times-same l s false h = rw (times-there l s false h) (ground (arith, h))

times-other : (l m : ℕ) (s : List ℕ) → (m == l) ≡ false → times l (added m s) ≡ times l s
times-other l m s e = elim (Bool-cases (member m s)) [ inl f ↦ rw f | inr f ↦ rw (f, e) ]

register_logger-added : (m : ℕ) (d : Daemon) → (register_logger m d).1.loggers ≡ added m d.loggers
unfolding register_logger insert
register_logger-added m d = elim (Bool-cases (member m d.loggers)) [
  | inl e ↦ rw (register_logger, e)
  | inr e ↦ rw (register_logger, e)
]

times-register :
    (l m : ℕ) (d : Daemon) (b : Bool)
    → times l d.loggers ≡ once b
    → times l (register_logger m d).1.loggers ≡ once (if m == l then true else b)
times-register l m d b h = ap (times l) (register_logger-added m d) ∙ elim (Bool-cases (m == l)) [
  | inl e ↦
      ap (λ x. times l (added x d.loggers)) ((==_iff m l).0 e) ∙ times-same l d.loggers b h ∙ rw e
  | inr e ↦ times-other l m d.loggers e ∙ h ∙ rw e
]

times-deregister :
    (c b : Bool) (n : ℕ) → n ≡ once b → (if c then 0 else n) ≡ once (if c then false else b)
times-deregister true b n h = refl
times-deregister false b n h = h

times-perform :
    (l : ℕ) (ops : List Op) (d : Daemon) (b : Bool)
    → times l d.loggers ≡ once b
    → times l (perform_all ops d).loggers ≡ once (is_registered l ops b)
unfolding deregister_logger
times-perform l [] d b h = h
times-perform l (register m ∷ ops) d b h =
    times-perform l ops (register_logger m d).1 (if m == l then true else b)
      (times-register l m d b h)
times-perform l (deregister m ∷ ops) d b h =
    times-perform l ops (deregister_logger m d).1 (if m == l then false else b)
      (times-erase l m d.loggers ∙ times-deregister (m == l) b (times l d.loggers) h)

-- The loggers that get the line.
abbrev pub receivers : List (ℕ × (Text × ℕ)) → List ℕ
receivers [] = []
receivers ((l, line) ∷ calls) = l ∷ receivers calls

receivers-log_to : (line : Text) (mask : ℕ) (ls : List ℕ) → receivers (log_to line mask ls) ≡ ls
unfolding log_to
receivers-log_to line mask [] = refl
receivers-log_to line mask (l ∷ ls) = ap (λ r. l ∷ r) (receivers-log_to line mask ls)

-- From a daemon without loggers, behind any sequence of registrations and removals: a line goes to
-- a logger exactly once if the logger's last operation registered it, and else never.
pub log-once :
    (line : Text) (mask l : ℕ) (ops : List Op) (d : Daemon)
    → d.loggers ≡ []
    → times l (receivers (log line mask (perform_all ops d))) ≡ once (is_registered l ops false)
unfolding log
log-once line mask l ops d h =
    ap (times l) (receivers-log_to line mask (perform_all ops d).loggers)
    ∙ times-perform l ops d false (ap (times l) h)
