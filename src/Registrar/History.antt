-- ===== src/Registrar/History.antt =====
-- The messages of a connection, one after another, up to the switch to another protocol.
use kineircd.Prelude.{ℕ, ◌≡◌, refl, ◌⊎◌, inl, inr, ◌∙◌, List, [], ◌∷◌, Option, none, some, arith}
use kineircd.Prelude.Text.{Text}
use kineircd.Registrar.State.{Registrar, Environment, new_registrar}
use kineircd.Registrar.Message.{parse_message}
use kineircd.Registrar.Session.{Holds, IsSound}
use kineircd.Registrar.Switch.{IsComplete, IsMessageStep, parse_message-IsMessageStep}

pub record Message : Type 0 where
  pub input_queue : Text
  pub command : Text
  pub parameters : List Text

-- A message that comes behind the switch finds the instance deleted: undefined behaviour, as the
-- `none` of a handler.
unfoldable pub receive : Environment → Message → Registrar → Option ℕ → Option Registrar
receive env m r (some _) = none
receive env m r none = parse_message env m.input_queue m.command m.parameters r

unfoldable pub and_then : {A : Type 0} → Option A → (A → Option A) → Option A
and_then none f = none
and_then (some x) f = f x

unfoldable pub run : Environment → List Message → Registrar → Option Registrar
run env [] r = some r
run env (m ∷ ms) r = and_then (receive env m r r.replaced) (run env ms)

-- Sound, and replaced only on a complete registration.
abbrev pub IsGated : Environment → Registrar → Type 0
IsGated env r = IsSound env r × ((r.replaced ≡ none) ⊎ IsComplete env r)

Holds-and_then :
    {A : Type 0} {P : A → Type 0} (o : Option A) (f : A → Option A)
    → Holds P o
    → ((x : A) → P x → Holds P (f x))
    → Holds P (and_then o f)
unfolding and_then
Holds-and_then none f h k = h
Holds-and_then (some x) f h k = k x h

gate :
    (env : Environment) (r : Registrar) (o : Option Registrar)
    → r.replaced ≡ none
    → Holds (IsMessageStep env r) o
    → Holds (IsGated env) o
gate env r none e h = h
gate env r (some s) e h = (h.sound, elim h.gated [ inl k ↦ inl (k ∙ e) | inr k ↦ inr k ])

receive-IsGated :
    (env : Environment) (m : Message) (r : Registrar) (o : Option ℕ)
    → r.replaced ≡ o
    → IsSound env r
    → Holds (IsGated env) (receive env m r o)
unfolding receive
receive-IsGated env m r (some _) e h = tt
receive-IsGated env m r none e h =
    gate env r _ e (parse_message-IsMessageStep env m.input_queue m.command m.parameters r h)

run-IsGated :
    (env : Environment) (ms : List Message) (r : Registrar)
    → IsGated env r
    → Holds (IsGated env) (run env ms r)
unfolding run
run-IsGated env [] r h = h
run-IsGated env (m ∷ ms) r h =
    Holds-and_then _ (run env ms) (receive-IsGated env m r r.replaced refl h.0) (run-IsGated env ms)

new-IsGated : (env : Environment) → IsGated env new_registrar
new-IsGated env = (ground arith, inl refl)

-- Whatever messages a new connection gives, as long as there is no undefined behaviour, the
-- registrar is replaced by another protocol only when the registration is complete: its type is
-- one that the listener allows, all that the type requires was given, and a user has no probe
-- open.
pub run-new-IsGated :
    (env : Environment) (ms : List Message) → Holds (IsGated env) (run env ms new_registrar)
run-new-IsGated env ms = run-IsGated env ms new_registrar (new-IsGated env)
