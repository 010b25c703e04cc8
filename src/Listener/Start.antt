-- ===== src/Listener/Start.antt =====
-- Starting all listeners.
use kineircd.Prelude.{◌≡◌, refl, ap₂, Bool, ◌||◌, List, [], ◌∷◌, map, arith}
use kineircd.Listener.{Listener, listen, start_all}

module _ (can_listen : Listener → Bool) where
  -- The listener once it was started: it listens where it did, or where its socket can.
  pub started : Listener → Listener
  started l = record l { listening = l.listening || can_listen l }

  listen-started : (l : Listener) → (listen can_listen l).1 ≡ started l
  unfolding listen started
  listen-started l = ground arith

  pub start_all-started : (ls : List Listener) → start_all can_listen ls ≡ map started ls
  unfolding start_all
  start_all-started [] = refl
  start_all-started (l ∷ ls) = ap₂ ◌∷◌ (listen-started l) (start_all-started ls)
