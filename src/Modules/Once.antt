-- ===== src/Modules/Once.antt =====
-- A module that wants to be loaded once is.
use kineircd.Prelude.{
  ℕ, ◌+◌, ◌≡◌, ◌≤◌, refl, sym, ◌∙◌, ap, Bool, true, false, ◌&&◌, List, [], ◌∷◌, ◌++◌, some, none,
  if◌then◌else◌, Bool-cases, inl, inr, arith,
}
use kineircd.Prelude.Text.{Text, text_eq, text_eq_iff}
use kineircd.Modules.{
  Module, Library, missing, without_init, initialised, Loaded, fault, refused, loaded,
  load_descriptor, get_key_name, add_descriptor, any_key, load_module,
}

-- The modules of a key.
unfoldable pub count_key : Text → List Module → ℕ
count_key key [] = 0
count_key key (m ∷ modules) =
    (if text_eq (get_key_name m) key then 1 else 0) + count_key key modules

any_key-count_key :
    (key : Text) (modules : List Module) → any_key key modules ≡ false → count_key key modules ≡ 0
unfolding any_key count_key
any_key-count_key key [] h = refl
any_key-count_key key (m ∷ modules) h = ground (arith, any_key-count_key key modules)

count_key-snoc :
    (key : Text) (modules : List Module) (m : Module)
    → count_key key (modules ++ m ∷ []) ≡ count_key key modules + count_key key (m ∷ [])
unfolding count_key
count_key-snoc key [] m = omega arith
count_key-snoc key (n ∷ modules) m = omega (arith, count_key-snoc key modules m)

count_key-le_one : (key : Text) (m : Module) → count_key key (m ∷ []) ≤ 1
unfolding count_key
count_key-le_one key m = ground arith

count_key_other :
    (key : Text) (m : Module) → text_eq (get_key_name m) key ≡ false → count_key key (m ∷ []) ≡ 0
unfolding count_key
count_key_other key m h = ground (arith, h)

initialised_of_loaded :
    (lib : Library) (m : Module) → load_descriptor lib ≡ loaded m → lib ≡ initialised (some m)
unfolding load_descriptor
initialised_of_loaded (missing error) m h = cc
initialised_of_loaded without_init m h = cc
initialised_of_loaded (initialised none) m h = cc
initialised_of_loaded (initialised (some n)) m h = ground (arith, h)

is_fault : Loaded → Bool
is_fault fault = true
is_fault (refused error) = false
is_fault (loaded m) = false

module _ (key : Text) where
  add_loaded :
      (m : Module) (modules : List Module)
      → (get_key_name m ≡ key → m.unique_instance ≡ true)
      → count_key key modules ≤ 1
      → count_key key (add_descriptor (loaded m) modules).1 ≤ 1
  unfolding add_descriptor
  add_loaded m modules once h =
      elim (Bool-cases (m.unique_instance && any_key (get_key_name m) modules)) [
        | inl e ↦ rw e h
        | inr e ↦ elim (Bool-cases (text_eq (get_key_name m) key)) [
          | inr f ↦ rw e (omega (arith, count_key-snoc key modules m, count_key_other key m f))
          | inl f ↦
              let same : (get_key_name m) ≡ key = (text_eq_iff (get_key_name m) key).0 f in
              let alone : any_key key modules ≡ false =
                ap (λ k. any_key k modules) (sym same)
                ∙ sym (ap (λ b. b && any_key (get_key_name m) modules) (once same))
                ∙ e in
              rw e (
                omega (
                  arith,
                  count_key-snoc key modules m,
                  any_key-count_key key modules alone,
                  count_key-le_one key m,
                ))
        ]
      ]

  add_descriptor-count_key :
      (answer : Loaded) (modules : List Module)
      → ((m : Module) → answer ≡ loaded m → (get_key_name m) ≡ key → m.unique_instance ≡ true)
      → count_key key modules ≤ 1
      → count_key key (add_descriptor answer modules).1 ≤ 1
  add_descriptor-count_key fault modules once h = unfold add_descriptor in h
  add_descriptor-count_key (refused error) modules once h = unfold add_descriptor in h
  add_descriptor-count_key (loaded m) modules once h = add_loaded m modules (once m refl) h

module _ (open_library : Text → Library) where
  -- Files that are loaded in order, whatever the answers; a fault ends it.
  pub load_all : List Text → List Module → List Module
  load_all [] modules = modules
  load_all (filename ∷ filenames) modules =
      let (answer, ms) = load_module open_library filename modules in
      let rest = load_all filenames ms in if is_fault answer then ms else rest

  -- If every module of a key that a file gives wants to be loaded once, then however often and in
  -- whatever order files are loaded, the list has one module of the key at most.
  pub load_all-count_key :
      (key : Text) (filenames : List Text) (modules : List Module)
      → ((filename : Text) (m : Module)
          → open_library filename ≡ initialised (some m)
          → (get_key_name m) ≡ key
          → m.unique_instance ≡ true)
      → count_key key modules ≤ 1
      → count_key key (load_all filenames modules) ≤ 1
  unfolding load_all
  load_all-count_key key [] modules once h = h
  load_all-count_key key (filename ∷ filenames) modules once h =
      let (answer, ms) = load_module open_library filename modules in
      let step : count_key key ms ≤ 1 =
        unfold load_module in
        add_descriptor-count_key key (load_descriptor (open_library filename)) modules
          (λ m e. once filename m (initialised_of_loaded (open_library filename) m e)) h in
      elim (Bool-cases (is_fault answer)) [
        | inl e ↦ rw e step
        | inr e ↦ rw e (load_all-count_key key filenames ms once step)
      ]
