-- ===== src/Modules.antt =====
-- Modules: home/kineircd/src/lib/modules/descriptor.cpp and list.cpp, with the handlers of modules in
-- home/kineircd/src/lib/config/handlers.cpp. What the library ltdl and a module's init function
-- answer is an argument.
pub mod Once
pub mod Irc2
pub mod Loggers
use kineircd.Prelude.{
  ℕ, Bool, true, false, ◌&&◌, ◌||◌, not, List, [], ◌∷◌, ◌++◌, Option, none, some, if◌then◌else◌,
  is_empty,
}
use kineircd.Prelude.Text.{Text, codes, text_eq}
use kineircd.Prelude.Decimal.{decimal}

pub record Module : Type 0 where
  pub name_short : Option Text
  pub name_long : Option Text
  pub version_major : ℕ
  pub version_minor : ℕ
  pub unique_instance : Bool
  pub has_configuration : Bool
  pub starts : Bool

unfoldable pub is_okay : Module → Bool
is_okay m = elim m.name_short [
  | none ↦ false
  | some short ↦ elim m.name_long [ none ↦ false | some long ↦ true ]
]

-- A name that is a null pointer, which a module that is okay has not, is empty here.
unfoldable pub get_key_name : Module → Text
get_key_name m = elim m.name_short [ none ↦ [] | some short ↦ short ]

unfoldable pub make_version_string : Module → Text
unfolding get_key_name
make_version_string m =
    get_key_name m ++ (b'-' ∷ (decimal m.version_major ++ (b'.' ∷ decimal m.version_minor)))

-- A file that cannot be opened, with the error; one without an init function; and what the init
-- function gives.
pub data Library : Type 0 where
  missing : Text → Library
  without_init : Library
  initialised : Option Module → Library

-- A string is assigned from a null pointer where there is no init function: `fault`.
pub data Loaded : Type 0 where
  fault : Loaded
  refused : Text → Loaded
  loaded : Module → Loaded

-- ModuleDescriptor::loadModule.
unfoldable pub load_descriptor : Library → Loaded
unfolding is_okay
load_descriptor (missing error) = refused error
load_descriptor without_init = fault
load_descriptor (initialised none) = refused (codes "Module initialisation returned no information")
load_descriptor (initialised (some m)) =
    if is_okay m then loaded m else refused (codes "Module contains an invalid basicInfo structure")

-- std::find_if with checkKey finds something.
unfoldable pub any_key : Text → List Module → Bool
unfolding text_eq
any_key key [] = false
any_key key (m ∷ modules) = text_eq (get_key_name m) key || any_key key modules

-- What the list does with a descriptor: the answer, and the list.
unfoldable pub add_descriptor : Loaded → List Module → Loaded × List Module
add_descriptor fault modules = (fault, modules)
add_descriptor (refused error) modules = (refused error, modules)
add_descriptor (loaded m) modules =
    if m.unique_instance && any_key (get_key_name m) modules
    then (refused (make_version_string m ++ codes " can only be loaded once"), modules)
    else (loaded m, modules ++ m ∷ [])

module _ (open_library : Text → Library) where
  -- ModuleList::loadModule.
  unfoldable pub load_module : Text → List Module → Loaded × List Module
  unfolding load_descriptor add_descriptor
  load_module filename modules = add_descriptor (load_descriptor (open_library filename)) modules

  -- The handler of a module's variable: whether it is happy, the error string and the list.
  unfoldable pub var_handle_module :
      (Text → Text) → List Text → List Module → Option ((Bool × Option Text) × List Module)
  var_handle_module trim [] modules = none
  var_handle_module trim (value ∷ values) modules =
      if is_empty value
      then some ((false, some (codes "No module filename supplied!")), modules)
      else let (answer, ms) = load_module (trim value) modules in
        elim answer [
          | fault ↦ none
          | refused error ↦ some ((false, some error), ms)
          | loaded m ↦ some ((true, none), ms)
        ]

  -- The handler of a module's class; what the parser says of the configuration of a module.
  unfoldable pub class_handle_module :
      (Text → Text)
      → (Module → Bool × Option Text)
      → List Text
      → List Module
      → Option ((Bool × Option Text) × List Module)
  class_handle_module trim parse [] modules =
      some ((false, some (codes "No module filename supplied!")), modules)
  class_handle_module trim parse (value ∷ values) modules =
      if is_empty value
      then some ((false, some (codes "No module filename supplied!")), modules)
      else let (answer, ms) = load_module (trim value) modules in
        elim answer [
          | fault ↦ none
          | refused error ↦ some ((false, some error), ms)
          | loaded m ↦
              if m.has_configuration
              then some (parse m, ms)
              else some ((false, some (codes "Module requires no additional configuration")), ms)
        ]

pub data LogKind : Type 0 where
  housekeeping warning : LogKind

-- What is logged; every module is started once.
unfoldable pub start_all : List Module → List (Text × LogKind)
start_all [] = []
start_all (m ∷ modules) =
    (if m.starts
      then (codes "Started module " ++ make_version_string m, housekeeping)
      else (codes "Unable to start module " ++ make_version_string m, warning))
    ∷ start_all modules

unfoldable pub stop_all : List Module → List Module
stop_all modules = []
