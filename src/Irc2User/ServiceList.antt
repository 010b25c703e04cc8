-- ===== src/Irc2User/ServiceList.antt =====
-- SERVLIST: handleSERVLIST, home/kineircd/src/mod_irc2user/handlers.cpp, which is compiled only
-- where commands.def names it. The matching of a mask and toLower are aisutil's, atol is C's.
use kineircd.Prelude.{
  ℕ, ◌-◌, ◌^◌, ◌≡◌, refl, Bool, false, ◌&&◌, ◌||◌, not, List, [], ◌∷◌, ◌++◌, if◌then◌else◌, ◌==◌,
  arith,
}
use kineircd.Prelude.Text.{Text, codes}
use kineircd.Prelude.Int.{ℤ, pos, negsuc}
use Prim.Native.Nat.{bit_and, bit_and-bitwise}

pub record Service : Type 0 where
  pub nickname : Text
  pub user_host_ident : Text
  pub server_name : Text
  pub scope_mask : Text
  pub service_type : ℤ
  pub hop_count : ℕ
  pub description : Text

pub data Reply : Type 0 where
  service_list : Text → Text → Text → ℤ → ℕ → Text → Reply
  end_of_service_list : Text → ℤ → Reply

-- The bits of a long of 64 bits.
unfoldable pub bits : ℤ → ℕ
bits (pos n) = n
bits (negsuc n) = 2 ^ 64 - 1 - n

unfoldable pub is_none : ℤ → Bool
is_none (pos n) = n == 0
is_none (negsuc n) = false

unfoldable pub has_type : ℤ → ℤ → Bool
unfolding bits is_none
has_type type service_type =
    not (bit_and (bits type) (bits service_type) == 0) || is_none service_type

has_type_zero : (service_type : ℤ) → has_type (pos 0) service_type ≡ is_none service_type
unfolding has_type
has_type_zero service_type =
    let nothing : bit_and 0 (bits service_type) ≡ 0 = bit_and-bitwise 0 (bits service_type) in
    rw (has_type, bits, nothing) refl

unfoldable pub service_reply : Service → Reply
service_reply s =
    service_list s.user_host_ident s.server_name s.scope_mask s.service_type s.hop_count
      s.description

module _ (matches : Text → Text → Bool) (to_lower : Text → Text) where
  unfoldable pub list_services : Text → ℤ → List Service → List Reply
  unfolding has_type service_reply
  list_services name_mask type [] = end_of_service_list name_mask type ∷ []
  list_services name_mask type (s ∷ services) =
      let rest = list_services name_mask type services in
      if matches name_mask (to_lower s.nickname) && has_type type s.service_type
      then service_reply s ∷ rest
      else rest

  unfoldable pub handle_servlist : (Text → ℤ) → List Service → List Text → List Reply
  unfolding list_services
  handle_servlist atol services [] = list_services (codes "*") (pos 0) services
  handle_servlist atol services (mask ∷ []) = list_services mask (pos 0) services
  handle_servlist atol services (mask ∷ type ∷ ps) = list_services mask (atol type) services

  -- The replies for the services that have a name of the mask and no type.
  abbrev pub untyped : Text → List Service → List Reply
  untyped name_mask [] = []
  untyped name_mask (s ∷ services) =
      if matches name_mask (to_lower s.nickname) && is_none s.service_type
      then service_reply s ∷ untyped name_mask services
      else untyped name_mask services

  -- A command without a type tells only of the services that have no type.
  pub list_services-untyped :
      (name_mask : Text) (services : List Service)
      → list_services name_mask (pos 0) services
        ≡ untyped name_mask services ++ end_of_service_list name_mask (pos 0) ∷ []
  unfolding list_services
  list_services-untyped name_mask [] = refl
  list_services-untyped name_mask (s ∷ services) =
      rw (has_type_zero s.service_type) (ground (arith, list_services-untyped name_mask services))
