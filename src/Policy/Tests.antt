-- ===== src/Policy/Tests.antt =====
-- The policy at concrete configurations and server messages.
use firebirdsql_go.Base.{
  ℕ, ◌≡◌, refl, inl, inr, true, none, some, List, [], ◌∷◌, ◌++◌, replicate, All, bytes_of, bytes_eq,
}
use firebirdsql_go.Texts.{split_list, contains}
use firebirdsql_go.Policy.{
  required, parse_wire_crypt_mode, wire_crypt_resolve, is_auth_plugin_allowed, all_supported,
  validate_auth_plugins, default_auth_plugins, Offer, Cipher, chacha64, chacha, arc4, scan_offer,
  chacha64_nonce, chacha_nonce, try_plugin, choose, guess_wire_crypt,
}
use firebirdsql_go.Policy.Choice.{NonceFits}
use firebirdsql_go.Policy.Resolve.{required_fails_closed}
use firebirdsql_go.Policy.Auth.{IsImplemented}

spaced : parse_wire_crypt_mode (bytes_of "  Required ") ≡ (required, none)
unfolding parse_wire_crypt_mode
spaced = refl

-- The server offers "Arc4 ChaCha" with a nonce for ChaCha.
abbrev offer : List ℕ
offer = 1 ∷ 11 ∷ (bytes_of "Arc4 ChaCha" ++ 3 ∷ 19 ∷ (bytes_of "ChaCha" ++ 0 ∷ replicate 12 5))

abbrev plugins : List (List ℕ)
plugins = chacha64 ∷ chacha ∷ arc4 ∷ []

abbrev picked : Cipher
picked = record { name = chacha; nonce = some (replicate 12 5) }

guess_offer : guess_wire_crypt offer plugins ≡ some picked
unfolding guess_wire_crypt scan_offer choose try_plugin contains chacha64_nonce chacha_nonce
guess_offer = refl

abbrev offered : Offer
offered = record { plugins = arc4 ∷ chacha ∷ []; nonces = [] }

chacha64_is_out : try_plugin offered chacha64 ≡ none
unfolding try_plugin contains
chacha64_is_out = refl

arc4_is_in : try_plugin offered arc4 ≡ some (record { name = arc4; nonce = none })
unfolding try_plugin contains bytes_eq
arc4_is_in = refl

quiet : (wire_crypt_resolve required chacha true).1 ≡ none
unfolding wire_crypt_resolve
quiet = refl

required_fails_closed_example :
    ((wire_crypt_resolve required chacha true).0 ≡ true)
    × (contains plugins chacha ≡ true)
    × NonceFits picked
required_fails_closed_example = required_fails_closed offer plugins true picked guess_offer quiet

default_is_valid : validate_auth_plugins (bytes_of "Srp256") default_auth_plugins ≡ none
unfolding validate_auth_plugins all_supported split_list contains
default_is_valid = refl

legacy_is_allowed : is_auth_plugin_allowed (bytes_of "Legacy_Auth") default_auth_plugins ≡ true
unfolding is_auth_plugin_allowed
legacy_is_allowed = refl

only_srp : split_list (bytes_of " Srp ,") ≡ bytes_of "Srp" ∷ []
unfolding split_list
only_srp = refl

only_srp-IsImplemented : All IsImplemented (split_list (bytes_of " Srp ,"))
unfolding split_list
only_srp-IsImplemented = (inr (inl refl), tt)

srp_is_allowed : is_auth_plugin_allowed (bytes_of "Srp") (bytes_of " Srp ,") ≡ true
unfolding is_auth_plugin_allowed
srp_is_allowed = refl
